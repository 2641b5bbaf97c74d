-- ===== src/Common/Basic/Laws.antt =====
-- What a move does to a user.
use rust_distributed_gameser.Prelude.{◌≡◌, false, arith}
use rust_distributed_gameser.Prelude.Int.{pos, negsuc}
use rust_distributed_gameser.Float.{Float, ◌≼◌}
use rust_distributed_gameser.Float.Laws.{IsIeee}
use rust_distributed_gameser.Common.Basic.{
  Vector2, User, edge, minus_edge, clamp, shift, is_quals_zero,
}

module _ {F : Type 0} ⦃fl : Float F⦄ where
  -- A coordinate inside the world.
  abbrev pub IsInside : F → Type 0
  IsInside x = minus_edge ≼ x × (x ≼ edge)

  abbrev pub IsInWorld : Vector2 F → Type 0
  IsInWorld p = IsInside p.x × IsInside p.y

  module _ (laws : IsIeee F) where
    clamp-IsInside : (x : F) → x ≼ x → IsInside (clamp x)
    unfolding clamp
    clamp-IsInside x n =
        let low = pos 0 in
        ground (
          arith,
          laws.le-of_int (negsuc 999_999) (pos 1_000_000),
          laws.le-of_int (pos 1_000_000) (pos 1_000_000),
          laws.le-of_int (negsuc 999_999) (negsuc 999_999),
          laws.le-of_int (pos 1_000_000) (negsuc 999_999),
          laws.le_total x edge n,
          laws.le_total x minus_edge n,
        )

    -- A user whose direction is not zero ends inside the world, wherever it was, if the moved
    -- coordinates are numbers.
    pub shift_inside :
        (user : User F) (time : F)
        → let d = user.velocity.direction in
          let moved_x = fl.add user.position.x (fl.mul (fl.mul d.x user.velocity.len) time) in
          let moved_y = fl.add user.position.y (fl.mul (fl.mul d.y user.velocity.len) time) in
          moved_x ≼ moved_x
          → moved_y ≼ moved_y
          → is_quals_zero d ≡ false
          → IsInWorld (shift user time).position
    unfolding shift
    shift_inside user time nx ny moving = rw moving (clamp-IsInside _ nx, clamp-IsInside _ ny)

  -- A move changes the position alone.
  pub shift_keeps :
      (user : User F) (time : F)
      → ((shift user time).id ≡ user.id)
        × ((shift user time).velocity ≡ user.velocity)
        × ((shift user time).money ≡ user.money)
  unfolding shift
  shift_keeps user time = ground arith
