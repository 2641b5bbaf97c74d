-- ===== src/Common/Basic.antt =====
-- crates/common/src/basic.rs: vectors, velocities, rectangles and users. The random choices are
-- arguments.
pub mod Laws
use rust_distributed_gameser.Prelude.{
  ℕ, ◌^◌, ◌%◌, ◌==◌, Bool, true, false, ◌&&◌, List, [], ◌∷◌, if◌then◌else◌,
}
use rust_distributed_gameser.Prelude.Int.{ℤ, pos, negsuc}
use rust_distributed_gameser.Float.{Float, lt, eq}

pub record Vector2 (F : Type 0) : Type 0 where
  pub x : F
  pub y : F

pub record Velocity (F : Type 0) : Type 0 where
  pub direction : Vector2 F
  pub len : F

-- `left_up` has the least x and the greatest y.
pub record RectScope (F : Type 0) : Type 0 where
  pub left_up : Vector2 F
  pub right_down : Vector2 F

pub record FullRectScope (F : Type 0) : Type 0 where
  pub left_up : Vector2 F
  pub left_down : Vector2 F
  pub right_up : Vector2 F
  pub right_down : Vector2 F

abbrev pub UserId : Type 0
UserId = ℤ

-- `id` is an i64 and `money` a u64.
pub record User (F : Type 0) : Type 0 where
  pub id : UserId
  pub position : Vector2 F
  pub velocity : Velocity F
  pub money : ℕ

abbrev pub u64_mod : ℕ
u64_mod = 2 ^ 64

module _ {F : Type 0} where
  abbrev pub vector : F → F → Vector2 F
  vector x y = record { x = x; y = y }

  abbrev pub to_full_rect_scope : RectScope F → FullRectScope F
  to_full_rect_scope s = record {
    left_up = s.left_up;
    left_down = vector s.left_up.x s.right_down.y;
    right_up = vector s.right_down.x s.left_up.y;
    right_down = s.right_down;
  }

  abbrev pub new_user : UserId → Vector2 F → Velocity F → ℕ → User F
  new_user id position velocity money = record {
    id = id;
    position = position;
    velocity = velocity;
    money = money;
  }

module _ {F : Type 0} ⦃fl : Float F⦄ where
  abbrev pub zero_f : F
  zero_f = fl.of_int (pos 0)

  abbrev one_f : F
  one_f = fl.of_int (pos 1)

  abbrev minus_one_f : F
  minus_one_f = fl.of_int (negsuc 0)

  -- 1000000.0 and -1000000.0, the edges of the world.
  abbrev pub edge : F
  edge = fl.of_int (pos 1_000_000)

  abbrev pub minus_edge : F
  minus_edge = fl.of_int (negsuc 999_999)

  abbrev pub zero_vector : Vector2 F
  zero_vector = vector zero_f zero_f

  abbrev pub one_vector : Vector2 F
  one_vector = vector one_f one_f

  abbrev pub up : Vector2 F
  up = vector zero_f one_f

  abbrev pub down : Vector2 F
  down = vector zero_f minus_one_f

  abbrev pub left : Vector2 F
  left = vector minus_one_f zero_f

  abbrev pub right : Vector2 F
  right = vector one_f zero_f

  -- `Vector2::random`, with the random `usize` as an argument.
  unfoldable pub random_direction : ℕ → Vector2 F
  random_direction n =
      if n % 4 == 0 then up else if n % 4 == 1 then down else if n % 4 == 2 then left else right

  unfoldable pub is_quals_zero : Vector2 F → Bool
  is_quals_zero v = eq v.x zero_f && eq v.y zero_f

  -- The two tests on one coordinate at the end of `shift`.
  unfoldable pub clamp : F → F
  clamp x =
      let upper : F = if lt edge x then edge else x in
      if lt upper minus_edge then minus_edge else upper

  unfoldable pub shift : User F → F → User F
  unfolding is_quals_zero clamp
  shift user time =
      let d = user.velocity.direction in
      let shift_x = fl.mul (fl.mul d.x user.velocity.len) time in
      let shift_y = fl.mul (fl.mul d.y user.velocity.len) time in
      if is_quals_zero d then user else record user {
        position =
            vector (clamp (fl.add user.position.x shift_x))
              (clamp (fl.add user.position.y shift_y));
      }

  unfoldable pub random_velocity : ℕ → Velocity F
  unfolding random_direction
  random_velocity n = record { direction = random_direction n; len = fl.of_int (pos 10) }

  -- `position` is what `rand_position` returns.
  unfoldable pub random_user : UserId → Vector2 F → ℕ → User F
  unfolding random_velocity
  random_user id position n = new_user id position (random_velocity n) 1000

  unfoldable pub random_without_velocity : UserId → Vector2 F → User F
  random_without_velocity id position =
      new_user id position (record { direction = zero_vector; len = zero_f }) 0
