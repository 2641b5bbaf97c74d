-- ===== src/World/Aoe.antt =====
-- `World::aoe`: money for every user around a user.
pub mod Laws
pub mod Circle
pub mod Exact
use rust_distributed_gameser.Prelude.{
  ℕ, ◌+◌, ◌%◌, Bool, true, false, Option, none, some, List, [], ◌∷◌, Outcome, done, panicked, ◌>>=◌,
  unwrap, ltb, ◌||◌, not, if◌then◌else◌,
}
use rust_distributed_gameser.Float.{Float, lt}
use rust_distributed_gameser.HashMap.{HashMap, get, remove, modify, values}
use rust_distributed_gameser.HashMap.Keys.{int_key}
use rust_distributed_gameser.Common.Basic.{User, UserId, u64_mod}
use rust_distributed_gameser.MapTool.{MapTag, map_tag_key}
use rust_distributed_gameser.World.State.{World, Map, with_users, find_in}
use rust_distributed_gameser.World.Users.{tag_of_user}
use rust_distributed_gameser.World.Query.{query_by_circle_scope}

module _ {F : Type 0} ⦃fl : Float F⦄ where
  -- `user.money += money`: a build with overflow checks panics where the sum leaves u64, any other
  -- build wraps it.
  abbrev pub earn : ℕ → User F → User F
  earn money user = record user { money = (user.money + money) % u64_mod }

  abbrev pub paid : ℕ → World F → User F → World F
  paid money w user = record w {
    maps = modify (tag_of_user w user) (with_users (modify user.id (earn money))) w.maps;
  }

  -- The user of the scene, or nobody.
  abbrev pub pay_found : Bool → ℕ → World F → User F → Option (User F) → Outcome (World F)
  pay_found checked money w user none = panicked w
  pay_found checked money w user (some held) =
      if ltb (held.money + money) u64_mod || not checked
      then done (paid money w user)
      else panicked w

  -- The body of the loop for a user of the circle.
  unfoldable pub pay : Bool → ℕ → World F → User F → Outcome (World F)
  pay checked money w user =
      unwrap w (get (tag_of_user w user) w.maps)
        (λ m. pay_found checked money w user (get user.id m.scenes.users))

  unfoldable pub pay_all : Bool → ℕ → List (User F) → World F → Outcome (World F)
  unfolding pay
  pay_all checked money [] w = done w
  pay_all checked money (u ∷ us) w = pay checked money w u >>= pay_all checked money us

  abbrev pub aoe_from : Bool → UserId → F → ℕ → World F → Option (User F) → Outcome (World F)
  aoe_from checked id radius money w none = done w
  aoe_from checked id radius money w (some caller) =
      pay_all checked money (values (remove id (query_by_circle_scope caller.position radius w))) w

  unfoldable pub aoe : Bool → UserId → F → ℕ → World F → Outcome (World F)
  unfolding pay_all query_by_circle_scope
  aoe checked id radius money w =
      if lt w.max_aoe_radius radius
      then done w
      else aoe_from checked id radius money w (get id w.users)
