-- ===== src/World/Query.antt =====
-- Finding the users of a rectangle and of a circle.
pub mod Cover
pub mod Exact
use rust_distributed_gameser.Prelude.{
  ℕ, zero, suc, ◌+◌, Bool, true, false, ◌&&◌, Option, none, some, List, [], ◌∷◌, ◌++◌,
  if◌then◌else◌,
}
use rust_distributed_gameser.Prelude.Int.{ℤ, pos, pos_part, ◌+ℤ◌, ◌-ℤ◌, ltb_ℤ, eq_ℤ}
use rust_distributed_gameser.Float.{Float}
use rust_distributed_gameser.HashMap.{HashMap, get, insert, values}
use rust_distributed_gameser.HashMap.Keys.{int_key}
use rust_distributed_gameser.Common.Basic.{
  User, UserId, Vector2, vector, RectScope, FullRectScope, to_full_rect_scope,
}
use rust_distributed_gameser.MapTool.{MapTag, map_tag_key, pos2map_tag}
use rust_distributed_gameser.World.State.{
  World, Map, VertexTag, left_up, left_down, right_up, right_down, grid_tag,
}

-- Rounds enough for a loop from `low` to `high`.
abbrev pub rounds : ℤ → ℤ → ℕ
rounds low high = pos_part (high -ℤ low) + 1

-- A round of the loop over `y_len` at 0 goes on at -1, one of the loop over `x_len` at 1.
abbrev pub skip_down : ℤ → ℤ
skip_down y = if eq_ℤ y (pos 0) then y -ℤ pos 1 else y

abbrev pub skip_up : ℤ → ℤ
skip_up x = if eq_ℤ x (pos 0) then x +ℤ pos 1 else x

module _ (F : Type 0) ⦃fl : Float F⦄ where
  -- The loop over `y_len`, downwards.
  unfoldable pub cover_column : ℕ → ℤ → ℤ → ℤ → List MapTag
  unfolding grid_tag
  cover_column zero x_len y_len inside_end = []
  cover_column (suc fuel) x_len y_len inside_end =
      let y = skip_down y_len in
      let round = grid_tag F x_len y ∷ cover_column fuel x_len (y -ℤ pos 1) inside_end in
      if ltb_ℤ (inside_end -ℤ pos 1) y_len then round else []

  -- The loop over `x_len`, upwards.
  unfoldable pub cover_rows : ℕ → ℤ → ℤ → ℤ → ℤ → List MapTag
  unfolding cover_column
  cover_rows zero x_len out_end inside_start inside_end = []
  cover_rows (suc fuel) x_len out_end inside_start inside_end =
      let x = skip_up x_len in
      let round =
        cover_column (rounds inside_end inside_start) x inside_start inside_end
        ++ cover_rows fuel (x +ℤ pos 1) out_end inside_start inside_end in
      if ltb_ℤ x_len (out_end +ℤ pos 1) then round else []

module _ {F : Type 0} ⦃fl : Float F⦄ where
  -- The tags of the vertices left_down and right_up are computed and not used.
  unfoldable pub get_cover_map_by_scope : RectScope F → World F → List MapTag
  unfolding cover_rows
  get_cover_map_by_scope scope w =
      let lu = pos2map_tag w.area_len scope.left_up in
      let rd = pos2map_tag w.area_len scope.right_down in
      cover_rows F (rounds lu.x_len rd.x_len) lu.x_len rd.x_len lu.y_len rd.y_len

  -- The test of `query` on a position.
  abbrev pub in_scope : FullRectScope F → Vector2 F → Bool
  in_scope s p =
      fl.le s.left_up.x p.x
      && fl.le p.x s.right_down.x
      && fl.le p.y s.left_up.y
      && fl.le s.right_down.y p.y

  -- The users of a list for which a test holds.
  unfoldable pub select : (User F → Bool) → List (User F) → List (User F)
  select test [] = []
  select test (u ∷ us) = let rest = select test us in if test u then u ∷ rest else rest

  -- The body of the loop over the tags: a tag without a map is skipped.
  abbrev pub users_of_map : FullRectScope F → Option (Map F) → List (User F)
  users_of_map s none = []
  users_of_map s (some m) = select (λ u. in_scope s u.position) (values m.scenes.users)

  unfoldable pub users_of_maps :
      FullRectScope F → List MapTag → HashMap MapTag (Map F) → List (User F)
  unfolding select
  users_of_maps s [] maps = []
  users_of_maps s (t ∷ tags) maps = users_of_map s (get t maps) ++ users_of_maps s tags maps

  unfoldable pub query : RectScope F → World F → List (User F)
  unfolding get_cover_map_by_scope users_of_maps
  query scope w = users_of_maps (to_full_rect_scope scope) (get_cover_map_by_scope scope w) w.maps

  -- The square around a circle.
  abbrev pub circle_scope : Vector2 F → F → RectScope F
  circle_scope c radius = record {
    left_up = vector (fl.sub c.x radius) (fl.add c.y radius);
    right_down = vector (fl.add c.x radius) (fl.sub c.y radius);
  }

  unfoldable pub in_circle : Vector2 F → F → Vector2 F → Bool
  in_circle c radius p =
      fl.le (fl.abs (fl.sqrt (fl.add (fl.powi (fl.sub p.x c.x) 2) (fl.powi (fl.sub p.y c.y) 2))))
        radius

  -- The loop that collects the users of a circle by id.
  unfoldable pub collect_circle :
      Vector2 F → F → List (User F) → HashMap UserId (User F) → HashMap UserId (User F)
  unfolding in_circle
  collect_circle c radius [] found = found
  collect_circle c radius (u ∷ us) found =
      collect_circle c radius us
        (if in_circle c radius u.position then insert u.id u found else found)

  unfoldable pub query_by_circle_scope : Vector2 F → F → World F → HashMap UserId (User F)
  unfolding query collect_circle
  query_by_circle_scope c radius w = collect_circle c radius (query (circle_scope c radius) w) []

  -- The four rectangles of `vertex_get_user_by_scope`, from a vertex to the map's far corner.
  abbrev vertex_test : VertexTag → Vector2 F → Vector2 F → Vector2 F → Bool
  vertex_test left_up start finish p =
      fl.le start.x p.x && fl.le p.y start.y && fl.le p.x finish.x && fl.le finish.y p.y
  vertex_test left_down start finish p =
      fl.le start.x p.x && fl.le start.y p.y && fl.le p.x finish.x && fl.le p.y finish.y
  vertex_test right_up start finish p =
      fl.le p.x start.x && fl.le p.y start.y && fl.le finish.x p.x && fl.le finish.y p.y
  vertex_test right_down start finish p =
      fl.le p.x start.x && fl.le start.y p.y && fl.le finish.x p.x && fl.le p.y finish.y

  unfoldable pub vertex_get_user_by_scope :
      VertexTag → Vector2 F → Vector2 F → Map F → List (User F)
  unfolding select
  vertex_get_user_by_scope t start finish m =
      select (λ u. vertex_test t start finish u.position) (values m.scenes.users)
