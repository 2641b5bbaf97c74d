-- ===== src/World/Valid/Modify.antt =====
-- A write to the users of one map, and what stays well formed under it.
use mathlib.Core.Option
use rust_distributed_gameser.Prelude.{
  ◌⊎◌, ◌∙◌, ℕ, ◌≡◌, refl, sym, Option, none, some, Option-cases, inl, inr, if_pos, if_neg, arith,
  ◌≢◌,
}
use rust_distributed_gameser.Float.{Float}
use rust_distributed_gameser.HashMap.{HashMap, get, modify, IsDistinct}
use rust_distributed_gameser.HashMap.Keys.{int_key}
use rust_distributed_gameser.HashMap.Laws.{get-modify, modify-IsDistinct}
use rust_distributed_gameser.Common.Basic.{User, UserId}
use rust_distributed_gameser.MapTool.{MapTag, MapTag_discrete, map_tag_key, pos2map_tag}
use rust_distributed_gameser.World.State.{Map, with_users, find_in, find_user}
use rust_distributed_gameser.World.Valid.{IsFiled}

module _ {F : Type 0} where
  -- A write to the map `t`, as a lookup sees it.
  abbrev pub written :
      (HashMap UserId (User F) → HashMap UserId (User F)) → Option (Map F) → Option (Map F)
  written f = Option.map (with_users f)

  pub find_user-modify_self :
      (maps : HashMap MapTag (Map F)) (t : MapTag) (id : UserId)
      (f : HashMap UserId (User F) → HashMap UserId (User F))
      → find_user (modify t (with_users f) maps) t id ≡ find_in (written f (get t maps)) id
  unfolding find_user
  find_user-modify_self maps t id f =
      rw (get-modify t t (with_users f) maps, if_pos (MapTag_discrete t t) refl _ _)

  pub find_user-modify_ne :
      (maps : HashMap MapTag (Map F)) (t q : MapTag) (id : UserId)
      (f : HashMap UserId (User F) → HashMap UserId (User F))
      → t ≢ q
      → find_user (modify t (with_users f) maps) q id ≡ find_user maps q id
  unfolding find_user
  find_user-modify_ne maps t q id f n =
      rw (get-modify q t (with_users f) maps, if_neg (MapTag_discrete t q) n _ _)

  find_in-written :
      (o : Option (Map F)) (id : UserId) (f : HashMap UserId (User F) → HashMap UserId (User F))
      → ((users : HashMap UserId (User F)) → get id (f users) ≡ get id users)
      → find_in (written f o) id ≡ find_in o id
  find_in-written none id f same = refl
  find_in-written (some m) id f same = same m.scenes.users

  -- A user that a write leaves alone stands where it stood.
  pub find_user-modify_other :
      (maps : HashMap MapTag (Map F)) (t q : MapTag) (id : UserId)
      (f : HashMap UserId (User F) → HashMap UserId (User F))
      → ((users : HashMap UserId (User F)) → get id (f users) ≡ get id users)
      → find_user (modify t (with_users f) maps) q id ≡ find_user maps q id
  unfolding find_user
  find_user-modify_other maps t q id f same = elim (MapTag_discrete t q) [
    | no n ↦ find_user-modify_ne maps t q id f n
    | yes p ↦ rw (← p) (find_user-modify_self maps t id f ∙ find_in-written (get t maps) id f same)
  ]

  -- A map after a write is a map that the write left alone, or the written one.
  pub get-modify_split :
      (maps : HashMap MapTag (Map F)) (t q : MapTag)
      (f : HashMap UserId (User F) → HashMap UserId (User F)) (m : Map F)
      → get q (modify t (with_users f) maps) ≡ some m
      → (get q maps ≡ some m)
        ⊎ ((n : Map F) × (t ≡ q) × (get t maps ≡ some n) × (with_users f n ≡ m))
  get-modify_split maps t q f m e =
      let at : get q (modify t (with_users f) maps) ≡ _ = get-modify q t (with_users f) maps in
      elim (MapTag_discrete t q) [
        | no n ↦ inl (sym (at ∙ if_neg (MapTag_discrete t q) n _ _) ∙ e)
        | yes p ↦ elim (Option-cases (get q maps)) [
          | inl miss ↦ absurd (ground arith)
          | inr (n, hit) ↦ inr (n, p, rw p hit, ground arith)
        ]
      ]

module _ {F : Type 0} ⦃fl : Float F⦄ where
  -- What may be put into the map `t`: users filed under their ids and in their place.
  abbrev pub KeepsFiling : ℕ → MapTag → HashMap UserId (User F) → Type 0
  KeepsFiling area_len t users =
      IsDistinct users
      × ((id : UserId) (v : User F)
          → get id users ≡ some v
          → (v.id ≡ id) × (pos2map_tag area_len v.position ≡ t))

  pub modify-IsFiled :
      (area_len : ℕ) (maps : HashMap MapTag (Map F)) (t : MapTag)
      (f : HashMap UserId (User F) → HashMap UserId (User F))
      → IsFiled area_len maps
      → ((m : Map F) → get t maps ≡ some m → KeepsFiling area_len t (f m.scenes.users))
      → IsFiled area_len (modify t (with_users f) maps)
  modify-IsFiled area_len maps t f v keep = record {
    maps_distinct = modify-IsDistinct t (with_users f) maps v.maps_distinct;
    each = λ q m e. elim (get-modify_split maps t q f m e) [
      | inl old ↦ v.each q m old
      | inr (n, p, hit, new) ↦
          rw (← new, ← p)
            (record {
              on_grid = (v.each t n hit).on_grid;
              users_distinct = (keep n hit).0;
              filed = (keep n hit).1;
            })
    ];
  }
