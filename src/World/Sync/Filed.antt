-- ===== src/World/Sync/Filed.antt =====
-- What a well formed master sends may be filed by its slaves.
use rust_distributed_gameser.Prelude.{
  ◌≡◌, ◌∙◌, ◌⊎◌, inl, inr, refl, ap, sym, some, ite, arith, [], ◌∷◌, In, here, there,
}
use rust_distributed_gameser.Prelude.Text.{Text, Text_discrete}
use rust_distributed_gameser.Float.{Float}
use rust_distributed_gameser.HashMap.{HashMap, get, insert}
use rust_distributed_gameser.HashMap.Keys.{int_key, text_key}
use rust_distributed_gameser.HashMap.Entries.{get-In}
use rust_distributed_gameser.Common.Basic.{User, UserId}
use rust_distributed_gameser.MapTool.{MapTag, map_tag_key, to_string, from_string}
use rust_distributed_gameser.World.State.{World, Map}
use rust_distributed_gameser.World.Valid.{IsValid}
use rust_distributed_gameser.World.Invariant.{IsFiledData}
use rust_distributed_gameser.World.Sync.{collect_data, get_world_sync_dto}
use rust_distributed_gameser.World.Sync.Laws.{IsSendable, read_back}

module _ {V : Type 0} where
  In-insert_head :
      (e : Text × V) (k : Text) (v : V) (j : Text) (w : V) (m rest : HashMap Text V)
      (d : Dec (j ≡ k))
      → In e (ite d ((k, v) ∷ m) ((j, w) ∷ rest))
      → (In e rest → (e ≡ (k, v)) ⊎ In e m)
      → (e ≡ (k, v)) ⊎ In e ((j, w) ∷ m)
  In-insert_head e k v j w m rest (yes p) (here q) ih = inl q
  In-insert_head e k v j w m rest (yes p) (there i) ih = inr (there i)
  In-insert_head e k v j w m rest (no p) (here q) ih = inr (here q)
  In-insert_head e k v j w m rest (no p) (there i) ih = elim (ih i) [
    | inl q ↦ inl q
    | inr q ↦ inr (there q)
  ]

  In-insert :
      (e : Text × V) (k : Text) (v : V) (m : HashMap Text V)
      → In e (insert k v m)
      → (e ≡ (k, v)) ⊎ In e m
  unfolding insert
  In-insert e k v [] (here p) = inl p
  In-insert e k v [] (there i) = elim i [ ]
  In-insert e k v ((j, w) ∷ m) i =
      In-insert_head e k v j w m (insert k v m) (Text_discrete j k) i (In-insert e k v m)

module _ {F : Type 0} where
  -- An entry of the data is a map's users under the text of its tag.
  collect_data-In :
      (maps : HashMap MapTag (Map F)) (acc : HashMap Text (HashMap UserId (User F))) (key : Text)
      (users : HashMap UserId (User F))
      → In (key, users) (collect_data maps acc)
      → In (key, users) acc
        ⊎ ((t : MapTag) × (m : Map F) × In (t, m) maps
            × (key ≡ to_string t)
            × (users ≡ m.scenes.users))
  unfolding collect_data
  collect_data-In [] acc key users i = inl i
  collect_data-In ((s, k) ∷ maps) acc key users i =
      elim (collect_data-In maps (insert (to_string s) k.scenes.users acc) key users i) [
        | inr (t, m, j, p, q) ↦ inr (t, m, there j, p, q)
        | inl j ↦ elim (In-insert (key, users) (to_string s) k.scenes.users acc j) [
          | inl e ↦ inr (s, k, here refl, ap (λ z. z.0) e, ap (λ z. z.1) e)
          | inr l ↦ inl l
        ]
      ]

module _ {F : Type 0} ⦃fl : Float F⦄ where
  -- What a well formed world whose tags their texts can carry sends may be filed under its side.
  pub get_world_sync_dto-IsFiledData :
      (w : World F)
      → IsValid w
      → ((t : MapTag) (m : Map F) → get t w.maps ≡ some m → IsSendable t)
      → IsFiledData w.area_len (get_world_sync_dto w).data_of_maps
  unfolding get_world_sync_dto
  get_world_sync_dto-IsFiledData w v sendable key users t i e =
      elim (collect_data-In w.maps [] key users i) [
        | inl j ↦ elim j [ ]
        | inr (s, m, j, p, q) ↦
            (let hit = get-In s m w.maps v.filed.maps_distinct j in
              let both : some s ≡ some t =
                sym (read_back s (sendable s m hit)) ∙ ap from_string (sym p) ∙ e in
              let same : s ≡ t = ground arith in
              let home = v.filed.each s m hit in rw (q, ← same) (home.users_distinct, home.filed))
      ]
