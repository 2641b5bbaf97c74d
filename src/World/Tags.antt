-- ===== src/World/Tags.antt =====
-- No operation makes or takes away a map.
use rust_distributed_gameser.Prelude.{
  ℕ, ◌≡◌, ◌∙◌, Bool, Option, none, some, Option-cases, inl, inr, List, [], ◌∷◌, arith, done, state,
  bind_keeps,
}
use rust_distributed_gameser.Prelude.Text.{Text}
use rust_distributed_gameser.Float.{Float}
use rust_distributed_gameser.HashMap.{HashMap, get, contains_key, modify}
use rust_distributed_gameser.HashMap.Keys.{int_key, text_key}
use rust_distributed_gameser.HashMap.Laws.{get-modify}
use rust_distributed_gameser.Common.Basic.{User, UserId, Velocity}
use rust_distributed_gameser.MapTool.{MapTag, map_tag_key, from_string}
use rust_distributed_gameser.World.State.{World, Map, ChangeMap}
use rust_distributed_gameser.World.Invariant.{IsInvariant}
use rust_distributed_gameser.World.Users.{
  tag_of_user, remove_found, remove_logged_in, turn, add_user, remove_user,
  remove_user_by_client_id, set_velocity, update_state_info,
}
use rust_distributed_gameser.World.Aoe.{paid, pay_found, pay, pay_all, aoe_from, aoe}
use rust_distributed_gameser.World.Update.{shift_maps, change_map, change_maps, refreshed, update}
use rust_distributed_gameser.World.Update.Moves.{get-shift_maps}
use rust_distributed_gameser.World.Sync.{sync_entry, sync_entries, sync_from_master}

module _ {F : Type 0} ⦃fl : Float F⦄ where
  -- Whether there is a map for a tag, and how long the side of a map is.
  abbrev pub HasTag : MapTag → Bool → ℕ → World F → Type 0
  HasTag t b n w = (contains_key t w.maps ≡ b) × (w.area_len ≡ n)

  pub contains_key-modify :
      (t s : MapTag) (f : Map F → Map F) (maps : HashMap MapTag (Map F))
      → contains_key t (modify s f maps) ≡ contains_key t maps
  unfolding contains_key
  contains_key-modify t s f maps = elim (Option-cases (get t maps)) [
    | inl miss ↦ ground (arith, get-modify t s f maps)
    | inr (m, hit) ↦ ground (arith, get-modify t s f maps)
  ]

  contains_key-shift_maps :
      (time : F) (t : MapTag) (maps : HashMap MapTag (Map F))
      → contains_key t (shift_maps time maps) ≡ contains_key t maps
  unfolding contains_key
  contains_key-shift_maps time t maps = elim (Option-cases (get t maps)) [
    | inl miss ↦ ground (arith, get-shift_maps time t maps)
    | inr (m, hit) ↦ ground (arith, get-shift_maps time t maps)
  ]

  module _ (t : MapTag) (b : Bool) (n : ℕ) where
    remove_found-HasTag :
        (id : UserId) (w : World F) (o : Option (User F))
        → HasTag t b n w
        → HasTag t b n (state (remove_found id w o))
    remove_found-HasTag id w none h = h
    remove_found-HasTag id w (some u) h = elim (Option-cases (get (tag_of_user w u) w.maps)) [
      | inl miss ↦ rw miss h
      | inr (m, hit) ↦ rw hit (contains_key-modify t _ _ w.maps ∙ h.0, h.1)
    ]

    remove_logged_in-HasTag :
        (w : World F) (o : Option UserId)
        → HasTag t b n w
        → HasTag t b n (state (remove_logged_in w o))
    unfolding remove_user
    remove_logged_in-HasTag w none h = h
    remove_logged_in-HasTag w (some id) h = remove_found-HasTag id w (get id w.users) h

    turn-HasTag :
        (id : UserId) (v : Velocity F) (w : World F) (o : Option (User F))
        → HasTag t b n w
        → HasTag t b n (turn id v w o)
    turn-HasTag id v w none h = h
    turn-HasTag id v w (some u) h = (contains_key-modify t _ _ w.maps ∙ h.0, h.1)

    pay_found-HasTag :
        (checked : Bool) (money : ℕ) (w : World F) (u : User F) (o : Option (User F))
        → HasTag t b n w
        → HasTag t b n (state (pay_found checked money w u o))
    pay_found-HasTag checked money w u none h = h
    pay_found-HasTag checked money w u (some held) h =
        let after : HasTag t b n (paid money w u) = (contains_key-modify t _ _ w.maps ∙ h.0, h.1) in
        ground arith

    pay_all-HasTag :
        (checked : Bool) (money : ℕ) (us : List (User F)) (w : World F)
        → HasTag t b n w
        → HasTag t b n (state (pay_all checked money us w))
    unfolding pay_all pay
    pay_all-HasTag checked money [] w h = h
    pay_all-HasTag checked money (u ∷ us) w h =
        bind_keeps (HasTag t b n) (pay checked money w u) (pay_all checked money us)
          (elim (Option-cases (get (tag_of_user w u) w.maps)) [
            | inl miss ↦ rw miss h
            | inr (m, hit) ↦ rw hit (pay_found-HasTag checked money w u (get u.id m.scenes.users) h)
          ])
          (pay_all-HasTag checked money us)

    aoe_from-HasTag :
        (checked : Bool) (id : UserId) (radius : F) (money : ℕ) (w : World F) (o : Option (User F))
        → HasTag t b n w
        → HasTag t b n (state (aoe_from checked id radius money w o))
    aoe_from-HasTag checked id radius money w none h = h
    aoe_from-HasTag checked id radius money w (some caller) h = pay_all-HasTag checked money _ w h

    aoe-HasTag :
        (checked : Bool) (id : UserId) (radius : F) (money : ℕ) (w : World F)
        → HasTag t b n w
        → HasTag t b n (state (aoe checked id radius money w))
    unfolding aoe
    aoe-HasTag checked id radius money w h =
        let after = aoe_from-HasTag checked id radius money w (get id w.users) h in ground arith

    change_maps-HasTag :
        (cs : List (ChangeMap F)) (w : World F)
        → HasTag t b n w
        → HasTag t b n (state (change_maps cs w))
    unfolding change_maps change_map
    change_maps-HasTag [] w h = h
    change_maps-HasTag (c ∷ cs) w h =
        bind_keeps (HasTag t b n) (change_map c w) (change_maps cs)
          (elim (Option-cases (get c.old_maptag w.maps)) [
            | inl miss ↦ rw miss h
            | inr (m, hit) ↦
                rw hit (contains_key-modify t _ _ _ ∙ contains_key-modify t _ _ w.maps ∙ h.0, h.1)
          ])
          (change_maps-HasTag cs)

    sync_entries-HasTag :
        (entries : HashMap Text (HashMap UserId (User F))) (w : World F)
        → HasTag t b n w
        → HasTag t b n (state (sync_entries entries w))
    unfolding sync_entries sync_entry
    sync_entries-HasTag [] w h = h
    sync_entries-HasTag ((k, us) ∷ rest) w h =
        bind_keeps (HasTag t b n) (sync_entry k us w) (sync_entries rest)
          (elim (Option-cases (from_string k)) [
            | inl miss ↦ rw miss h
            | inr (s, hit) ↦ rw hit (contains_key-modify t _ _ w.maps ∙ h.0, h.1)
          ])
          (sync_entries-HasTag rest)

    -- No operation of a world makes or takes away a map, or changes the side of the maps.
    pub HasTag-IsInvariant : IsInvariant (HasTag t b n)
    unfolding add_user remove_user_by_client_id remove_user set_velocity update update_state_info
        sync_from_master
    HasTag-IsInvariant = record {
      clients = λ w m h. h;
      count = λ w c h. h;
      add = λ u w h. (contains_key-modify t _ _ w.maps ∙ h.0, h.1);
      remove = λ id w h. remove_found-HasTag id w (get id w.users) h;
      leave = λ c w h. remove_logged_in-HasTag (record w { client_map = _ }) (get c w.client_map) h;
      turn = λ id v w h. turn-HasTag id v w (get id w.users) h;
      pay = aoe-HasTag;
      tick = λ w h.
          bind_keeps (HasTag t b n)
            (change_maps _ (record w { maps = shift_maps w.tick_time w.maps }))
            (λ v. done (refreshed v))
            (change_maps-HasTag _ (record w { maps = shift_maps w.tick_time w.maps })
              (contains_key-shift_maps w.tick_time t w.maps ∙ h.0, h.1))
            (λ v p. p);
      sync = λ dto w filed h.
          bind_keeps (HasTag t b n) (sync_entries dto.data_of_maps w)
            (λ v. done (update_state_info v)) (sync_entries-HasTag dto.data_of_maps w h) (λ v p. p);
    }
