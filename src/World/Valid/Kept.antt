-- ===== src/World/Valid/Kept.antt =====
-- Every operation keeps the world well formed.
use rust_distributed_gameser.Prelude.{
  ◌≡◌, refl, Option-cases, inl, inr, [], ◌∷◌, there, here, Outcome, done, state, bind_keeps, ℕ,
}
use rust_distributed_gameser.Prelude.Text.{Text}
use rust_distributed_gameser.Float.{Float}
use rust_distributed_gameser.HashMap.{HashMap}
use rust_distributed_gameser.HashMap.Keys.{int_key, text_key}
use rust_distributed_gameser.Common.Basic.{User, UserId}
use rust_distributed_gameser.MapTool.{map_tag_key, from_string}
use rust_distributed_gameser.World.State.{World}
use rust_distributed_gameser.World.Valid.{IsValid}
use rust_distributed_gameser.World.Valid.Modify.{modify-IsFiled}
use rust_distributed_gameser.World.Invariant.{IsInvariant, IsFiledData}
use rust_distributed_gameser.World.Users.{update_state_info}
use rust_distributed_gameser.World.Users.Laws.{
  remap-IsValid, add_user-IsValid, remove_user-IsValid, remove_user_by_client_id-IsValid,
  set_velocity-IsValid,
}
use rust_distributed_gameser.World.Aoe.Exact.{aoe-IsValid}
use rust_distributed_gameser.World.Update.{update}
use rust_distributed_gameser.World.Update.Valid.{update-IsValid}
use rust_distributed_gameser.World.Sync.{WorldSyncDto, sync_entry, sync_entries, sync_from_master}

module _ {F : Type 0} ⦃fl : Float F⦄ where
  -- What is about the maps alone says nothing of the rest of a world.
  pub same_maps :
      (w w' : World F) → w'.maps ≡ w.maps → w'.area_len ≡ w.area_len → IsValid w → IsValid w'
  same_maps w w' e a v = remap-IsValid w w' v a (rw e v.filed)

  IsHeld : ℕ → World F → Type 0
  IsHeld n w = IsValid w × (w.area_len ≡ n)

  sync_entry-IsHeld :
      (n : ℕ) (key : Text) (users : HashMap UserId (User F)) (w : World F)
      → IsFiledData n ((key, users) ∷ [])
      → IsHeld n w
      → IsHeld n (state (sync_entry key users w))
  unfolding IsHeld sync_entry
  sync_entry-IsHeld n key users w filed (v, a) = elim (Option-cases (from_string key)) [
    | inl miss ↦ rw miss (v, a)
    | inr (t, hit) ↦ rw hit (
      remap-IsValid w _ v refl (
          modify-IsFiled w.area_len w.maps t (λ old. users) v.filed
            (λ m here_m. rw a (filed key users t (here refl) hit))),
      a,
    )
  ]

  sync_entries-IsHeld :
      (n : ℕ) (entries : HashMap Text (HashMap UserId (User F))) (w : World F)
      → IsFiledData n entries
      → IsHeld n w
      → IsHeld n (state (sync_entries entries w))
  unfolding sync_entries
  sync_entries-IsHeld n [] w filed h = h
  sync_entries-IsHeld n ((k, us) ∷ rest) w filed h =
      bind_keeps (IsHeld n) (sync_entry k us w) (sync_entries rest)
        (sync_entry-IsHeld n k us w
          (λ key users t i e. elim i [
            | here p ↦ filed key users t (here p) e
            | there j ↦ elim j [ ]
          ])
          h)
        (λ w' h'.
          sync_entries-IsHeld n rest w' (λ key users t i e. filed key users t (there i) e) h')

  sync_from_master-IsHeld :
      (n : ℕ) (dto : WorldSyncDto F) (w : World F)
      → IsFiledData n dto.data_of_maps
      → IsHeld n w
      → IsHeld n (state (sync_from_master dto w))
  unfolding sync_from_master update_state_info IsHeld
  sync_from_master-IsHeld n dto w filed h =
      bind_keeps (IsHeld n) (sync_entries dto.data_of_maps w) (λ v. done (update_state_info v))
        (sync_entries-IsHeld n dto.data_of_maps w filed h)
        (λ v (p, a). (same_maps v _ refl refl p, a))

  -- A tick, whose outcome is known.
  after_tick :
      (o : Outcome (World F)) → (w' : World F) × (o ≡ done w') × IsValid w' → IsValid (state o)
  after_tick o (w', e, v) = rw e v

  pub IsValid-IsInvariant : IsInvariant (IsValid {F = F})
  unfolding IsHeld
  IsValid-IsInvariant = record {
    clients = λ w m v. same_maps w _ refl refl v;
    count = λ w n v. same_maps w _ refl refl v;
    add = add_user-IsValid;
    remove = remove_user-IsValid;
    leave = remove_user_by_client_id-IsValid;
    turn = set_velocity-IsValid;
    pay = aoe-IsValid;
    tick = λ w v. after_tick (update w) (update-IsValid w v);
    sync = λ dto w filed v. (sync_from_master-IsHeld w.area_len dto w filed (v, refl)).0;
  }
