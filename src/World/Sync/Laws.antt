-- ===== src/World/Sync/Laws.antt =====
-- A slave that takes over what its master sends holds the master's users.
use mathlib.Core.Option
use rust_distributed_gameser.Prelude.{
  ◌≡◌, ◌≢◌, ◌∙◌, refl, ap, sym, Option, none, some, ite, arith, [], ◌∷◌, done,
}
use rust_distributed_gameser.Prelude.Text.{Text, Text_discrete, colon}
use rust_distributed_gameser.Float.{Float}
use rust_distributed_gameser.HashMap.{HashMap, get, insert, modify, IsDistinct}
use rust_distributed_gameser.HashMap.Keys.{int_key, text_key}
use rust_distributed_gameser.HashMap.Laws.{get-insert, get-modify, insert-IsDistinct}
use rust_distributed_gameser.Common.Basic.{User, UserId}
use rust_distributed_gameser.MapTool.{MapTag, MapTag_discrete, map_tag_key, to_string, from_string}
use rust_distributed_gameser.MapTool.RoundTrip.{IsI32, from_string-to_string}
use rust_distributed_gameser.World.State.{World, Map, with_users}
use rust_distributed_gameser.World.Users.{update_state_info}
use rust_distributed_gameser.World.Sync.{
  collect_data, get_world_sync_dto, sync_entry, sync_entries, sync_from_master,
}

-- A tag that its text can carry.
abbrev pub IsSendable : MapTag → Type 0
IsSendable t = (t.field_id ≢ colon) × IsI32 t.x_len × IsI32 t.y_len

pub read_back : (t : MapTag) → IsSendable t → from_string (to_string t) ≡ some t
read_back t (f, x, y) = from_string-to_string t f x y

to_string_injective :
    (s t : MapTag) → IsSendable s → IsSendable t → to_string s ≡ to_string t → s ≡ t
to_string_injective s t a b e =
    let both : some s ≡ some t = sym (read_back s a) ∙ ap from_string e ∙ read_back t b in
    ground arith

module _ {F : Type 0} where
  -- Every key is the text of a tag that its text can carry.
  abbrev AreTags : HashMap Text (HashMap UserId (User F)) → Type 0
  AreTags [] = Unit
  AreTags ((k, us) ∷ rest) = ((t : MapTag) × IsSendable t × (k ≡ to_string t)) × AreTags rest

  abbrev pub AreSendable : HashMap MapTag (Map F) → Type 0
  AreSendable [] = Unit
  AreSendable ((t, m) ∷ maps) = IsSendable t × AreSendable maps

  -- What a slave's map holds after the data is taken over.
  abbrev pub taken_over : Option (HashMap UserId (User F)) → Option (Map F) → Option (Map F)
  taken_over none m = m
  taken_over (some us) m = Option.map (with_users (λ old. us)) m

  sync_entries_takes :
      (entries : HashMap Text (HashMap UserId (User F))) (w : World F)
      → IsDistinct entries
      → AreTags entries
      → (w' : World F) × (sync_entries entries w ≡ done w')
        × ((t : MapTag)
            → IsSendable t
            → get t w'.maps ≡ taken_over (get (to_string t) entries) (get t w.maps))
  unfolding sync_entries sync_entry get
  sync_entries_takes [] w d tags = (w, refl, λ t s. refl)
  sync_entries_takes ((k, us) ∷ rest) w (fresh, d) ((q, sq, e), tags) =
      let w1 = record w { maps = modify q (with_users (λ old. us)) w.maps } in
      let (w', run, takes) = sync_entries_takes rest w1 d tags in
      let read : from_string k ≡ some q = ap from_string e ∙ read_back q sq in
      (
        w',
        rw (read, run),
        λ t st.
            let at = get-modify t q (with_users (λ old. us)) w.maps in
            elim (MapTag_discrete q t) [
              | yes p ↦
                  (let key : k ≡ to_string t = e ∙ ap to_string p in takes t st ∙ ground arith)
              | no n ↦
                  (let key : k ≢ to_string t = λ z. n (to_string_injective q t sq st (sym e ∙ z)) in
                    takes t st ∙ ground arith)
            ],
      )

  -- The users of a map, if there is the map.
  abbrev pub users_in : Option (Map F) → Option (HashMap UserId (User F))
  users_in = Option.map (λ m. m.scenes.users)

  abbrev or_else :
      Option (HashMap UserId (User F))
      → Option (HashMap UserId (User F))
      → Option (HashMap UserId (User F))
  or_else (some us) o = some us
  or_else none o = o

  get-collect_data :
      (maps : HashMap MapTag (Map F)) (acc : HashMap Text (HashMap UserId (User F))) (t : MapTag)
      → IsDistinct maps
      → AreSendable maps
      → IsSendable t
      → get (to_string t) (collect_data maps acc)
        ≡ or_else (users_in (get t maps)) (get (to_string t) acc)
  unfolding collect_data get
  get-collect_data [] acc t d s st = refl
  get-collect_data ((q, m) ∷ maps) acc t (fresh, d) (sq, s) st =
      let at = get-insert (to_string t) (to_string q) m.scenes.users acc in
      let rest = get-collect_data maps (insert (to_string q) m.scenes.users acc) t d s st in
      elim (MapTag_discrete q t) [
        | yes p ↦ (let key : to_string q ≡ to_string t = ap to_string p in rest ∙ ground arith)
        | no n ↦
            (let key : to_string q ≢ to_string t = λ z. n (to_string_injective q t sq st z) in
              rest ∙ ground arith)
      ]

  insert-AreTags :
      (t : MapTag) (us : HashMap UserId (User F)) (entries : HashMap Text (HashMap UserId (User F)))
      → IsSendable t
      → AreTags entries
      → AreTags (insert (to_string t) us entries)
  unfolding insert
  insert-AreTags t us [] s tags = ((t, s, refl), tt)
  insert-AreTags t us ((k, vs) ∷ rest) s (head, tags) =
      elim (Text_discrete k (to_string t))
        as (λ z.
          AreTags (ite z ((to_string t, us) ∷ rest) ((k, vs) ∷ insert (to_string t) us rest))) [
            | yes p ↦ ((t, s, refl), tags)
            | no n ↦ (head, insert-AreTags t us rest s tags)
          ]

  collect_data-AreTags :
      (maps : HashMap MapTag (Map F)) (acc : HashMap Text (HashMap UserId (User F)))
      → AreSendable maps
      → AreTags acc
      → IsDistinct acc
      → AreTags (collect_data maps acc) × IsDistinct (collect_data maps acc)
  unfolding collect_data
  collect_data-AreTags [] acc s tags d = (tags, d)
  collect_data-AreTags ((q, m) ∷ maps) acc (sq, s) tags d =
      collect_data-AreTags maps (insert (to_string q) m.scenes.users acc) s
        (insert-AreTags q m.scenes.users acc sq tags)
        (insert-IsDistinct (to_string q) m.scenes.users acc d)

  -- Let the tags of the master's maps be distinct and such that their text can carry them. Then a
  -- slave takes over what the master sends without a panic: a map of the slave that the master has
  -- too holds the master's users, and a map that the master does not have is as it was.
  pub sync_from_master_takes :
      ⦃fl : Float F⦄ (master slave : World F)
      → IsDistinct master.maps
      → AreSendable master.maps
      → (after : World F) × (sync_from_master (get_world_sync_dto master) slave ≡ done after)
        × ((t : MapTag)
            → IsSendable t
            → get t after.maps ≡ taken_over (users_in (get t master.maps)) (get t slave.maps))
  unfolding sync_from_master get_world_sync_dto update_state_info get
  sync_from_master_takes master slave d s =
      let (tags, di) = collect_data-AreTags master.maps [] s tt tt in
      let (w, run, takes) = sync_entries_takes (collect_data master.maps []) slave di tags in
      (
        update_state_info w,
        rw run refl,
        λ t st. let sent = get-collect_data master.maps [] t d s st in takes t st ∙ ground arith,
      )
