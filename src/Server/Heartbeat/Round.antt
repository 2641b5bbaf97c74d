-- ===== src/Server/Heartbeat/Round.antt =====
-- What a round of a server's monitor leaves.
use rust_distributed_gameser.Prelude.{
  ◌≡◌, ◌∙◌, refl, sym, ap, true, false, Bool-cases, some, inl, inr, arith, List, [], ◌∷◌, In, here,
  there, length, Outcome, done, panicked, state, bind_keeps, if◌then◌else◌, ◌%◌, ◌^◌, ◌↔◌,
}
use rust_distributed_gameser.Prelude.Int.{ℤ}
use rust_distributed_gameser.Prelude.Text.{Text}
use rust_distributed_gameser.Float.{Float}
use rust_distributed_gameser.HashMap.{HashMap, get, IsDistinct}
use rust_distributed_gameser.HashMap.Keys.{text_key}
use rust_distributed_gameser.HashMap.Sweep.{
  remove_all, get-remove_all, get-remove_all_hit, get-remove_all_miss,
}
use rust_distributed_gameser.HashMap.Entries.{In-get, get-In}
use rust_distributed_gameser.Common.Message.{Json, Message}
use rust_distributed_gameser.Server.State.{Server}
use rust_distributed_gameser.Server.Heartbeat.{
  is_offline, offline_clients, Monitored, remove_offline_client, check_clients, finish_round,
  heartbeat_monitor,
}

pub In-offline_clients :
    (hb : ℤ) (now : Text → ℤ) (times : HashMap Text ℤ) (c : Text) (t : ℤ)
    → In (c, t) times
    → is_offline hb (now c) t ≡ true
    → In c (offline_clients hb now times)
unfolding offline_clients
In-offline_clients hb now [] c t i e = elim i [ ]
In-offline_clients hb now ((d, u) ∷ times) c t (here p) e =
    let off : is_offline hb (now d) u ≡ true = ap (λ z. is_offline hb (now z.0) z.1) (sym p) ∙ e in
    rw off (here (ap (λ z. z.0) p))
In-offline_clients hb now ((d, u) ∷ times) c t (there i) e =
    elim (Bool-cases (is_offline hb (now d) u)) [
      | inl h ↦ rw h (there (In-offline_clients hb now times c t i e))
      | inr h ↦ rw h (In-offline_clients hb now times c t i e)
    ]

offline_clients-In :
    (hb : ℤ) (now : Text → ℤ) (times : HashMap Text ℤ) (c : Text)
    → In c (offline_clients hb now times)
    → (t : ℤ) × In (c, t) times × (is_offline hb (now c) t ≡ true)
unfolding offline_clients
offline_clients-In hb now [] c i = elim i [ ]
offline_clients-In hb now ((d, u) ∷ times) c i = elim (Bool-cases (is_offline hb (now d) u)) [
  | inl h ↦
      (let i' : In c (d ∷ offline_clients hb now times) = rw h at i in
        elim i' [
          | here p ↦ (u, here (ap (λ z. (z, u)) p), ap (λ z. is_offline hb (now z) u) p ∙ h)
          | there k ↦ (let (t, a, b) = offline_clients-In hb now times c k in (t, there a, b))
        ])
  | inr h ↦
      (let i' : In c (offline_clients hb now times) = rw h at i in
        let (t, a, b) = offline_clients-In hb now times c i' in (t, there a, b))
]

-- A client is left without a last heartbeat exactly when it had none or had one long ago.
pub get-swept :
    (hb : ℤ) (now : Text → ℤ) (times : HashMap Text ℤ) (c : Text) (t : ℤ)
    → IsDistinct times
    → (get c (remove_all (offline_clients hb now times) times) ≡ some t)
      ↔ ((get c times ≡ some t) × (is_offline hb (now c) t ≡ false))
get-swept hb now times c t distinct = (
  λ e. elim (get-remove_all (offline_clients hb now times) times c) [
    | inl gone ↦ absurd (ground arith)
    | inr same ↦
        (let was : get c times ≡ some t = sym same ∙ e in
          (
            was,
            elim (Bool-cases (is_offline hb (now c) t)) [
              | inl off ↦ absurd (
                  ground (
                    arith,
                    get-remove_all_hit (offline_clients hb now times) times c
                        (In-offline_clients hb now times c t (In-get c t times was) off),
                  ))
              | inr on ↦ on
            ],
          ))
  ],
  λ (was, on).
      get-remove_all_miss (offline_clients hb now times) times c (λ i.
        let (u, j, off) = offline_clients-In hb now times c i in
        let same : u ≡ t = ground (arith, get-In c u times distinct j) in
        let off' : is_offline hb (now c) t ≡ true = ap (is_offline hb (now c)) (sym same) ∙ off in
        ground arith)
      ∙ was,
)

module _ {F : Type 0} ⦃fl : Float F⦄ ⦃jm : Json Message⦄ where
  -- What every removal of an offline client keeps, the whole loop keeps.
  pub check_clients_keeps :
      (P : Server F → Type 0) (hb : ℤ) (now : Text → ℤ) (times : HashMap Text ℤ)
      → ((c : Text) (t : ℤ) (s : Server F)
          → In (c, t) times
          → is_offline hb (now c) t ≡ true
          → P s
          → P (state (remove_offline_client c s)))
      → (s : Server F) → P s
      → P (state (check_clients hb now times s))
  unfolding check_clients
  check_clients_keeps P hb now [] keeps s p = p
  check_clients_keeps P hb now ((c, t) ∷ times) keeps s p =
      bind_keeps P (if is_offline hb (now c) t then remove_offline_client c s else done s)
        (check_clients hb now times)
        (elim (Bool-cases (is_offline hb (now c) t)) [
          | inl h ↦ rw h (keeps c t s (here refl) h p)
          | inr h ↦ rw h p
        ])
        (check_clients_keeps P hb now times (λ d u r i. keeps d u r (there i)))

  finish_round-last_time :
      (h : Monitored F) (ks : List Text) (o : Outcome (Server F)) (h' : Monitored F)
      → finish_round h ks o ≡ done h'
      → (h'.last_time ≡ remove_all ks h.last_time)
        × (h'.server.world.connection_count ≡ length h'.last_time % 2 ^ 32)
  finish_round-last_time h ks (done s) h' e = ground arith
  finish_round-last_time h ks (panicked s) h' e = absurd (ground arith)

  -- A round that ends has taken away exactly the last heartbeats that were too old, and its count of
  -- connections is the number of those that are left, as a u32.
  pub round_sweeps :
      (hb : ℤ) (now : Text → ℤ) (h h' : Monitored F) (c : Text) (t : ℤ)
      → IsDistinct h.last_time
      → heartbeat_monitor hb now h ≡ done h'
      → ((get c h'.last_time ≡ some t)
          ↔ ((get c h.last_time ≡ some t) × (is_offline hb (now c) t ≡ false)))
        × (h'.server.world.connection_count ≡ length h'.last_time % 2 ^ 32)
  unfolding heartbeat_monitor
  round_sweeps hb now h h' c t d e =
      let (left, count) =
        finish_round-last_time h (offline_clients hb now h.last_time)
          (check_clients hb now h.last_time h.server) h' e in
      (rw left (get-swept hb now h.last_time c t d), count)
