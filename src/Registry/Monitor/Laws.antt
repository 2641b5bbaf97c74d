-- ===== src/Registry/Monitor/Laws.antt =====
-- What a round of the monitor leaves.
use rust_distributed_gameser.Prelude.{
  ◌≡◌, ◌∙◌, refl, sym, ap, true, Bool-cases, Option, none, some, Option-cases, inl, inr, arith,
  List, [], ◌∷◌, In, here, there, state, bind_keeps, if◌then◌else◌,
}
use rust_distributed_gameser.Prelude.Int.{ℤ}
use rust_distributed_gameser.Prelude.Text.{Text, Text_discrete}
use rust_distributed_gameser.Float.{Float}
use rust_distributed_gameser.HashMap.{HashMap, get, remove, keys, IsDistinct}
use rust_distributed_gameser.HashMap.Keys.{text_key}
use rust_distributed_gameser.HashMap.Sweep.{
  remove_all, get-remove_all, get-remove_all_hit, get-remove_all_miss,
}
use rust_distributed_gameser.HashMap.Entries.{In-get, get-In}
use rust_distributed_gameser.Common.Node.{NodeInfo, get_key}
use rust_distributed_gameser.Common.Message.{Json, Message}
use rust_distributed_gameser.Common.Message.Build
use rust_distributed_gameser.Registry.State.{NodeState, AppContext}
use rust_distributed_gameser.Registry.Valid.{IsValid}
use rust_distributed_gameser.Registry.Balance.{get_min_load_node}
use rust_distributed_gameser.Registry.Monitor.{
  is_stale, del_list, need_elect_master, send_to, send_change_master, elect_from, elect_master,
  swept, heartbeat_monitor,
}

module _ {F : Type 0} where
  pub In-del_list :
      (now : Text → ℤ) (states : HashMap Text (NodeState F)) (k : Text) (s : NodeState F)
      → In (k, s) states
      → is_stale (now k) s ≡ true
      → In k (del_list now states)
  unfolding del_list
  In-del_list now [] k s i h = elim i [ ]
  In-del_list now ((j, q) ∷ states) k s (here e) h =
      let key : k ≡ j = ap (λ z. z.0) e in
      let stale : is_stale (now j) q ≡ true = sym (ap (λ z. is_stale (now z.0) z.1) e) ∙ h in
      rw stale (here key)
  In-del_list now ((j, q) ∷ states) k s (there i) h =
      let rest = In-del_list now states k s i h in
      elim (Bool-cases (is_stale (now j) q)) [
        | inl stale ↦ rw stale (there rest)
        | inr fresh ↦ rw fresh rest
      ]

  del_list-In :
      (now : Text → ℤ) (states : HashMap Text (NodeState F)) (k : Text)
      → In k (del_list now states)
      → (s : NodeState F) × In (k, s) states × (is_stale (now k) s ≡ true)
  unfolding del_list
  del_list-In now [] k i = elim i [ ]
  del_list-In now ((j, q) ∷ states) k i = elim (Bool-cases (is_stale (now j) q)) [
    | inr fresh ↦
        (let i' : In k (del_list now states) = rw fresh at i in
          let (s, l, h) = del_list-In now states k i' in (s, there l, h))
    | inl stale ↦
        (let i' : In k (j ∷ del_list now states) = rw stale at i in
          elim i' [
            | here e ↦ (q, here (ap (λ z. (z, q)) e), rw e stale)
            | there r ↦ (let (s, l, h) = del_list-In now states k r in (s, there l, h))
          ])
  ]

pub need_elect_of :
    (m : NodeInfo) (ks : List Text) → In (get_key m) ks → need_elect_master (some m) ks ≡ true
unfolding need_elect_master
need_elect_of m [] i = elim i [ ]
need_elect_of m (k ∷ ks) (here e) = ground arith
need_elect_of m (k ∷ ks) (there i) = ground (arith, need_elect_of m ks i)

need_elect-In :
    (m : NodeInfo) (ks : List Text) → need_elect_master (some m) ks ≡ true → In (get_key m) ks
unfolding need_elect_master
need_elect-In m [] h = absurd (ground arith)
need_elect-In m (k ∷ ks) h = elim (Text_discrete (get_key m) k) [
  | yes p ↦ here p
  | no n ↦ there (need_elect-In m ks (ground arith))
]

module _ {F : Type 0} ⦃fl : Float F⦄ ⦃jm : Json Message⦄ ⦃jn : Json NodeInfo⦄ where
  -- Sending changes neither the nodes nor the master.
  abbrev pub SameNodes : AppContext F → AppContext F → Type 0
  SameNodes ctx ctx' =
      (ctx'.node_list ≡ ctx.node_list)
      × (ctx'.node_state ≡ ctx.node_state)
      × (ctx'.master_node ≡ ctx.master_node)
      × (ctx'.node_id_peer_id_map ≡ ctx.node_id_peer_id_map)

  send_to-SameNodes :
      (key : Text) (msg : Message) (start ctx : AppContext F)
      → SameNodes start ctx
      → SameNodes start (state (send_to key msg ctx))
  unfolding send_to
  send_to-SameNodes key msg start ctx v = elim (Option-cases (get key ctx.node_id_peer_id_map)) [
    | inl miss ↦ rw miss v
    | inr (p, hit) ↦ rw hit v
  ]

  send_change_master-SameNodes :
      (master : Text) (n : NodeInfo) (ks : List Text) (start ctx : AppContext F)
      → SameNodes start ctx
      → SameNodes start (state (send_change_master master n ks ctx))
  unfolding send_change_master
  send_change_master-SameNodes master n [] start ctx v = v
  send_change_master-SameNodes master n (k ∷ ks) start ctx v =
      bind_keeps (SameNodes start) (send_to k (Build.change_master master n) ctx) _
        (send_to-SameNodes k (Build.change_master master n) start ctx v)
        (send_change_master-SameNodes master n ks start)

  elect_from-SameNodes :
      (o : Option (Option NodeInfo)) (ctx : AppContext F) → SameNodes ctx (state (elect_from o ctx))
  elect_from-SameNodes none ctx = (refl, refl, refl, refl)
  elect_from-SameNodes (some none) ctx = (refl, refl, refl, refl)
  elect_from-SameNodes (some (some n)) ctx =
      bind_keeps (SameNodes ctx) (send_to (get_key n) (Build.convert_to_master (get_key n)) ctx) _
        (send_to-SameNodes (get_key n) (Build.convert_to_master (get_key n)) ctx ctx
          (refl, refl, refl, refl))
        (send_change_master-SameNodes (get_key n) n (keys (remove (get_key n) ctx.node_list)) ctx)

  -- A round leaves the nodes of the sweep, and their master unless it was swept.
  pub round :
      (now : Text → ℤ) (ctx : AppContext F)
      → let after = state (heartbeat_monitor now ctx) in
        (after.node_list ≡ (swept now ctx).node_list)
        × (after.node_state ≡ (swept now ctx).node_state)
        × (after.master_node ≡ (
            if need_elect_master ctx.master_node (del_list now ctx.node_state)
            then none
            else ctx.master_node))
        × (after.node_id_peer_id_map ≡ ctx.node_id_peer_id_map)
  unfolding heartbeat_monitor elect_master
  round now ctx =
      let vacant = record (swept now ctx) { master_node = none } in
      elim (Bool-cases (need_elect_master ctx.master_node (del_list now ctx.node_state))) [
        | inl h ↦
            rw h
              (elect_from-SameNodes (get_min_load_node vacant.node_state vacant.node_list) vacant)
        | inr h ↦ rw h (refl, refl, refl, refl)
      ]

  -- Let no node have two states. In a round of the monitor, a panic in the election included, a node
  -- with a state is struck from the states and from the list if it is stale, and stands in both as
  -- before if it is not.
  pub heartbeat_monitor_sweeps :
      (now : Text → ℤ) (ctx : AppContext F) (k : Text) (s : NodeState F)
      → IsDistinct ctx.node_state
      → get k ctx.node_state ≡ some s
      → let after = state (heartbeat_monitor now ctx) in
        (get k after.node_state ≡ (if is_stale (now k) s then none else some s))
        × (get k after.node_list ≡ (if is_stale (now k) s then none else get k ctx.node_list))
  heartbeat_monitor_sweeps now ctx k s d e =
      let r = round now ctx in
      let ks = del_list now ctx.node_state in
      elim (Bool-cases (is_stale (now k) s)) [
        | inl h ↦
            (let i = In-del_list now ctx.node_state k s (In-get k s ctx.node_state e) h in
              rw h (
                ap (get k) r.1 ∙ get-remove_all_hit ks ctx.node_state k i,
                ap (get k) r.0 ∙ get-remove_all_hit ks ctx.node_list k i,
              ))
        | inr h ↦
            (let out : ¬ (In k ks) = λ i.
                let (q, j, stale) = del_list-In now ctx.node_state k i in
                ground (arith, get-In k q ctx.node_state d j) in
              rw h (
                ap (get k) r.1 ∙ get-remove_all_miss ks ctx.node_state k out ∙ e,
                ap (get k) r.0 ∙ get-remove_all_miss ks ctx.node_list k out,
              ))
      ]

  known_kept :
      (ctx : AppContext F) (ks : List Text) (k : Text) (n : NodeInfo)
      → ctx.master_node ≡ some n
      → k ≡ get_key n
      → ¬ (In k ks)
      → (if need_elect_master ctx.master_node ks then none else ctx.master_node) ≡ some n
  known_kept ctx ks k n known key out = elim (Bool-cases (need_elect_master (some n) ks)) [
    | inl h ↦ absurd (out (rw key (need_elect-In n ks h)))
    | inr h ↦ rw (known, h)
  ]

  -- A round of the monitor leaves the registry centre well formed, also where the election panics.
  pub heartbeat_monitor-IsValid :
      (now : Text → ℤ) (ctx : AppContext F)
      → IsValid ctx
      → IsValid (state (heartbeat_monitor now ctx))
  heartbeat_monitor-IsValid now ctx v =
      let r = round now ctx in
      let ks = del_list now ctx.node_state in
      let old : (k : Text) (n : NodeInfo)
          → get k (state (heartbeat_monitor now ctx)).node_list ≡ some n
          → (get k ctx.node_list ≡ some n) × ¬ (In k ks) =
        λ k n e.
          let e' : get k (remove_all ks ctx.node_list) ≡ some n = ap (get k) (sym r.0) ∙ e in
          (
            ground (arith, get-remove_all ks ctx.node_list k),
            λ i. ground (arith, get-remove_all_hit ks ctx.node_list k i),
          ) in
      record {
        keyed = λ k n e. v.keyed k n (old k n e).0;
        one_master = λ k n e t.
            let known = v.one_master k n (old k n e).0 t in
            let key = v.keyed k n (old k n e).0 in
            r.2 ∙ known_kept ctx ks k n known key (old k n e).1;
      }
