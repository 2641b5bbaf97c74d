-- ===== src/Registry/Peers.antt =====
-- The registry centre knows the peer of every node: what its operations keep of that.
use rust_distributed_gameser.Prelude.{
  ◌≡◌, ◌≢◌, ◌∙◌, refl, sym, ap, Option, none, some, Option-cases, inl, inr, arith, state,
}
use rust_distributed_gameser.Prelude.Int.{ℤ}
use rust_distributed_gameser.Prelude.Text.{Text, Text_discrete}
use rust_distributed_gameser.Float.{Float}
use rust_distributed_gameser.HashMap.{get}
use rust_distributed_gameser.HashMap.Keys.{text_key}
use rust_distributed_gameser.HashMap.Laws.{get-insert}
use rust_distributed_gameser.HashMap.Sweep.{remove_all, get-remove_all}
use rust_distributed_gameser.Common.Node.{NodeInfo, get_key, StateInfo}
use rust_distributed_gameser.Common.Message.{Json, Message, Operation, PeerIdentity, RegisterResp}
use rust_distributed_gameser.Registry.State.{AppContext}
use rust_distributed_gameser.Registry.Valid.{IsValid, HasPeers}
use rust_distributed_gameser.Registry.Handle.{enroll, report, new_master, converted, handle}
use rust_distributed_gameser.Registry.Monitor.{del_list, heartbeat_monitor}
use rust_distributed_gameser.Registry.Monitor.Laws.{round}
use rust_distributed_gameser.Registry.Main.{first_context}

module _ {F : Type 0} where
  -- A report of a conversion names a node whose peer is known.
  abbrev pub IsEnrolled : ⦃jn : Json NodeInfo⦄ → Message → AppContext F → Type 0
  IsEnrolled ⦃jn⦄ msg ctx =
      (c : Text) (n : NodeInfo)
      → msg.content ≡ some c
      → jn.from_json c ≡ some n
      → (peer : PeerIdentity) × (get (get_key n) ctx.node_id_peer_id_map ≡ some peer)

  pub first_context-IsValid : IsValid (first_context {F = F})
  unfolding first_context get
  first_context-IsValid = record {
    keyed = λ k n e. absurd (ground arith);
    one_master = λ k n e t. absurd (ground arith);
  }

pub first_context-HasPeers : (F : Type 0) → HasPeers (first_context {F = F})
unfolding first_context get
first_context-HasPeers F k n e = absurd (ground arith)

module _ {F : Type 0} ⦃fl : Float F⦄ ⦃jm : Json Message⦄ ⦃jn : Json NodeInfo⦄
    ⦃js : Json (StateInfo F)⦄ ⦃jr : Json RegisterResp⦄ where
  pub enroll-HasPeers :
      (now : ℤ) (peer : PeerIdentity) (key : Text) (n : NodeInfo) (ctx : AppContext F)
      → HasPeers ctx
      → HasPeers (enroll now peer key n ctx)
  unfolding enroll
  enroll-HasPeers now peer key n ctx v k m e = elim (Text_discrete key k) [
    | yes p ↦ (peer, ground (arith, get-insert k key peer ctx.node_id_peer_id_map))
    | no d ↦
        (let (q, hit) = v k m (ground (arith, get-insert k key n ctx.node_list)) in
          (q, ground (arith, get-insert k key peer ctx.node_id_peer_id_map)))
  ]

  report-HasPeers :
      (now : ℤ) (k : Text) (content : Option Text) (ctx : AppContext F)
      → HasPeers ctx
      → HasPeers (state (report now k content ctx))
  unfolding report
  report-HasPeers now k none ctx v = v
  report-HasPeers now k (some c) ctx v = elim (Option-cases (js.from_json c)) [
    | inl bad ↦ rw bad v
    | inr (info, good) ↦ rw good v
  ]

  new_master-HasPeers :
      (n : NodeInfo) (ctx : AppContext F)
      → (peer : PeerIdentity) × (get (get_key n) ctx.node_id_peer_id_map ≡ some peer)
      → HasPeers ctx
      → HasPeers (new_master n ctx)
  new_master-HasPeers n ctx (peer, hit) v k m e = elim (Text_discrete (get_key n) k) [
    | yes p ↦ (peer, rw (← p) hit)
    | no d ↦ v k m (ground (arith, get-insert k (get_key n) n ctx.node_list))
  ]

  converted-HasPeers :
      (msg : Message) (content : Option Text) (ctx : AppContext F)
      → msg.content ≡ content
      → IsEnrolled msg ctx
      → HasPeers ctx
      → HasPeers (state (converted content ctx))
  unfolding converted
  converted-HasPeers msg none ctx e known v = v
  converted-HasPeers msg (some c) ctx e known v = elim (Option-cases (jn.from_json c)) [
    | inl bad ↦ rw bad v
    | inr (n, good) ↦ rw good (new_master-HasPeers n ctx (known c n e good) v)
  ]

  -- Any message but a registration.
  pub handle-HasPeers :
      (now : ℤ) (peer : PeerIdentity) (msg : Message) (op : Operation) (ctx : AppContext F)
      → op ≢ Operation.register
      → (op ≡ Operation.convert_to_master_resp → IsEnrolled msg ctx)
      → HasPeers ctx
      → HasPeers (state (handle now peer msg op ctx))
  handle-HasPeers now peer msg Operation.register ctx ne known v = absurd (ne refl)
  handle-HasPeers now peer msg Operation.report ctx ne known v =
      report-HasPeers now msg.client_id msg.content ctx v
  handle-HasPeers now peer msg Operation.convert_to_master_resp ctx ne known v =
      converted-HasPeers msg msg.content ctx refl (known refl) v
  handle-HasPeers now peer msg _ ctx ne known v = v

  pub heartbeat_monitor-HasPeers :
      (now : Text → ℤ) (ctx : AppContext F)
      → HasPeers ctx
      → HasPeers (state (heartbeat_monitor now ctx))
  heartbeat_monitor-HasPeers now ctx v k n e =
      let r = round now ctx in
      let e' : get k (remove_all (del_list now ctx.node_state) ctx.node_list) ≡ some n =
        ap (get k) (sym r.0) ∙ e in
      let (peer, hit) =
        v k n (ground (arith, get-remove_all (del_list now ctx.node_state) ctx.node_list k)) in
      (peer, ap (get k) r.3 ∙ hit)
