-- ===== src/Registry/Tasks.antt =====
-- zmq_handler.rs: a registration with its locks taken one by one, between which other tasks run.
pub mod Race
pub mod Tests
use rust_distributed_gameser.Prelude.{
  ◌≡◌, refl, Option, none, some, Option-cases, inl, inr, state, arith,
}
use rust_distributed_gameser.Prelude.Int.{ℤ}
use rust_distributed_gameser.Prelude.Text.{Text, codes}
use rust_distributed_gameser.Float.{Float}
use rust_distributed_gameser.HashMap.{get}
use rust_distributed_gameser.HashMap.Keys.{text_key}
use rust_distributed_gameser.Common.Node.{NodeInfo, NodeType, StateInfo}
use rust_distributed_gameser.Common.Message.{
  Json, Message, RegisterResp, register_fail, PeerIdentity,
}
use rust_distributed_gameser.Registry.State.{AppContext}
use rust_distributed_gameser.Registry.Handle.{
  send_resp, enroll, register, register_unless, register_content, register_node,
}

-- Where a registration stands: before the test of the known master, before the write of the known
-- master, before the inserts, or at its end, which a panic is too.
pub data Task : Type 0 where
  checking naming enrolling : PeerIdentity → Text → NodeInfo → Task
  ended : Task

-- The reading of the content, which takes no lock.
abbrev pub read_node : PeerIdentity → Text → Option NodeInfo → Task
read_node peer_id client_id none = Task.ended
read_node peer_id client_id (some n) = Task.checking peer_id client_id n

module _ ⦃jn : Json NodeInfo⦄ where
  abbrev pub read_content : PeerIdentity → Text → Option Text → Task
  read_content peer_id client_id none = Task.ended
  read_content peer_id client_id (some content) = read_node peer_id client_id (jn.from_json content)

module _ {F : Type 0} ⦃fl : Float F⦄ ⦃jm : Json Message⦄ ⦃jn : Json NodeInfo⦄
    ⦃js : Json (StateInfo F)⦄ ⦃jr : Json RegisterResp⦄ where
  abbrev pub begin_unless :
      PeerIdentity → Message → Option NodeInfo → AppContext F → AppContext F × Task
  begin_unless peer_id msg (some n) ctx =
      (send_resp (register_fail (codes "already register")) peer_id ctx, Task.ended)
  begin_unless peer_id msg none ctx = (ctx, read_content peer_id msg.client_id msg.content)

  -- Up to the first lock.
  unfoldable pub begin : PeerIdentity → Message → AppContext F → AppContext F × Task
  begin peer_id msg ctx = begin_unless peer_id msg (get msg.client_id ctx.node_list) ctx

  abbrev pub check_master :
      PeerIdentity
      → Text
      → NodeInfo
      → NodeType
      → Option NodeInfo
      → AppContext F
      → AppContext F × Task
  check_master peer_id client_id n NodeType.master (some m) ctx =
      (send_resp (register_fail (codes "only one master node can exist")) peer_id ctx, Task.ended)
  check_master peer_id client_id n NodeType.master none ctx = (ctx, Task.naming peer_id client_id n)
  check_master peer_id client_id n NodeType.slave none ctx = (
    send_resp (register_fail (codes "master node not exist,can't register slave")) peer_id ctx,
    Task.ended,
  )
  check_master peer_id client_id n NodeType.slave (some m) ctx =
      (ctx, Task.enrolling peer_id client_id n)

  -- Up to the next lock.
  unfoldable pub advance : ℤ → Task → AppContext F → AppContext F × Task
  unfolding enroll
  advance now (Task.checking peer_id client_id n) ctx =
      check_master peer_id client_id n n.node_type ctx.master_node ctx
  advance now (Task.naming peer_id client_id n) ctx =
      (record ctx { master_node = some n }, Task.enrolling peer_id client_id n)
  advance now (Task.enrolling peer_id client_id n) ctx =
      (enroll now peer_id client_id n ctx, Task.ended)
  advance now Task.ended ctx = (ctx, Task.ended)

  abbrev pub advanced : ℤ → AppContext F × Task → AppContext F × Task
  advanced now (ctx, t) = advance now t ctx

  advanced-check_master :
      (now : ℤ) (peer : PeerIdentity) (c : Text) (n : NodeInfo) (ty : NodeType)
      (m : Option NodeInfo) (ctx : AppContext F)
      → advanced now (advanced now (check_master peer c n ty m ctx))
        ≡ (register_node now peer c n ty m ctx, Task.ended)
  unfolding advance
  advanced-check_master now peer c n NodeType.master (some m) ctx = refl
  advanced-check_master now peer c n NodeType.master none ctx = refl
  advanced-check_master now peer c n NodeType.slave (some m) ctx = refl
  advanced-check_master now peer c n NodeType.slave none ctx = refl

  advanced-read_node :
      (now : ℤ) (peer : PeerIdentity) (c : Text) (content : Option Text) (ctx : AppContext F)
      → advanced now (advanced now (advanced now (ctx, read_content peer c content)))
        ≡ (state (register_content now peer c content ctx), Task.ended)
  unfolding advance
  advanced-read_node now peer c none ctx = refl
  advanced-read_node now peer c (some t) ctx = elim (Option-cases (jn.from_json t)) [
    | inl bad ↦ rw bad refl
    | inr (n, good) ↦ rw good (advanced-check_master now peer c n n.node_type ctx.master_node ctx)
  ]

  begin_unless-register :
      (now : ℤ) (peer : PeerIdentity) (msg : Message) (o : Option NodeInfo) (ctx : AppContext F)
      → advanced now (advanced now (advanced now (begin_unless peer msg o ctx)))
        ≡ (state (register_unless now peer msg o ctx), Task.ended)
  unfolding advance
  begin_unless-register now peer msg (some n) ctx = refl
  begin_unless-register now peer msg none ctx =
      advanced-read_node now peer msg.client_id msg.content ctx

  -- Without another task in between, a registration that takes its locks one by one ends and leaves
  -- what `register` leaves.
  pub begin-register :
      (now : ℤ) (peer : PeerIdentity) (msg : Message) (ctx : AppContext F)
      → advanced now (advanced now (advanced now (begin peer msg ctx)))
        ≡ (state (register now peer msg ctx), Task.ended)
  unfolding begin register
  begin-register now peer msg ctx =
      begin_unless-register now peer msg (get msg.client_id ctx.node_list) ctx
