-- ===== src/Registry/Main.antt =====
-- main.rs of the registry centre: its first context and what it does with a message of its socket;
-- route.rs: the HTTP routes.
use rust_distributed_gameser.Prelude.{none, [], ◌∷◌, Outcome, panicked, unwrap}
use rust_distributed_gameser.Prelude.Int.{ℤ}
use rust_distributed_gameser.Float.{Float}
use rust_distributed_gameser.Common.Node.{NodeInfo, StateInfo}
use rust_distributed_gameser.Common.Message.{Json, Message, RegisterResp, ZmqMessage}
use rust_distributed_gameser.Registry.State.{AppContext}
use rust_distributed_gameser.Registry.Handle.{handle_msg_task}

-- The context of `main`.
unfoldable pub first_context : {F : Type 0} → AppContext F
first_context = record {
  node_list = [];
  node_state = [];
  master_node = none;
  sent = [];
  node_id_peer_id_map = [];
}

module _ {F : Type 0} ⦃fl : Float F⦄ ⦃jm : Json Message⦄ ⦃jn : Json NodeInfo⦄
    ⦃js : Json (StateInfo F)⦄ ⦃jr : Json RegisterResp⦄ where
  -- The frames are the peer, a separator and the text of the message; fewer than three panic, and a
  -- panic before the task ends the thread.
  unfoldable pub rep_recv_and_send_thread : ℤ → ZmqMessage → AppContext F → Outcome (AppContext F)
  rep_recv_and_send_thread now (peer_id ∷ separator ∷ receive ∷ frames) ctx =
      unwrap ctx (jm.from_json receive) (λ receive_msg. handle_msg_task now peer_id receive_msg ctx)
  rep_recv_and_send_thread now _ ctx = panicked ctx
