-- ===== src/Common/Message.antt =====
-- crates/common/src/message.rs: the messages of clients, servers and the registry centre. JSON
-- (serde_json) is an interface; a frame of a ZeroMQ message is its text, and so is the identity of
-- a peer.
pub mod Build
use rust_distributed_gameser.Prelude.{Bool, true, false, Option, none, some, List, [], ◌∷◌}
use rust_distributed_gameser.Prelude.Text.{Text}
use rust_distributed_gameser.Common.Basic.{UserId}

-- `serde_json::to_string` and `serde_json::from_str` at a type.
pub record Json {ℓ} (A : Type ℓ) : Type ℓ where
  pub to_json : A → Text
  pub from_json : Text → Option A

module _ {ℓ} {A : Type ℓ} ⦃json : Json A⦄ where
  abbrev pub encode : A → Text
  encode = json.to_json

  abbrev pub decode : Text → Option A
  decode = json.from_json

pub data Operation : Type 0 where
  ping pong login logout aoe set_velocity query reply query_resp register report
        convert_to_master_resp add_user del_user convert_to_master change_master register_resp :
      Operation

pub record Message : Type 0 where
  pub client_id : Text
  pub user_id : Option UserId
  pub operation : Operation
  pub content : Option Text
  pub client_peer_id : Option Text

pub record RegisterResp : Type 0 where
  pub is_success : Bool
  pub reason : Option Text

abbrev pub PeerIdentity : Type 0
PeerIdentity = Text

abbrev pub ZmqMessage : Type 0
ZmqMessage = List Text

abbrev pub register_success : RegisterResp
register_success = record { is_success = true; reason = none }

abbrev pub register_fail : Text → RegisterResp
register_fail reason = record { is_success = false; reason = some reason }

abbrev pub set_peer_id : Text → Message → Message
set_peer_id peer_id msg = record msg { client_peer_id = some peer_id }

abbrev pub set_peer_id_opt : Option Text → Message → Message
set_peer_id_opt peer_id_opt msg = record msg { client_peer_id = peer_id_opt }

module _ ⦃json : Json Message⦄ where
  -- An empty frame and the message.
  unfoldable pub to_zmq_dealer_msg : Message → ZmqMessage
  to_zmq_dealer_msg msg = [] ∷ json.to_json msg ∷ []

  -- The peer and the message.
  unfoldable pub to_router_msg : PeerIdentity → Message → ZmqMessage
  to_router_msg peer_id msg = peer_id ∷ json.to_json msg ∷ []

  unfoldable pub to_rep_msg : Message → ZmqMessage
  to_rep_msg msg = json.to_json msg ∷ []
