-- ===== src/Client.antt =====
-- crates/client/src: the client's side of a login, of the heartbeat and of the choice of a server.
pub mod Login
pub mod Tests
use rust_distributed_gameser.Prelude.{
  ℕ, ◌==◌, Option, none, some, List, [], ◌∷◌, ◌++◌, length, if◌then◌else◌,
}
use rust_distributed_gameser.Prelude.Text.{Text, codes, colon, show_nat, parse_int}
use rust_distributed_gameser.Common.Basic.{User, UserId}
use rust_distributed_gameser.Common.Node.{NodeInfo}
use rust_distributed_gameser.Common.Message.{Json, Message, ZmqMessage, to_zmq_dealer_msg}
use rust_distributed_gameser.Common.Message.Build
use rust_distributed_gameser.Common.Resp.{Resp}

abbrev node_of_body : Option (Resp NodeInfo) → Option (Option NodeInfo)
node_of_body none = none
node_of_body (some resp) = some (if resp.code == 500 then none else some resp.body)

-- On the body of the response; `none` is a panic.
unfoldable pub get_server_connection : ⦃jr : Json (Resp NodeInfo)⦄ → Text → Option (Option NodeInfo)
get_server_connection ⦃jr⦄ body = node_of_body (jr.from_json body)

-- The addresses of the heartbeat and of the main channel of a node.
unfoldable pub server_addresses : NodeInfo → Text × Text
server_addresses n = (
  codes "tcp://" ++ (n.node_addr ++ colon ∷ show_nat n.heartbeat_port),
  codes "tcp://" ++ (n.node_addr ++ colon ∷ show_nat n.main_channel_port),
)

-- Where `connect_to_server_distributed` connects to; `none` is a panic.
unfoldable pub connect_to_server_distributed : Option NodeInfo → Option (Text × Text)
unfolding server_addresses
connect_to_server_distributed none = none
connect_to_server_distributed (some node_info) = some (server_addresses node_info)

-- An empty frame and the text.
unfoldable pub full_dealer_msg : Text → ZmqMessage
full_dealer_msg msg = [] ∷ msg ∷ []

-- What `_login` and a round of `heartbeat_thread` send.
unfoldable pub login_msg : ⦃jm : Json Message⦄ → Text → ZmqMessage
login_msg client_id = to_zmq_dealer_msg (Build.login client_id)

unfoldable pub ping_msg : ⦃jm : Json Message⦄ → Text → ZmqMessage
ping_msg ⦃jm⦄ client_id = jm.to_json (Build.ping client_id) ∷ []

abbrev id_of_content : Option Text → Option UserId
id_of_content none = none
id_of_content (some content) = parse_int 64 content

abbrev id_of_message : Option Message → Option UserId
id_of_message none = none
id_of_message (some msg) = id_of_content msg.content

abbrev id_of_text : ⦃jm : Json Message⦄ → Option Text → Option UserId
id_of_text none = none
id_of_text ⦃jm⦄ (some msg_str) = id_of_message (jm.from_json msg_str)

-- The user id that `_login` reads off the answer; `none` is a panic.
unfoldable pub login_user_id :
    ⦃jm : Json Message⦄ → (ZmqMessage → Option Text) → ZmqMessage → Option UserId
login_user_id try_into msg = id_of_text (try_into msg)
