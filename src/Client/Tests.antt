-- ===== src/Client/Tests.antt =====
-- A client that logs in at a server on its own, and a slave that asks for its master.
use rust_distributed_gameser.Prelude.{
  ◌≡◌, refl, Option, none, some, [], ◌∷◌, ℕ_discrete, arith, done,
}
use rust_distributed_gameser.Prelude.Int.{pos}
use rust_distributed_gameser.Prelude.Text.{Text, Text_discrete, codes, show_int}
use rust_distributed_gameser.Float.Whole.{Whole, whole_float}
use rust_distributed_gameser.HashMap.{get, contains_key}
use rust_distributed_gameser.HashMap.Keys.{int_key, text_key}
use rust_distributed_gameser.Common.Node.{NodeInfo}
use rust_distributed_gameser.Common.Message.{Json, Message, Operation, ZmqMessage}
use rust_distributed_gameser.Common.Message.Build
use rust_distributed_gameser.Common.Resp.{Resp}
use rust_distributed_gameser.Registry.State.{AppContext}
use rust_distributed_gameser.Registry.Balance.{get_master}
use rust_distributed_gameser.Registry.Main.{first_context}
use rust_distributed_gameser.Server.State.{Server, is_slave}
use rust_distributed_gameser.Server.Tests.{
  outside, master_server, slave_node, json_velocity, json_user, json_scope, json_users,
}
use rust_distributed_gameser.Server.Handle.{handle_msg_task}
use rust_distributed_gameser.Server.Distribute.{http_get_master_node}
use rust_distributed_gameser.Server.Distribute.Replies.{login_user}
use rust_distributed_gameser.Client.{login_msg, login_user_id}
use rust_distributed_gameser.Client.Login.{login_msg_roundtrip, http_get_master_node-get_master}

-- A JSON that knows a login and an answer.
abbrev letter : Operation → Text
letter Operation.login = codes "l"
letter _ = codes "r"

instance abbrev json_message : Json Message
json_message = record {
  to_json = λ m. letter m.operation;
  from_json = λ t. elim (Text_discrete t (codes "l")) [
    | yes p ↦ some (Build.login (codes "new"))
    | no n ↦ some (Build.resp (show_int (pos 9)))
  ];
}

abbrev one_frame : ZmqMessage → Option Text
one_frame (t ∷ []) = some t
one_frame _ = none

login_msg_roundtrip_example :
    (s' : Server Whole) × (answer : ZmqMessage) × (handle_msg_task outside
        (codes "p" ∷ login_msg (codes "new"))
        master_server
      ≡ done s')
    × (s'.ctx.to_client ≡ (codes "p" ∷ answer) ∷ master_server.ctx.to_client)
    × (login_user_id one_frame answer ≡ some (login_user outside).id)
    × (get (login_user outside).id s'.world.users ≡ some (login_user outside))
unfolding is_slave contains_key get Text_discrete ℕ_discrete
login_msg_roundtrip_example =
    login_msg_roundtrip outside one_frame (codes "new") (codes "p") master_server refl refl
      (omega arith) (omega arith) refl refl refl

abbrev led : AppContext Whole
led = record first_context { master_node = some slave_node }

instance abbrev json_answer : Json (Resp NodeInfo)
json_answer = record { to_json = λ r. r.message; from_json = λ t. some (get_master led) }

http_get_master_node-get_master_example :
    http_get_master_node (json_answer.to_json (get_master led)) ≡ some led.master_node
http_get_master_node-get_master_example = http_get_master_node-get_master led refl
