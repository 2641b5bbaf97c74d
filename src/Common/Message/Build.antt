-- ===== src/Common/Message/Build.antt =====
-- The messages that clients, servers and the registry centre make.
use rust_distributed_gameser.Prelude.{ℕ, Option, none, some, List, [], ◌∷◌, ◌++◌}
use rust_distributed_gameser.Prelude.Text.{Text, show_nat}
use rust_distributed_gameser.Common.Basic.{User, UserId, Velocity, RectScope}
use rust_distributed_gameser.Common.Node.{NodeInfo, get_key, StateInfo}
use rust_distributed_gameser.Common.Message.{Json, encode, Message, Operation, RegisterResp}

-- A message of an operation without more.
abbrev plain : Text → Operation → Message
plain client_id operation = record {
  client_id = client_id;
  user_id = none;
  operation = operation;
  content = none;
  client_peer_id = none;
}

abbrev with_content : Text → Option UserId → Operation → Text → Message
with_content client_id user_id operation content = record {
  client_id = client_id;
  user_id = user_id;
  operation = operation;
  content = some content;
  client_peer_id = none;
}

abbrev pub ping : Text → Message
ping client_id = plain client_id Operation.ping

abbrev pub login : Text → Message
login client_id = plain client_id Operation.login

abbrev pub logout : Text → Message
logout client_id = plain client_id Operation.logout

abbrev pub pong : Text → Message
pong client_id = plain client_id Operation.pong

abbrev pub convert_to_master : Text → Message
convert_to_master client_id = plain client_id Operation.convert_to_master

abbrev pub resp : Text → Message
resp content = with_content [] none Operation.reply content

abbrev pub del_user : Text → UserId → Message
del_user client_id user_id = record (plain client_id Operation.del_user) { user_id = some user_id }

-- `show` is Rust's text of an f32.
abbrev pub aoe : {F : Type 0} → (F → Text) → Text → UserId → F → ℕ → Message
aoe show client_id user_id radius money =
    with_content client_id (some user_id) Operation.aoe (show radius ++ 32 ∷ show_nat money)

abbrev pub set_velocity :
    {F : Type 0} → ⦃json : Json (Velocity F)⦄ → Text → UserId → Velocity F → Message
set_velocity client_id user_id velocity =
    with_content client_id (some user_id) Operation.set_velocity (encode velocity)

abbrev pub query : {F : Type 0} → ⦃json : Json (RectScope F)⦄ → Text → RectScope F → Message
query client_id scope = with_content client_id none Operation.query (encode scope)

abbrev pub register : ⦃json : Json NodeInfo⦄ → NodeInfo → Message
register node_info = with_content (get_key node_info) none Operation.register (encode node_info)

abbrev pub state_report : {F : Type 0} → ⦃json : Json (StateInfo F)⦄ → Text → StateInfo F → Message
state_report client_id state_info = with_content client_id none Operation.report (encode state_info)

abbrev pub add_user : {F : Type 0} → ⦃json : Json (User F)⦄ → Text → User F → Message
add_user client_id user = with_content client_id (some user.id) Operation.add_user (encode user)

abbrev pub change_master : ⦃json : Json NodeInfo⦄ → Text → NodeInfo → Message
change_master client_id master_node_info =
    with_content client_id none Operation.change_master (encode master_node_info)

abbrev pub query_resp : {F : Type 0} → ⦃json : Json (List (User F))⦄ → List (User F) → Message
query_resp users = with_content [] none Operation.query_resp (encode users)

abbrev pub register_resp : ⦃json : Json RegisterResp⦄ → RegisterResp → Message
register_resp r = with_content [] none Operation.register_resp (encode r)

abbrev pub convert_to_master_resp : ⦃json : Json NodeInfo⦄ → NodeInfo → Message
convert_to_master_resp node_info =
    with_content (get_key node_info) none Operation.convert_to_master_resp (encode node_info)
