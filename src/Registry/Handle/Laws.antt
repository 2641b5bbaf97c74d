-- ===== src/Registry/Handle/Laws.antt =====
-- The registry centre never knows two masters, message by message.
use rust_distributed_gameser.Prelude.{
  ◌≡◌, refl, Option, none, some, Option-cases, inl, inr, arith, state,
}
use rust_distributed_gameser.Prelude.Int.{ℤ}
use rust_distributed_gameser.Prelude.Text.{Text, Text_discrete}
use rust_distributed_gameser.Float.{Float}
use rust_distributed_gameser.HashMap.{get, insert}
use rust_distributed_gameser.HashMap.Keys.{text_key}
use rust_distributed_gameser.HashMap.Laws.{get-insert}
use rust_distributed_gameser.Common.Node.{NodeInfo, NodeType, get_key, StateInfo}
use rust_distributed_gameser.Common.Message.{Json, Message, Operation, RegisterResp, PeerIdentity}
use rust_distributed_gameser.Registry.State.{AppContext}
use rust_distributed_gameser.Registry.Valid.{IsValid}
use rust_distributed_gameser.Registry.Handle.{
  enroll, register_node, register_content, register_unless, register, report, new_master, converted,
  handle, handle_msg_task,
}

module _ ⦃jn : Json NodeInfo⦄ where
  -- The sender of a registration goes by the key of the node that it registers.
  abbrev pub IsHonest : Message → Type 0
  IsHonest msg =
      (c : Text) (n : NodeInfo)
      → msg.content ≡ some c
      → jn.from_json c ≡ some n
      → msg.client_id ≡ get_key n

module _ {F : Type 0} ⦃fl : Float F⦄ ⦃jm : Json Message⦄ ⦃jn : Json NodeInfo⦄
    ⦃js : Json (StateInfo F)⦄ ⦃jr : Json RegisterResp⦄ where
  -- Another entry under its own key, with a master that is the known one.
  pub insert-IsValid :
      (ctx ctx' : AppContext F) (n : NodeInfo) (k : Text)
      → IsValid ctx
      → ctx'.node_list ≡ insert k n ctx.node_list
      → k ≡ get_key n
      → ((j : Text) (m : NodeInfo)
          → get j ctx.node_list ≡ some m
          → m.node_type ≡ NodeType.master
          → ctx'.master_node ≡ some m)
      → (n.node_type ≡ NodeType.master → ctx'.master_node ≡ some n)
      → IsValid ctx'
  insert-IsValid ctx ctx' n k v e key old new = record {
    keyed = λ j m h. ground (arith, get-insert j k n ctx.node_list, v.keyed j m);
    one_master = λ j m h t. elim (Text_discrete k j) [
      | yes p ↦
          (let same : n ≡ m = ground (arith, get-insert j k n ctx.node_list) in
            rw (← same) (new (rw same t)))
      | no p ↦ old j m (ground (arith, get-insert j k n ctx.node_list)) t
    ];
  }

  register_node-IsValid :
      (now : ℤ) (peer : PeerIdentity) (k : Text) (n : NodeInfo) (ty : NodeType)
      (m : Option NodeInfo) (ctx : AppContext F)
      → n.node_type ≡ ty
      → ctx.master_node ≡ m
      → k ≡ get_key n
      → IsValid ctx
      → IsValid (register_node now peer k n ty m ctx)
  unfolding enroll
  register_node-IsValid now peer k n NodeType.master (some m) ctx ty e key v = record {
    keyed = v.keyed;
    one_master = v.one_master;
  }
  register_node-IsValid now peer k n NodeType.slave none ctx ty e key v = record {
    keyed = v.keyed;
    one_master = v.one_master;
  }
  register_node-IsValid now peer k n NodeType.master none ctx ty e key v =
      insert-IsValid ctx _ n k v refl key (λ j m h t. absurd (ground (arith, v.one_master j m h t)))
        (λ t. refl)
  register_node-IsValid now peer k n NodeType.slave (some m) ctx ty e key v =
      insert-IsValid ctx _ n k v refl key v.one_master (λ t. absurd (ground arith))

  register_content-IsValid :
      (now : ℤ) (peer : PeerIdentity) (msg : Message) (content : Option Text) (ctx : AppContext F)
      → msg.content ≡ content
      → IsHonest msg
      → IsValid ctx
      → IsValid (state (register_content now peer msg.client_id content ctx))
  register_content-IsValid now peer msg none ctx e honest v = v
  register_content-IsValid now peer msg (some c) ctx e honest v =
      elim (Option-cases (jn.from_json c)) [
        | inl bad ↦ rw bad v
        | inr (n, good) ↦ rw good (
            register_node-IsValid now peer msg.client_id n n.node_type ctx.master_node ctx refl refl
              (honest c n e good) v)
      ]

  register_unless-IsValid :
      (now : ℤ) (peer : PeerIdentity) (msg : Message) (o : Option NodeInfo) (ctx : AppContext F)
      → IsHonest msg
      → IsValid ctx
      → IsValid (state (register_unless now peer msg o ctx))
  register_unless-IsValid now peer msg (some n) ctx honest v = record {
    keyed = v.keyed;
    one_master = v.one_master;
  }
  register_unless-IsValid now peer msg none ctx honest v =
      register_content-IsValid now peer msg msg.content ctx refl honest v

  report-IsValid :
      (now : ℤ) (k : Text) (content : Option Text) (ctx : AppContext F)
      → IsValid ctx
      → IsValid (state (report now k content ctx))
  unfolding report
  report-IsValid now k none ctx v = v
  report-IsValid now k (some c) ctx v = elim (Option-cases (js.from_json c)) [
    | inl bad ↦ rw bad v
    | inr (info, good) ↦ rw good (record { keyed = v.keyed; one_master = v.one_master })
  ]

  new_master-IsValid :
      (n : NodeInfo) (ctx : AppContext F)
      → ctx.master_node ≡ none
      → IsValid ctx
      → IsValid (new_master n ctx)
  new_master-IsValid n ctx vacant v =
      insert-IsValid ctx _ n (get_key n) v refl refl
        (λ j m h t. absurd (ground (arith, v.one_master j m h t))) (λ t. refl)

  converted-IsValid :
      (content : Option Text) (ctx : AppContext F)
      → ctx.master_node ≡ none
      → IsValid ctx
      → IsValid (state (converted content ctx))
  unfolding converted
  converted-IsValid none ctx vacant v = v
  converted-IsValid (some c) ctx vacant v = elim (Option-cases (jn.from_json c)) [
    | inl bad ↦ rw bad v
    | inr (n, good) ↦ rw good (new_master-IsValid n ctx vacant v)
  ]

  pub handle-IsValid :
      (now : ℤ) (peer : PeerIdentity) (msg : Message) (op : Operation) (ctx : AppContext F)
      → (op ≡ Operation.register → IsHonest msg)
      → (op ≡ Operation.convert_to_master_resp → ctx.master_node ≡ none)
      → IsValid ctx
      → IsValid (state (handle now peer msg op ctx))
  unfolding register
  handle-IsValid now peer msg Operation.register ctx honest vacant v =
      register_unless-IsValid now peer msg (get msg.client_id ctx.node_list) ctx (honest refl) v
  handle-IsValid now peer msg Operation.report ctx honest vacant v =
      report-IsValid now msg.client_id msg.content ctx v
  handle-IsValid now peer msg Operation.convert_to_master_resp ctx honest vacant v =
      converted-IsValid msg.content ctx (vacant refl) v
  handle-IsValid now peer msg _ ctx honest vacant v = v

  -- A message leaves the registry centre well formed, also where the handler panics, if a
  -- registration comes from the node that it names and a conversion to master is reported only
  -- while no master is known.
  pub handle_msg_task-IsValid :
      (now : ℤ) (peer : PeerIdentity) (msg : Message) (ctx : AppContext F)
      → (msg.operation ≡ Operation.register → IsHonest msg)
      → (msg.operation ≡ Operation.convert_to_master_resp → ctx.master_node ≡ none)
      → IsValid ctx
      → IsValid (state (handle_msg_task now peer msg ctx))
  unfolding handle_msg_task
  handle_msg_task-IsValid now peer msg ctx honest vacant v =
      handle-IsValid now peer msg msg.operation ctx honest vacant v
