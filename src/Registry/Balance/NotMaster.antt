-- ===== src/Registry/Balance/NotMaster.antt =====
-- A client is not sent to the master while there is another node.
use rust_distributed_gameser.Prelude.{
  ◌≡◌, ◌≢◌, sym, ap, Option, none, some, arith, List, [], ◌∷◌, ◌∙◌,
}
use rust_distributed_gameser.Prelude.Text.{Text, Text_discrete}
use rust_distributed_gameser.Float.{Float}
use rust_distributed_gameser.HashMap.{HashMap, get, remove, values}
use rust_distributed_gameser.HashMap.Keys.{text_key}
use rust_distributed_gameser.HashMap.Laws.{get-remove}
use rust_distributed_gameser.Common.Node.{NodeInfo, get_key}
use rust_distributed_gameser.Common.Resp.{Resp}
use rust_distributed_gameser.Registry.State.{NodeState, AppContext}
use rust_distributed_gameser.Registry.Valid.{IsValid}
use rust_distributed_gameser.Registry.Balance.{
  min_load, min_load_from, get_min_load_node, unless_full, answer, get_load_banlance_connection,
}

module _ {F : Type 0} ⦃fl : Float F⦄ where
  min_load_from-get :
      (states : HashMap Text (NodeState F)) (nodes : HashMap Text NodeInfo) (key : Text)
      (o : Option (NodeState F)) (n : NodeInfo)
      → min_load_from states nodes key o ≡ some (some n)
      → (k : Text) × (get k nodes ≡ some n)
  min_load_from-get states nodes key none n e = absurd (ground arith)
  min_load_from-get states nodes key (some s) n e = ((min_load states key s).0, ground arith)

  -- What is chosen stands in the list.
  get_min_load_node-get :
      (states : HashMap Text (NodeState F)) (nodes : HashMap Text NodeInfo) (n : NodeInfo)
      → get_min_load_node states nodes ≡ some (some n)
      → (k : Text) × (get k nodes ≡ some n)
  unfolding get_min_load_node
  get_min_load_node-get states [] n e = absurd (ground arith)
  get_min_load_node-get states ((key, m) ∷ nodes) n e =
      min_load_from-get states ((key, m) ∷ nodes) key (get key states) n e

  unless_full-body :
      (n : NodeInfo) (o : Option (NodeState F)) (r : Resp NodeInfo)
      → unless_full n o ≡ some r
      → r.code ≡ 21_000_000
      → r.body ≡ n
  unless_full-body n none r e c = absurd (ground arith)
  unless_full-body n (some s) r e c = ground arith

  answer-body :
      (states : HashMap Text (NodeState F)) (o : Option (Option NodeInfo)) (r : Resp NodeInfo)
      → answer states o ≡ some r
      → r.code ≡ 21_000_000
      → o ≡ some (some r.body)
  answer-body states none r e c = absurd (ground arith)
  answer-body states (some none) r e c = absurd (ground arith)
  answer-body states (some (some n)) r e c =
      ap (λ z. some (some z)) (sym (unless_full-body n (get (get_key n) states) r e c))

  -- Where a well formed registry centre knows a master and two nodes or more, a node that a client
  -- is given has another key than the master.
  pub get_load_banlance_connection_avoids :
      (ctx : AppContext F) (m a b : NodeInfo) (rest : List NodeInfo) (r : Resp NodeInfo)
      → IsValid ctx
      → ctx.master_node ≡ some m
      → values ctx.node_list ≡ a ∷ b ∷ rest
      → get_load_banlance_connection ctx ≡ some r
      → r.code ≡ 21_000_000
      → get_key r.body ≢ get_key m
  unfolding get_load_banlance_connection
  get_load_banlance_connection_avoids ctx m a b rest r v known two e c p =
      let states = remove (get_key m) ctx.node_state in
      let nodes = remove (get_key m) ctx.node_list in
      let e' : answer states (get_min_load_node states nodes) ≡ some r = rw (two, known) at e in
      let (k, hit) =
        get_min_load_node-get states nodes r.body
          (answer-body states (get_min_load_node states nodes) r e' c) in
      let gone = get-remove k (get_key m) ctx.node_list in
      elim (Text_discrete (get_key m) k) [
        | yes q ↦ absurd (ground arith)
        | no q ↦
            (let own : k ≡ get_key r.body = v.keyed k r.body (ground arith) in q (sym (own ∙ p)))
      ]
