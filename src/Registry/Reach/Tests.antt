-- ===== src/Registry/Reach/Tests.antt =====
-- A registry centre that a master registers with.
use rust_distributed_gameser.Prelude.{◌≡◌, ◌∙◌, ◌≢◌, ℕ, ℕ_discrete, refl, ap, none, some, [], arith}
use rust_distributed_gameser.Prelude.Int.{pos}
use rust_distributed_gameser.Prelude.Text.{Text, codes}
use rust_distributed_gameser.Float.Whole.{Whole, whole_float}
use rust_distributed_gameser.HashMap.{get}
use rust_distributed_gameser.HashMap.Keys.{text_key}
use rust_distributed_gameser.Common.Node.{NodeInfo, NodeType, get_key, StateInfo}
use rust_distributed_gameser.Common.Message.{Json, Message, Operation, RegisterResp}
use rust_distributed_gameser.Common.Message.Build
use rust_distributed_gameser.Registry.State.{AppContext}
use rust_distributed_gameser.Registry.Handle.Laws.{IsHonest}
use rust_distributed_gameser.Registry.Main.{first_context}
use rust_distributed_gameser.Registry.Valid.{HasPeers}
use rust_distributed_gameser.Registry.Reach.{
  Step, Reach, Centre, idle, with_task, IsNaming, pick, ever_one_master,
}
use rust_distributed_gameser.Registry.Tasks.{Task, begin, advance}

abbrev chief : NodeInfo
chief = record {
  node_addr = codes "a";
  main_channel_port = 1;
  heartbeat_port = 2;
  pub_port = 3;
  node_type = NodeType.master;
}

-- A JSON that reads one node.
instance abbrev json_node : Json NodeInfo
json_node = record { to_json = get_key; from_json = λ c. some chief }

instance abbrev json_message : Json Message
json_message = record { to_json = λ m. m.client_id; from_json = λ c. none }

instance abbrev json_state : Json (StateInfo Whole)
json_state = record { to_json = λ s. []; from_json = λ c. none }

instance abbrev json_resp : Json RegisterResp
json_resp = record { to_json = λ r. []; from_json = λ c. none }

-- The parts of the registration of a master.
abbrev asked : Centre Whole
asked = with_task (idle first_context) 0 (begin (codes "q") (Build.register chief) first_context)

abbrev gone_on : Centre Whole → Centre Whole
gone_on s = with_task s 0 (advance (pos 7) (s.tasks 0) s.ctx)

abbrev joined : Centre Whole
joined = gone_on (gone_on (gone_on asked))

chief-IsHonest :
    (Build.register chief).operation ≡ Operation.register → IsHonest (Build.register chief)
chief-IsHonest e c n content read = let same : chief ≡ n = ground arith in ap get_key same

asked_reached : Reach asked
asked_reached = Reach.next (idle first_context) asked Reach.start (
    Step.begins 0 (codes "q") (Build.register chief) (idle first_context) refl refl
      (chief-IsHonest refl))

-- The one registration under way has the number 0.
alone :
    (s : Centre Whole) (j : ℕ)
    → ((i : ℕ) → 0 ≢ i → s.tasks i ≡ Task.ended)
    → IsNaming (s.tasks j)
    → 0 ≡ j
alone s j e is = elim (ℕ_discrete 0 j) [ yes p ↦ p | no n ↦ absurd (rw (e j n) at is) ]

gone_on_reached :
    (s : Centre Whole) → Reach s → ((i : ℕ) → 0 ≢ i → s.tasks i ≡ Task.ended) → Reach (gone_on s)
gone_on_reached s r e =
    Reach.next s (gone_on s) r (Step.goes_on 0 (pos 7) s (λ is j is'. alone s j e is'))

pick_miss : {P : Type 0} (d : Dec P) (t u : Task) → ¬ P → pick d t u ≡ u
pick_miss (yes p) t u n = absurd (n p)
pick_miss (no m) t u n = refl

others_ended :
    (s : Centre Whole) (c : AppContext Whole × Task)
    → ((i : ℕ) → 0 ≢ i → s.tasks i ≡ Task.ended)
    → (i : ℕ) → 0 ≢ i
    → (with_task s 0 c).tasks i ≡ Task.ended
others_ended s c e i ne = pick_miss (ℕ_discrete 0 i) c.1 (s.tasks i) ne ∙ e i ne

ever_one_master_example :
    ((j k : Text) (m n : NodeInfo)
      → get j joined.ctx.node_list ≡ some m
      → get k joined.ctx.node_list ≡ some n
      → m.node_type ≡ NodeType.master
      → n.node_type ≡ NodeType.master
      → (j ≡ k) × (m ≡ n) × (joined.ctx.master_node ≡ some m))
    × HasPeers joined.ctx
ever_one_master_example =
    let one =
      others_ended (idle first_context) (begin (codes "q") (Build.register chief) first_context)
        (λ i ne. refl) in
    let two = others_ended asked (advance (pos 7) (asked.tasks 0) asked.ctx) one in
    let three =
      others_ended (gone_on asked) (advance (pos 7) ((gone_on asked).tasks 0) (gone_on asked).ctx)
        two in
    ever_one_master joined (
      gone_on_reached (gone_on (gone_on asked))
        (gone_on_reached (gone_on asked) (gone_on_reached asked asked_reached one) two) three)
