-- ===== src/Registry/Reach.antt =====
-- The registry centre from its first context on: handlers that take its lock part by part, and the
-- rounds of its monitor, one after another in any order.
pub mod Tests
use rust_distributed_gameser.Prelude.{
  ◌≡◌, ◌≢◌, ℕ, List, ◌∷◌, false, ℕ_discrete, ◌∙◌, refl, sym, ap, Option, none, some, Option-cases,
  inl, inr, ◌⊎◌, arith, [], state,
}
use rust_distributed_gameser.Prelude.Int.{ℤ}
use rust_distributed_gameser.Prelude.Text.{Text, Text_discrete}
use rust_distributed_gameser.Float.{Float}
use rust_distributed_gameser.HashMap.{HashMap, get, insert}
use rust_distributed_gameser.HashMap.Keys.{text_key}
use rust_distributed_gameser.HashMap.Laws.{get-insert}
use rust_distributed_gameser.HashMap.Sweep.{remove_all, get-remove_all}
use rust_distributed_gameser.Common.Node.{NodeInfo, NodeType, get_key, StateInfo}
use rust_distributed_gameser.Common.Message.{Json, Message, Operation, PeerIdentity, RegisterResp}
use rust_distributed_gameser.Registry.State.{AppContext}
use rust_distributed_gameser.Registry.Valid.{IsValid, HasPeers}
use rust_distributed_gameser.Registry.Handle.{
  enroll, register_node, register_content, register_unless, register, report, new_master, converted,
  handle, handle_msg_task,
}
use rust_distributed_gameser.Registry.Handle.Laws.{IsHonest, handle_msg_task-IsValid}
use rust_distributed_gameser.Registry.Monitor.{del_list, need_elect_master, heartbeat_monitor}
use rust_distributed_gameser.Registry.Monitor.Laws.{heartbeat_monitor-IsValid, round}
use rust_distributed_gameser.Registry.Tasks.{
  Task, begin, begin_unless, read_content, read_node, check_master, advance,
}
use rust_distributed_gameser.Registry.Main.{first_context}
use rust_distributed_gameser.Registry.Handle.Laws.{insert-IsValid, handle-IsValid}
use rust_distributed_gameser.Common.Message.{ZmqMessage}
use rust_distributed_gameser.Registry.Peers.{
  IsEnrolled, first_context-IsValid, first_context-HasPeers, enroll-HasPeers, handle-HasPeers,
  heartbeat_monitor-HasPeers,
}

-- A registration of a master between the test of the known master and its write, and one between
-- that write and its inserts.
abbrev pub IsNaming : Task → Type 0
IsNaming (Task.naming peer c n) = Unit
IsNaming _ = ⊥

abbrev pub IsMasterEnrolling : Task → Type 0
IsMasterEnrolling (Task.enrolling peer c n) = n.node_type ≡ NodeType.master
IsMasterEnrolling _ = ⊥

-- The context and the registrations that are under way, by number.
pub record Centre (F : Type 0) : Type 0 where
  pub ctx : AppContext F
  pub tasks : ℕ → Task

abbrev pub pick : {P : Type 0} → Dec P → Task → Task → Task
pick (yes p) t u = t
pick (no n) t u = u

-- The tasks with another one at `i`.
abbrev pub update : (ℕ → Task) → ℕ → Task → ℕ → Task
update f i t j = pick (ℕ_discrete i j) t (f j)

need_elect_master-none : (ks : List Text) → need_elect_master none ks ≡ false
unfolding need_elect_master
need_elect_master-none [] = refl
need_elect_master-none (k ∷ ks) = need_elect_master-none ks

module _ {F : Type 0} where
  abbrev pub with_task : Centre F → ℕ → AppContext F × Task → Centre F
  with_task s i (ctx, t) = record { ctx = ctx; tasks = update s.tasks i t }

  abbrev pub idle : AppContext F → Centre F
  idle ctx = record { ctx = ctx; tasks = λ i. Task.ended }

  -- What a registration under way relies on.
  abbrev IsSafe : AppContext F → Task → Type 0
  IsSafe ctx (Task.checking peer c n) = c ≡ get_key n
  IsSafe ctx (Task.naming peer c n) =
      (c ≡ get_key n) × (n.node_type ≡ NodeType.master) × (ctx.master_node ≡ none)
  IsSafe ctx (Task.enrolling peer c n) =
      (c ≡ get_key n) × (n.node_type ≡ NodeType.master → ctx.master_node ≡ some n)
  IsSafe ctx Task.ended = Unit

  same_master-IsSafe :
      (ctx ctx' : AppContext F) (t : Task)
      → (IsMasterEnrolling t → ctx'.master_node ≡ ctx.master_node)
      → (IsNaming t → ctx'.master_node ≡ ctx.master_node)
      → IsSafe ctx t
      → IsSafe ctx' t
  same_master-IsSafe ctx ctx' (Task.checking peer c n) e e' h = h
  same_master-IsSafe ctx ctx' (Task.naming peer c n) e e' (k, m, vacant) = (k, m, e' tt ∙ vacant)
  same_master-IsSafe ctx ctx' (Task.enrolling peer c n) e e' (k, known) = (k, λ m. e m ∙ known m)
  same_master-IsSafe ctx ctx' Task.ended e e' h = tt

  -- Where no master is known, only a master that is about to be written minds another one.
  vacant-IsSafe :
      (ctx ctx' : AppContext F) (t : Task)
      → ctx.master_node ≡ none
      → ¬ (IsNaming t)
      → IsSafe ctx t
      → IsSafe ctx' t
  vacant-IsSafe ctx ctx' (Task.checking peer c n) v ne h = h
  vacant-IsSafe ctx ctx' (Task.naming peer c n) v ne h = absurd (ne tt)
  vacant-IsSafe ctx ctx' (Task.enrolling peer c n) v ne (k, known) =
      (k, λ m. absurd (let known' = known m in ground arith))
  vacant-IsSafe ctx ctx' Task.ended v ne h = tt

  -- What the registry centre is at any time.
  record IsSound (s : Centre F) : Type 0 where
    valid : IsValid s.ctx
    peers : HasPeers s.ctx
    safe : (i : ℕ) → IsSafe s.ctx (s.tasks i)

  pick-IsSafe :
      {P : Type 0} (d : Dec P) (ctx : AppContext F) (t u : Task)
      → IsSafe ctx t
      → (¬ P → IsSafe ctx u)
      → IsSafe ctx (pick d t u)
  pick-IsSafe (yes p) ctx t u h other = h
  pick-IsSafe (no n) ctx t u h other = other n

  update-IsSafe :
      (tasks : ℕ → Task) (i : ℕ) (ctx : AppContext F) (t : Task)
      → IsSafe ctx t
      → ((j : ℕ) → i ≢ j → IsSafe ctx (tasks j))
      → (j : ℕ) → IsSafe ctx (update tasks i t j)
  update-IsSafe tasks i ctx t h others j = pick-IsSafe (ℕ_discrete i j) ctx t (tasks j) h (others j)

module _ {F : Type 0} ⦃fl : Float F⦄ ⦃jm : Json Message⦄ ⦃jn : Json NodeInfo⦄
    ⦃js : Json (StateInfo F)⦄ ⦃jr : Json RegisterResp⦄ where
  -- A step of the registry centre, which holds its lock throughout: the first part of a
  -- registration, the next part of one, any other message, or a round of the monitor. Assumed are
  -- that registrations come from the nodes that they name and conversions from enrolled nodes; that
  -- a master is written, and a conversion comes, only while no other master is about to be written,
  -- and a conversion only while no master is known; and that no round of the monitor takes the
  -- known master away while the registration of a master has its inserts before it.
  pub data Step : Centre F → Centre F → Type 0 where
    begins :
        (i : ℕ) (peer : PeerIdentity) (msg : Message) (s : Centre F)
        → s.tasks i ≡ Task.ended
        → msg.operation ≡ Operation.register
        → IsHonest msg
        → Step s (with_task s i (begin peer msg s.ctx))
    goes_on :
        (i : ℕ) (now : ℤ) (s : Centre F)
        → (IsNaming (s.tasks i) → (j : ℕ) → IsNaming (s.tasks j) → i ≡ j)
        → Step s (with_task s i (advance now (s.tasks i) s.ctx))
    told :
        (now : ℤ) (peer : PeerIdentity) (msg : Message) (s : Centre F)
        → msg.operation ≢ Operation.register
        → (msg.operation ≡ Operation.convert_to_master_resp
            → (s.ctx.master_node ≡ none)
              × IsEnrolled msg s.ctx
              × ((j : ℕ) → ¬ (IsNaming (s.tasks j))))
        → Step s (record s { ctx = state (handle_msg_task now peer msg s.ctx) })
    monitored :
        (now : Text → ℤ) (s : Centre F)
        → ((j : ℕ)
            → IsMasterEnrolling (s.tasks j)
            → (state (heartbeat_monitor now s.ctx)).master_node ≡ s.ctx.master_node)
        → Step s (record s { ctx = state (heartbeat_monitor now s.ctx) })

  pub data Reach : Centre F → Type 0 where
    start : Reach (idle first_context)
    next : (s s' : Centre F) → Reach s → Step s s' → Reach s'

  with_task-IsSound :
      (s : Centre F) (i : ℕ) (ctx : AppContext F) (t : Task)
      → IsValid ctx
      → HasPeers ctx
      → IsSafe ctx t
      → ((j : ℕ) → i ≢ j → IsSafe ctx (s.tasks j))
      → IsSound (with_task s i (ctx, t))
  with_task-IsSound s i ctx t valid peers h others = record {
    valid = valid;
    peers = peers;
    safe = update-IsSafe s.tasks i ctx t h others;
  }

  -- A step that leaves the nodes, the peers and the master alone.
  kept-IsSound :
      (s : Centre F) (i : ℕ) (t : Task) (sent : List ZmqMessage)
      → IsSafe s.ctx t
      → IsSound s
      → IsSound (with_task s i (record s.ctx { sent = sent }, t))
  kept-IsSound s i t sent h v =
      let ctx : AppContext F = record s.ctx { sent = sent } in
      with_task-IsSound s i ctx t
        (record { keyed = v.valid.keyed; one_master = v.valid.one_master }) v.peers
        (same_master-IsSafe s.ctx ctx t (λ e. refl) (λ e. refl) h)
        (λ j ne. same_master-IsSafe s.ctx ctx (s.tasks j) (λ e. refl) (λ e. refl) (v.safe j))

  read_content-IsSafe :
      (peer : PeerIdentity) (msg : Message) (content : Option Text) (ctx : AppContext F)
      → IsHonest msg
      → msg.content ≡ content
      → IsSafe ctx (read_content peer msg.client_id content)
  read_content-IsSafe peer msg none ctx honest e = tt
  read_content-IsSafe peer msg (some c) ctx honest e = elim (Option-cases (jn.from_json c)) [
    | inl bad ↦ rw bad tt
    | inr (n, good) ↦ rw good (honest c n e good)
  ]

  begin_unless-IsSound :
      (s : Centre F) (i : ℕ) (peer : PeerIdentity) (msg : Message) (o : Option NodeInfo)
      → IsHonest msg
      → IsSound s
      → IsSound (with_task s i (begin_unless peer msg o s.ctx))
  begin_unless-IsSound s i peer msg (some n) honest v = kept-IsSound s i Task.ended _ tt v
  begin_unless-IsSound s i peer msg none honest v =
      kept-IsSound s i (read_content peer msg.client_id msg.content) s.ctx.sent
        (read_content-IsSafe peer msg msg.content s.ctx honest refl) v

  check_master-IsSound :
      (s : Centre F) (i : ℕ) (peer : PeerIdentity) (c : Text) (n : NodeInfo) (ty : NodeType)
      (m : Option NodeInfo)
      → n.node_type ≡ ty
      → s.ctx.master_node ≡ m
      → c ≡ get_key n
      → IsSound s
      → IsSound (with_task s i (check_master peer c n ty m s.ctx))
  check_master-IsSound s i peer c n NodeType.master (some m) kind known key v =
      kept-IsSound s i Task.ended _ tt v
  check_master-IsSound s i peer c n NodeType.slave none kind known key v =
      kept-IsSound s i Task.ended _ tt v
  check_master-IsSound s i peer c n NodeType.master none kind known key v =
      kept-IsSound s i (Task.naming peer c n) s.ctx.sent (key, kind, known) v
  check_master-IsSound s i peer c n NodeType.slave (some m) kind known key v =
      kept-IsSound s i (Task.enrolling peer c n) s.ctx.sent
        (key, λ is_master. absurd (ground arith)) v

  advance-IsSound :
      (s : Centre F) (i : ℕ) (now : ℤ) (t : Task)
      → IsSafe s.ctx t
      → (IsNaming t → (j : ℕ) → IsNaming (s.tasks j) → i ≡ j)
      → IsSound s
      → IsSound (with_task s i (advance now t s.ctx))
  unfolding advance enroll
  advance-IsSound s i now (Task.checking peer c n) h alone v =
      check_master-IsSound s i peer c n n.node_type s.ctx.master_node refl refl h v
  advance-IsSound s i now (Task.naming peer c n) (key, kind, vacant) alone v =
      let ctx : AppContext F = record s.ctx { master_node = some n } in
      with_task-IsSound s i ctx (Task.enrolling peer c n)
        (record {
          keyed = v.valid.keyed;
          one_master =
              λ k m hit ty. absurd (let known = v.valid.one_master k m hit ty in ground arith);
        })
        v.peers (key, λ e. refl)
        (λ j ne. vacant-IsSafe s.ctx ctx (s.tasks j) vacant (λ e. ne (alone tt j e)) (v.safe j))
  advance-IsSound s i now (Task.enrolling peer c n) (key, known) alone v =
      let ctx : AppContext F = enroll now peer c n s.ctx in
      with_task-IsSound s i ctx Task.ended
        (insert-IsValid s.ctx ctx n c v.valid refl key v.valid.one_master known)
        (enroll-HasPeers now peer c n s.ctx v.peers) tt
        (λ j ne. same_master-IsSafe s.ctx ctx (s.tasks j) (λ e. refl) (λ e. refl) (v.safe j))
  advance-IsSound s i now Task.ended h alone v = kept-IsSound s i Task.ended s.ctx.sent tt v

  master_node-report :
      (now : ℤ) (k : Text) (content : Option Text) (ctx : AppContext F)
      → (state (report now k content ctx)).master_node ≡ ctx.master_node
  unfolding report
  master_node-report now k none ctx = refl
  master_node-report now k (some c) ctx = elim (Option-cases (js.from_json c)) [
    | inl bad ↦ rw bad refl
    | inr (info, good) ↦ rw good refl
  ]

  handle-IsSafe :
      (now : ℤ) (peer : PeerIdentity) (msg : Message) (op : Operation) (ctx : AppContext F)
      (t : Task)
      → op ≢ Operation.register
      → (op ≡ Operation.convert_to_master_resp → (ctx.master_node ≡ none) × (¬ (IsNaming t)))
      → IsSafe ctx t
      → IsSafe (state (handle now peer msg op ctx)) t
  handle-IsSafe now peer msg Operation.register ctx t ne vacant h = absurd (ne refl)
  handle-IsSafe now peer msg Operation.report ctx t ne vacant h =
      let same = master_node-report now msg.client_id msg.content ctx in
      same_master-IsSafe ctx (state (report now msg.client_id msg.content ctx)) t (λ e. same)
        (λ e. same) h
  handle-IsSafe now peer msg Operation.convert_to_master_resp ctx t ne vacant h =
      vacant-IsSafe ctx (state (converted msg.content ctx)) t (vacant refl).0 (vacant refl).1 h
  handle-IsSafe now peer msg _ ctx t ne vacant h = h

  told-IsSound :
      (s : Centre F) (now : ℤ) (peer : PeerIdentity) (msg : Message) (op : Operation)
      → op ≢ Operation.register
      → (op ≡ Operation.convert_to_master_resp
          → (s.ctx.master_node ≡ none)
            × IsEnrolled msg s.ctx
            × ((j : ℕ) → ¬ (IsNaming (s.tasks j))))
      → IsSound s
      → IsSound (record s { ctx = state (handle now peer msg op s.ctx) })
  told-IsSound s now peer msg op ne vacant v = record {
    valid = handle-IsValid now peer msg op s.ctx (λ e. absurd (ne e)) (λ e. (vacant e).0) v.valid;
    peers = handle-HasPeers now peer msg op s.ctx ne (λ e. (vacant e).1) v.peers;
    safe = λ j.
        handle-IsSafe now peer msg op s.ctx (s.tasks j) ne (λ e. ((vacant e).0, (vacant e).2 j))
          (v.safe j);
  }

  heartbeat_monitor-vacant :
      (now : Text → ℤ) (ctx : AppContext F)
      → ctx.master_node ≡ none
      → (state (heartbeat_monitor now ctx)).master_node ≡ none
  unfolding heartbeat_monitor
  heartbeat_monitor-vacant now ctx e =
      rw (e, need_elect_master-none (del_list now ctx.node_state)) refl

  naming-vacant :
      (ctx : AppContext F) (t : Task) → IsNaming t → IsSafe ctx t → ctx.master_node ≡ none
  naming-vacant ctx (Task.naming peer c n) is h = h.2
  naming-vacant ctx (Task.checking peer c n) is h = absurd is
  naming-vacant ctx (Task.enrolling peer c n) is h = absurd is
  naming-vacant ctx Task.ended is h = absurd is

  monitored-IsSound :
      (s : Centre F) (now : Text → ℤ)
      → ((j : ℕ)
          → IsMasterEnrolling (s.tasks j)
          → (state (heartbeat_monitor now s.ctx)).master_node ≡ s.ctx.master_node)
      → IsSound s
      → IsSound (record s { ctx = state (heartbeat_monitor now s.ctx) })
  monitored-IsSound s now stays v = record {
    valid = heartbeat_monitor-IsValid now s.ctx v.valid;
    peers = heartbeat_monitor-HasPeers now s.ctx v.peers;
    safe = λ j.
        same_master-IsSafe s.ctx (state (heartbeat_monitor now s.ctx)) (s.tasks j) (stays j)
          (λ e.
            let vacant = naming-vacant s.ctx (s.tasks j) e (v.safe j) in
            heartbeat_monitor-vacant now s.ctx vacant ∙ sym vacant)
          (v.safe j);
  }

  step_keeps : {s s' : Centre F} → Step s s' → IsSound s → IsSound s'
  unfolding handle_msg_task begin
  step_keeps (Step.begins i peer msg s fresh op honest) v =
      begin_unless-IsSound s i peer msg (get msg.client_id s.ctx.node_list) honest v
  step_keeps (Step.goes_on i now s alone) v = advance-IsSound s i now (s.tasks i) (v.safe i) alone v
  step_keeps (Step.told now peer msg s ne vacant) v =
      told-IsSound s now peer msg msg.operation ne vacant v
  step_keeps (Step.monitored now s stays) v = monitored-IsSound s now stays v

  reached : {s : Centre F} → Reach s → IsSound s
  reached Reach.start = record {
    valid = first_context-IsValid;
    peers = first_context-HasPeers F;
    safe = λ i. tt;
  }
  reached (Reach.next s s' r step) = step_keeps step (reached r)

  -- From the start of the registry centre on, whatever parts of registrations, other messages and
  -- rounds of the monitor follow one another, where registrations come from the nodes that they
  -- name, conversions come from enrolled nodes while no master is known, no two masters are about
  -- to be written at once, nor a master while a conversion comes, and no round of the monitor takes
  -- the known master away while a master's registration has its inserts before it: two nodes that
  -- call themselves masters are one and the same, it is the master that the registry centre knows,
  -- and the registry centre knows the peer of every node.
  pub ever_one_master :
      (s : Centre F)
      → Reach s
      → ((j k : Text) (m n : NodeInfo)
          → get j s.ctx.node_list ≡ some m
          → get k s.ctx.node_list ≡ some n
          → m.node_type ≡ NodeType.master
          → n.node_type ≡ NodeType.master
          → (j ≡ k) × (m ≡ n) × (s.ctx.master_node ≡ some m))
        × HasPeers s.ctx
  ever_one_master s r =
      let v = reached r in
      (
        λ j k m n hj hk tm tn.
            let km = v.valid.one_master j m hj tm in
            let kn = v.valid.one_master k n hk tn in
            let same : m ≡ n = ground arith in
            (v.valid.keyed j m hj ∙ ap get_key same ∙ sym (v.valid.keyed k n hk), same, km),
        v.peers,
      )
