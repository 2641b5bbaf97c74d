-- ===== src/Registry/Tasks/Race.antt =====
-- Two masters that register at once.
use rust_distributed_gameser.Prelude.{◌≡◌, some}
use rust_distributed_gameser.Prelude.Int.{ℤ}
use rust_distributed_gameser.Prelude.Text.{Text}
use rust_distributed_gameser.Float.{Float}
use rust_distributed_gameser.HashMap.{get}
use rust_distributed_gameser.HashMap.Keys.{text_key}
use rust_distributed_gameser.Common.Node.{NodeInfo, StateInfo}
use rust_distributed_gameser.Common.Message.{Json, Message, RegisterResp, PeerIdentity}
use rust_distributed_gameser.Registry.State.{AppContext}
use rust_distributed_gameser.Registry.Tasks.{begin, advance}

module _ {F : Type 0} ⦃fl : Float F⦄ ⦃jm : Json Message⦄ ⦃jn : Json NodeInfo⦄
    ⦃js : Json (StateInfo F)⦄ ⦃jr : Json RegisterResp⦄ where
  -- Two registrations, each part of the first followed by that part of the second.
  abbrev pub at_once :
      ℤ → PeerIdentity → PeerIdentity → Message → Message → AppContext F → AppContext F
  at_once now p q msg msg' ctx =
      let (ctx1, one1) = begin p msg ctx in
      let (ctx2, two1) = begin q msg' ctx1 in
      let (ctx3, one2) = advance now one1 ctx2 in
      let (ctx4, two2) = advance now two1 ctx3 in
      let (ctx5, one3) = advance now one2 ctx4 in
      let (ctx6, two3) = advance now two2 ctx5 in
      let (ctx7, one4) = advance now one3 ctx6 in (advance now two3 ctx7).0

  -- Both masters in the list, the later one known.
  abbrev pub TwoMasters : Text → NodeInfo → Text → NodeInfo → AppContext F → Type 0
  TwoMasters j m k n ctx =
      (get j ctx.node_list ≡ some m) × (get k ctx.node_list ≡ some n) × (ctx.master_node ≡ some n)
