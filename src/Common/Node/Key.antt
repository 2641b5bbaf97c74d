-- ===== src/Common/Node/Key.antt =====
-- A node's key names its address and main port.
use mathlib.Core.Option.{some-injective}
use rust_distributed_gameser.Prelude.{◌≡◌, ap, sym, ◌∙◌}
use rust_distributed_gameser.Prelude.Text.{show_nat, parse_nat}
use rust_distributed_gameser.Prelude.Text.Decimal.{show_nat-IsDigit, parse_nat-show_nat}
use rust_distributed_gameser.Prelude.Text.Split.{HasNoColon-digits, last_colon_injective}
use rust_distributed_gameser.Common.Node.{NodeInfo, get_key}

-- Two nodes with the same key have the same address and the same main channel port, whatever
-- colons the address holds.
pub get_key-injective :
    (m n : NodeInfo)
    → get_key m ≡ get_key n
    → (m.node_addr ≡ n.node_addr) × (m.main_channel_port ≡ n.main_channel_port)
unfolding get_key
get_key-injective m n e =
    let (addr, port) =
      last_colon_injective m.node_addr n.node_addr (show_nat m.main_channel_port)
        (show_nat n.main_channel_port) (HasNoColon-digits _ (show_nat-IsDigit m.main_channel_port))
        (HasNoColon-digits _ (show_nat-IsDigit n.main_channel_port)) e in
    (
      addr,
      some-injective _ _ (
          sym (parse_nat-show_nat m.main_channel_port)
          ∙ ap parse_nat port
          ∙ parse_nat-show_nat n.main_channel_port),
    )
