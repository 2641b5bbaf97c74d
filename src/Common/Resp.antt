-- ===== src/Common/Resp.antt =====
-- crates/common/src/result.rs and its copy in crates/registry_center/src/result.rs: the body of an
-- HTTP response.
use rust_distributed_gameser.Prelude.{ℕ, ltb, if◌then◌else◌}
use rust_distributed_gameser.Prelude.Text.{Text, codes}

pub record Resp {ℓ} (T : Type ℓ) : Type ℓ where
  pub body : T
  pub code : ℕ
  pub message : Text

abbrev pub code_success : ℕ
code_success = 21_000_000

module _ {ℓ} {T : Type ℓ} where
  abbrev pub success : T → Resp T
  success body = record { body = body; code = 21_000_000; message = codes "success" }

  abbrev pub fail : T → Resp T
  fail body = record { body = body; code = 500; message = codes "fail" }

  abbrev pub with_code : ℕ → Resp T → Resp T
  with_code code r = record r { code = code }

  abbrev pub with_message : Text → Resp T → Resp T
  with_message message r = record r { message = message }

  unfoldable pub http_status_code : Resp T → ℕ
  http_status_code r =
      if ltb r.code 40_000_000 then 200 else if ltb r.code 50_000_000 then 400 else 500
