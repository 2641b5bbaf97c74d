-- ===== src/HashMap/Keys.antt =====
-- The key types of the program's maps: user ids (i64) and text.
use rust_distributed_gameser.Prelude.Int.{ℤ, ℤ_discrete}
use rust_distributed_gameser.Prelude.Text.{Text, Text_discrete}
use rust_distributed_gameser.HashMap.{Key}

instance abbrev pub int_key : Key ℤ
int_key = record { dec = ℤ_discrete }

instance abbrev pub text_key : Key Text
text_key = record { dec = Text_discrete }
