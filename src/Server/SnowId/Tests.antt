-- ===== src/Server/SnowId/Tests.antt =====
-- The examples of snow_id.rs.
use rust_distributed_gameser.Prelude.{ℕ, ◌≡◌, ◌≢◌, refl, arith, some, true}
use rust_distributed_gameser.Prelude.Text.{Text, codes}
use rust_distributed_gameser.Server.SnowId.{base_10_to_n, base_n_to_10, nth}
use rust_distributed_gameser.Server.SnowId.RoundTrip.{base_n_to_10-base_10_to_n}

abbrev raw_id : ℕ
raw_id = 6888076346770202619

raw_id_in_36 : base_10_to_n 65 raw_id 36 ≡ some (codes "1gbyra5idyk8r")
unfolding base_10_to_n
raw_id_in_36 = refl

raw_id_from_36 : base_n_to_10 true (codes "1gbyra5idyk8r") 36 ≡ some raw_id
unfolding base_n_to_10
raw_id_from_36 = refl

base_n_to_10-base_10_to_n_example :
    (t : Text) × (base_10_to_n 65 raw_id 36 ≡ some t)
    × (base_n_to_10 true t 36 ≡ some raw_id)
    × (raw_id ≢ 0 → nth 0 t ≢ some b'0')
base_n_to_10-base_10_to_n_example =
    base_n_to_10-base_10_to_n true raw_id 36 (omega arith) (omega arith) (omega arith)
