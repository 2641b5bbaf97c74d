-- ===== src/Tests.antt =====
-- Concrete tags, nodes and users, and what the theorems say of them.
use rust_distributed_gameser.Prelude.{◌≡◌, ◌≢◌, refl, some, inl, inr, arith}
use rust_distributed_gameser.Prelude.Int.{pos, negsuc, ◌≤ℤ◌, ◌+ℤ◌, negate}
use rust_distributed_gameser.Prelude.Text.{codes}
use rust_distributed_gameser.Float.Whole.{Whole, whole_float, Whole-IsIeee}
use rust_distributed_gameser.Common.Basic.{Vector2, vector, User, shift, right, is_quals_zero}
use rust_distributed_gameser.Common.Basic.Laws.{IsInWorld, shift_inside}
use rust_distributed_gameser.Common.Node.{NodeInfo, NodeType, get_key}
use rust_distributed_gameser.Common.Node.Key.{get_key-injective}
use rust_distributed_gameser.MapTool.{
  tag, to_string, from_string, get_field_id_from_len_or_pos, pos2len, pos2map_tag,
}
use rust_distributed_gameser.MapTool.RoundTrip.{from_string-to_string}
use rust_distributed_gameser.MapTool.Order.{pos2len_mono}
use rust_distributed_gameser.MapTool.Bounds.{IsGridTag, pos2map_tag-IsGridTag, pos2map_tag_lost}

from_string-to_string_example :
    from_string (to_string (tag 66 (negsuc 2) (pos 5))) ≡ some (tag 66 (negsuc 2) (pos 5))
from_string-to_string_example =
    from_string-to_string (tag 66 (negsuc 2) (pos 5)) (λ e. absurd (omega arith))
      (omega arith, omega arith) (omega arith, omega arith)

pos2len_mono_example :
    pos2len {F = Whole} 200_000 (some (pos 3)) ≤ℤ pos2len 200_000 (some (pos 400_001))
pos2len_mono_example =
    pos2len_mono Whole-IsIeee 200_000 (some (pos 3)) (some (pos 400_001)) (omega arith)
      (omega arith) refl

abbrev south_west : Vector2 Whole
south_west = vector (some (negsuc 299_999)) (some (negsuc 4))

pos2map_tag-IsGridTag_example : IsGridTag Whole (pos2map_tag 200_000 south_west)
unfolding negate
pos2map_tag-IsGridTag_example =
    pos2map_tag-IsGridTag Whole-IsIeee south_west ((refl, refl), (refl, refl)) (inr (refl, refl))
      (inr (refl, refl))

abbrev on_axis : Vector2 Whole
on_axis = vector (some (pos 0)) (some (pos 7))

pos2map_tag_lost_example :
    let t = pos2map_tag 200_000 on_axis in
    t.field_id
    ≢ get_field_id_from_len_or_pos (whole_float.of_int t.x_len) (whole_float.of_int t.y_len)
pos2map_tag_lost_example =
    pos2map_tag_lost Whole-IsIeee 200_000 on_axis (omega arith) (omega arith) (inl (refl, refl))

abbrev node : NodeInfo
node = record {
  node_addr = codes "127.0.0.1";
  main_channel_port = 5000;
  heartbeat_port = 5001;
  pub_port = 5002;
  node_type = NodeType.slave;
}

abbrev node_later : NodeInfo
node_later = record node { node_type = NodeType.master }

get_key-injective_example :
    (node.node_addr ≡ node_later.node_addr)
    × (node.main_channel_port ≡ node_later.main_channel_port)
unfolding get_key
get_key-injective_example = get_key-injective node node_later refl

abbrev walker : User Whole
walker = record {
  id = pos 1;
  position = vector (some (pos 999_999)) (some (pos 4));
  velocity = record { direction = right; len = some (pos 10) };
  money = 0;
}

shift_inside_example : IsInWorld (shift walker (some (pos 1))).position
unfolding is_quals_zero ◌+ℤ◌
shift_inside_example = shift_inside Whole-IsIeee walker (some (pos 1)) refl refl refl
