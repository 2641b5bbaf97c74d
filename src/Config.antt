-- ===== src/Config.antt =====
-- crates/server/src/config.rs: what a server reads at start.
use rust_distributed_gameser.Prelude.{ℕ, Bool}
use rust_distributed_gameser.Prelude.Int.{ℤ}
use rust_distributed_gameser.Prelude.Text.{Text}
use rust_distributed_gameser.Common.Node.{NodeInfo}

pub data Mode : Type 0 where
  single cluster : Mode

pub record App : Type 0 where
  pub mode : Mode

pub record Basic (F : Type 0) : Type 0 where
  pub tick_time : F
  pub heartbeat : ℤ
  pub max_aoe_radius : F
  pub max_connection : ℕ

pub record Registry : Type 0 where
  pub addr : Text
  pub port : ℕ

pub record OverloadTest : Type 0 where
  pub enable : Bool
  pub max_user_count : ℕ

pub record AnotherTest : Type 0 where
  pub enable : Bool

pub record Test : Type 0 where
  pub overload_test : OverloadTest
  pub another_test : AnotherTest

pub record GameServerConf (F : Type 0) : Type 0 where
  pub app : App
  pub basic : Basic F
  pub node : NodeInfo
  pub registry : Registry
  pub test : Test
