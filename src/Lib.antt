-- ===== src/Lib.antt =====
-- Verification of the distributed game server.
--
-- The program is a cluster of game servers. Each server holds a world of users, cut into a hundred
-- maps; one server is the master, the others are its slaves. Clients log in, turn their users, pay
-- the users around theirs (aoe) and query rectangles. A registry centre knows the servers, watches
-- their heartbeats, names the master and sends clients to the server with the least load.
--
-- Where what is modelled:
--   Prelude      numbers, text, lists and panics. `Outcome` is a computation that may panic; a panic
--                keeps what was written before it.
--   HashMap      std::collections::HashMap as an association list, whose order stands for the order
--                of iteration. No theorem fixes that order.
--   Float        f32 as an interface, with the laws of IEEE 754 and of `as i32` that proofs use;
--                Float.Whole shows that they can hold.
--   Common       crates/common/src: basic.rs (vectors, users, `shift`), node.rs, message.rs (JSON is
--                an interface), result.rs
--   MapTool      crates/common_server/src/map_tool.rs: the tag of the map of a position
--   Config       crates/server/src/config.rs
--   World        crates/server/src/world.rs: State has the data and `init`, Users `add_user`,
--                `remove_user`, `remove_user_by_client_id`, `set_velocity` and `update_state_info`,
--                Query `query`, `get_cover_map_by_scope` and `query_by_circle_scope`, Aoe `aoe`,
--                Update `update`, Sync `get_world_sync_dto` and `sync_from_master`, Valid the
--                well-formedness of a world, Init is about the first world, Invariant the interface
--                of what every operation keeps, which Valid.Kept and Tags fill
--   Registry     crates/registry_center/src: State is app_context.rs, Handle zmq_handler.rs, Monitor
--                server_keeping.rs, Balance handler.rs, Valid the well-formedness of its context,
--                Main main.rs, Tasks a registration lock by lock, Peers and Reach what the parts of
--                handlers and the rounds of the monitor lead to from the first context
--   Server       crates/server/src: State is server_context.rs, Handle main_handle.rs, Heartbeat
--                heartbeat.rs and crates/heartbeat, Run the updating thread and the load test of
--                server_run.rs with the tasks that it starts, Distribute distribute.rs, http_rpc.rs
--                and `run`, Cluster the steps of a master and a slave that run side by side,
--                SnowId snow_id.rs, which main.rs has commented out: numbers in a radix of up to 64
--   Client       crates/client/src: the login, the heartbeat's message and the choice of a server
--
-- A loop over integers runs on the number of its rounds: `rounds low high` is at least the number of
-- integers from `low` to `high`, which the loops of `get_cover_map_by_scope` pass one by one, and
-- World.Query.Cover shows that it reaches every one. `aoe` takes whether the build checks overflow.
-- The times of the registry centre's clock are arguments, as are random choices. A handler of
-- a server is one step: the interleaving of two of them between their locks is not modelled. A
-- registration with the registry centre is a task that takes its locks one by one (Registry.Tasks),
-- and `register` is that task without another in between. A sleep of a tick panics where
-- Duration::from_secs_f32 does.
-- `base_10_to_n` runs on the number of its calls: 65 are enough for 64 bits and a radix of 2 or more,
-- since every call halves the number at least.
-- A channel is the list of the messages that were sent into it, the latest first. A step relation on
-- a master and a slave (Server.Cluster) has one step for each handled message, each round of a
-- thread and each sync, in any order; messages, times and random choices are arguments of the steps,
-- so that nothing is assumed of the network. The reading of a ZeroMQ message as a text (`try_into`)
-- and bincode are arguments too. The f32 of a mean is `sum_costs`, from the left.
--
-- Not modelled: sockets, tasks and the capacity of channels as such, the wait for a lock, the
-- connections of connect_to_master and subscribe_to_master_pub, pub_world_sync_thread's encoding,
-- reading the configuration, logging, the libraries called, and get_snow_id, which takes its number
-- from one of them. The tests of crates/client and of the servers are switched off by cfg(False).
pub mod Prelude
pub mod HashMap
pub mod Float
pub mod Common
pub mod MapTool
pub mod World
pub mod Config
pub mod Registry
pub mod Tests
pub mod Server
pub mod Client
