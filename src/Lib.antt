-- ===== src/Lib.antt =====
-- Sandwich Producer runs the shards of a Discord bot: it asks Discord how many shards to run, opens
-- a group of websocket connections to the gateway, one for each shard of its cluster, and replaces
-- the group when the bot is scaled. The program is the Go code under gateway/, client/ and events/.
--
-- Parts, and the files that model them:
--   Utils         gateway/utils.go: `contains`, and DeepEqualExports (Exports), on structs as the
--                 package reflect sees them (Reflection).
--   Events        events/: the packet types as records, the constant blocks as data types with their
--                 numbers, and what reflection sees of a user, a role and an overwrite (Reflected).
--   Limiter       gateway/limiter.go: Concurrency is ConcurrencyLimiter (Wait is `receive` and then
--                 `count_up`, FreeTicket is `send` and then `count_down`), Duration is
--                 DefaultLimiter (Lock is `lock`, one round of it `pass`).
--   Buckets       gateway/bucket_store.go: limiters by name. CreateBucket, WaitForBucket and
--                 CreateWaitForBucket are `create_bucket`, `wait_for_bucket` and
--                 `create_wait_for_bucket`.
--   Identify      gateway/manager.go, WaitForIdentifyRatelimit: the number of a shard's bucket
--                 (`identify_key`), and the wait for it (Ratelimit), whose name Decimal prints.
--   Shard         gateway/shard.go: the operations of a shard. Its child Connect has `connect`, cut
--                 into its phases, and Open (`open_shard`).
--                 Walk goes through a connection by its stages, for any property of the states in
--                 them; Protocol is the state machine that the actions follow. Sharing takes Open and
--                 the Close calls of Stop apart at each use of the connection (`loop_step`,
--                 `close_step`), and `run` takes their steps in any order.
--   Startup       gateway/shard.go, the start of `connect`: the waits before the dial, on the state that
--                 the shards of a manager share.
--   ShardGroup    gateway/shard_group.go: NewShardGroup, Spawn, Start and Stop, and Scale of
--                 gateway/manager.go. Its child Steps has the goroutines of a Start, interleaved,
--                 and Overlap calls of Scale that overlap, while the shards of the groups run
--                 (`ScaleMove`): `replay` is a group after a list of what has been done to it.
--   Sharding      gateway/manager.go: the number of shards, and CreateShardIDs.
--   Manager       gateway/manager.go: NewManager, Open, GatewayScale, Scale, Close.
--   Client        client/client.go: HandleRequest and FetchJSON.
--   Connection    gateway/connection.go: the wrapper's calls, and their steps at its mutexes (Steps).
--   Zstd          gateway/zstd.go: NewZstd, Compress and Decompress, and ChanWriter, whose Write is
--                 `send_all` and whose Close is `close_writer`.
--   ClearKeys     gateway/state.go: the script of ClearKeys and its result.
--   Program       main.go: main. Its child Text has the configuration's text as the JSON value that it
--                 denotes, and Config the fields that the tags of Configuration (gateway/manager.go)
--                 give for its keys; `run_program` is main from there on, `run_main` main once the
--                 configuration has been read, both up to the wait for a signal.
--   Base          shared helpers. Examples: the theorems at concrete inputs.
--
-- How the parts meet: Manager.Open takes the answer of Client.FetchJSON, computes shard ids with
-- Sharding and scales with ShardGroup, which spawns shards; a shard's `connect` waits on the bucket
-- that Identify names and on the concurrency limiter, which stand in its log as actions, and which
-- Startup composes from Identify, Buckets and Limiter as the calls that they are.
--
-- Conventions:
--   * A call returns (`ret`) or panics (`panic`). An `error` result is an `Option GoError` beside
--     the other results. A nil pointer is `none`, and its use is a panic.
--   * An int is a ℤ, with the wrap-around of int32 and int64 where the code's arithmetic can
--     overflow (`wrap32`, `wrap64`). A time or duration is a number of nanoseconds.
--   * A pointer that is shared (a group, a limiter of the store) is an address in a list.
--   * What the outside answers, that is the network, the clock, the ticker and the libraries, is an
--     argument: a record of functions, or a script with one entry for each call. Where a script is
--     used up the result says so (`running`, `waiting`), and nothing is claimed about an end.
--   * Goroutines that share a limiter, a store, a connection, a group or the manager's map of groups
--     take their atomic steps in any order (Base/Interleaving): a relation with one constructor for
--     each step. Those that share a shard do so by a function (Shard/Sharing) that is given the order
--     as a list. What running shards do while calls of Scale overlap is a function of each shard
--     (`Runs` of ShardGroup/Overlap), which is left open.
--
-- Bounds: the loop of ClearKeys is on fuel, and a hypothesis gives the length of the table that
-- SCAN goes through. `decimal` prints up to twenty digits, and an int has at most nineteen.
-- `shard_loop` gets as many rounds as lie between its two ends, which are all that the loop makes.
-- `float64` looks at ten binades above 2 ^ 53, since an int is below 2 ^ 63. The counter of the
-- concurrency limiter is an int32, so its theorems ask for fewer than 2 ^ 31 goroutines; the slots of
-- the duration limiter are one too, and the theorem about its overdraft asks for fewer than 2 ^ 31
-- slots and goroutines. The counter of groups is an int64, so the theorems about scaling ask for fewer
-- than 2 ^ 63 starts.
--
-- Not modelled: log lines, and the banner; the wait for a signal, and what running shards do while
-- the Close that follows it goes through the groups (Shard/Sharing has this for one shard); of a configuration's text, `null`,
-- numbers with a fraction and the keys of an activity; events/snowflake.go, which sets a variable of a
-- library; gateway/consts.go. The compressor, the websocket libraries, Redis, the HTTP and JSON
-- libraries and the services are parameters. A chunk of a stream is a value: that it shares the
-- compressor's buffer is left out.
pub mod Base
pub mod Events
pub mod Utils
pub mod Identify
pub mod Shard
pub mod Limiter
pub mod Buckets
pub mod Sharding
pub mod ShardGroup
pub mod Client
pub mod Connection
pub mod Zstd
pub mod ClearKeys
pub mod Startup
pub mod Manager
pub mod Program
pub mod Examples
