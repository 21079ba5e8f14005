-- ===== src/Events/Codes.antt =====
-- events/gateway.go: the operation codes, the intents and the close codes. Each constant block of
-- the source is a data type, and a function gives the number that `iota` gives it.
use sandwich_producer.Base.{ℕ, ◌+◌}

-- GatewayOp is a uint8; the code 5 is skipped.
pub data GatewayOp : Type 0 where
  dispatch heartbeat identify status_update voice_state_update resume reconnect : GatewayOp
  request_guild_members invalid_session hello heartbeat_ack : GatewayOp

unfoldable pub op_code : GatewayOp → ℕ
op_code dispatch = 0
op_code heartbeat = 1
op_code identify = 2
op_code status_update = 3
op_code voice_state_update = 4
op_code resume = 6
op_code reconnect = 7
op_code request_guild_members = 8
op_code invalid_session = 9
op_code hello = 10
op_code heartbeat_ack = 11

-- The close codes: untyped constants, so an `int` wherever one is passed as an interface value.
pub data CloseCode : Type 0 where
  unknown_error unknown_op_code decode_error not_authenticated authentication_failed : CloseCode
  already_authenticated invalid_seq rate_limited session_timeout invalid_shard : CloseCode
  sharding_required : CloseCode

unfoldable pub close_code : CloseCode → ℕ
close_code unknown_error = 4000 + 0
close_code unknown_op_code = 4000 + 1
close_code decode_error = 4000 + 2
close_code not_authenticated = 4000 + 3
close_code authentication_failed = 4000 + 4
close_code already_authenticated = 4000 + 5
close_code invalid_seq = 4000 + 7
close_code rate_limited = 4000 + 8
close_code session_timeout = 4000 + 9
close_code invalid_shard = 4000 + 10
close_code sharding_required = 4000 + 11
