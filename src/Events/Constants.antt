-- ===== src/Events/Constants.antt =====
-- The constant blocks of events/: each is a data type, and a function gives the numbers.
use sandwich_producer.Base.{ℕ, ◌+◌, ◌^◌}

-- The intents: `1 << iota`.
pub data Intent : Type 0 where
  guilds guild_members guild_bans guild_emojis : Intent
  guild_integrations guild_webhooks guild_invites guild_voice_states : Intent
  guild_presences guild_messages guild_message_reactions guild_message_typing : Intent
  direct_messages direct_message_reactions direct_message_typing : Intent

unfoldable pub intent_bit : Intent → ℕ
intent_bit Intent.guilds = 2 ^ 0
intent_bit Intent.guild_members = 2 ^ 1
intent_bit Intent.guild_bans = 2 ^ 2
intent_bit Intent.guild_emojis = 2 ^ 3
intent_bit Intent.guild_integrations = 2 ^ 4
intent_bit Intent.guild_webhooks = 2 ^ 5
intent_bit Intent.guild_invites = 2 ^ 6
intent_bit Intent.guild_voice_states = 2 ^ 7
intent_bit Intent.guild_presences = 2 ^ 8
intent_bit Intent.guild_messages = 2 ^ 9
intent_bit Intent.guild_message_reactions = 2 ^ 10
intent_bit Intent.guild_message_typing = 2 ^ 11
intent_bit Intent.direct_messages = 2 ^ 12
intent_bit Intent.direct_message_reactions = 2 ^ 13
intent_bit Intent.direct_message_typing = 2 ^ 14

-- The flags of an activity: `1 << iota`.
pub data ActivityFlag : Type 0 where
  instance join spectate join_request : ActivityFlag
  sync play : ActivityFlag

unfoldable pub activity_flag_bit : ActivityFlag → ℕ
activity_flag_bit ActivityFlag.instance = 2 ^ 0
activity_flag_bit ActivityFlag.join = 2 ^ 1
activity_flag_bit ActivityFlag.spectate = 2 ^ 2
activity_flag_bit ActivityFlag.join_request = 2 ^ 3
activity_flag_bit ActivityFlag.sync = 2 ^ 4
activity_flag_bit ActivityFlag.play = 2 ^ 5

-- The operation codes of voice connections.
pub data VoiceOp : Type 0 where
  identify select_protocol ready heartbeat : VoiceOp
  session_description speaking heartbeat_ack resume : VoiceOp
  hello resumed client_disconnect : VoiceOp

unfoldable pub voice_op_code : VoiceOp → ℕ
voice_op_code VoiceOp.identify = 0
voice_op_code VoiceOp.select_protocol = 1
voice_op_code VoiceOp.ready = 2
voice_op_code VoiceOp.heartbeat = 3
voice_op_code VoiceOp.session_description = 4
voice_op_code VoiceOp.speaking = 5
voice_op_code VoiceOp.heartbeat_ack = 6
voice_op_code VoiceOp.resume = 7
voice_op_code VoiceOp.hello = 8
voice_op_code VoiceOp.resumed = 9
voice_op_code VoiceOp.client_disconnect = 13

-- The close codes of voice connections.
pub data VoiceCloseCode : Type 0 where
  unknown_op_code not_authenticate authentication_failed already_authenticated : VoiceCloseCode
  session_no_longer_valid session_timeout server_not_found unknown_protocol : VoiceCloseCode
  disconnected voice_server_crashed unknown_encryption_mode : VoiceCloseCode

unfoldable pub voice_close_code : VoiceCloseCode → ℕ
voice_close_code VoiceCloseCode.unknown_op_code = 4000 + 1
voice_close_code VoiceCloseCode.not_authenticate = 4000 + 3
voice_close_code VoiceCloseCode.authentication_failed = 4000 + 4
voice_close_code VoiceCloseCode.already_authenticated = 4000 + 5
voice_close_code VoiceCloseCode.session_no_longer_valid = 4000 + 6
voice_close_code VoiceCloseCode.session_timeout = 4000 + 9
voice_close_code VoiceCloseCode.server_not_found = 4000 + 11
voice_close_code VoiceCloseCode.unknown_protocol = 4000 + 12
voice_close_code VoiceCloseCode.disconnected = 4000 + 14
voice_close_code VoiceCloseCode.voice_server_crashed = 4000 + 15
voice_close_code VoiceCloseCode.unknown_encryption_mode = 4000 + 16
