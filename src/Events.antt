-- ===== src/Events.antt =====
-- events/: the codes and the packets of the gateway protocol.
pub mod Codes
pub mod Constants
pub mod Enums
pub mod Packets
pub mod Presence
pub mod Users
pub mod Channels
pub mod Members
pub mod Guilds
pub mod Embeds
pub mod Messages
pub mod Notices
pub mod Reflected
