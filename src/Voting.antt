-- ===== src/Voting.antt =====
-- pebble-core/voting: the election protocol.
pub mod Params
pub mod Client
pub mod Creation
pub mod Durations
pub mod Message
pub mod Election
pub mod Signing
pub mod Invitation
pub mod Casting
