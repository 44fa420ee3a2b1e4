-- ===== src/Structs.antt =====
-- pebble-core/voting/structs: what travels over the broadcast channel, with its wire format.
pub mod CredentialMessage
pub mod DecryptionMessage
pub mod EncryptedBallot
pub mod SignedBallot
pub mod EligibilityList
