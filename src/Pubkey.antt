-- ===== src/Pubkey.antt =====
-- pebble-core/pubkey/pubkey.go: keys, signing and verification. Ed25519 and the tezos library are
-- outside the repository, and are parameters.
pub mod Text
use pebble_voting_app.Base.{
  ℕ, [], ◌∷◌, Bool, Bytes, Result, ok, err, panic, stuck, length, ◌==◌, if◌then◌else◌, ◌>>=◌,
  invalid_key_length, unknown_key_type, invalid_signature,
}

-- The byte in front of a key.
abbrev pub key_type_unknown : ℕ
key_type_unknown = 0

abbrev pub key_type_ed25519 : ℕ
key_type_ed25519 = 1

abbrev pub key_type_tezos : ℕ
key_type_tezos = 2

pub record PrivateKey : Type 0 where
  pub public : Bytes
  pub secret : Bytes

unfoldable pub new_public_key : ℕ → Bytes → Bytes
new_public_key t k = t ∷ k

unfoldable pub key_type : Bytes → ℕ
key_type [] = key_type_unknown
key_type (t ∷ k) = t

pub record Schemes : Type 1 where
  pub TezosKey : Type 0
  pub TezosSecret : Type 0
  pub TezosSignature : Type 0
  pub sha256 : Bytes → Bytes
  pub ed25519_public_key_size : ℕ
  pub ed25519_generate : Result (Bytes × Bytes)
  pub ed25519_sign : (seed msg : Bytes) → Result Bytes
  pub ed25519_verify : (key msg sig : Bytes) → Bool
  pub tezos_generate : Result TezosSecret
  pub tezos_public : TezosSecret → TezosKey
  pub tezos_secret_string : TezosSecret → Bytes
  pub tezos_key_bytes : TezosKey → Bytes
  pub tezos_key_string : TezosKey → Bytes
  pub tezos_unmarshal_text : Bytes → Result TezosKey
  pub tezos_marshal : TezosKey → Result Bytes
  pub tezos_parse_secret : Bytes → Result TezosSecret
  pub tezos_sign : TezosSecret → Bytes → Result Bytes
  pub tezos_decode_key : Bytes → Result TezosKey
  pub tezos_unmarshal : Bytes → Result TezosSignature
  pub tezos_verify : TezosKey → Bytes → TezosSignature → Result (Unit {0})

-- A call whose every error becomes `ErrInvalidSignature`.
abbrev pub or_invalid {ℓ} : {A : Type ℓ} → Result A → Result A
or_invalid (ok a) = ok a
or_invalid (err e) = err invalid_signature
or_invalid panic = panic
or_invalid stuck = stuck

module _ (schemes : Schemes) where
  open schemes use {
    sha256, ed25519_public_key_size, ed25519_sign, ed25519_verify, tezos_parse_secret, tezos_sign,
    tezos_decode_key, tezos_unmarshal, tezos_verify, ed25519_generate, tezos_generate, tezos_public,
    tezos_secret_string, tezos_key_bytes,
  }

  -- What the random source gives is part of `ed25519_generate`, the public key and the seed, and of
  -- `tezos_generate`.
  unfoldable pub generate_key : ℕ → Result PrivateKey
  unfolding new_public_key
  generate_key t =
      if t == key_type_ed25519
      then (do
        (key, seed) ← ed25519_generate
        ok (record { public = new_public_key t key; secret = seed }))
      else if t == key_type_tezos
      then (do
        priv ← tezos_generate
        ok (record {
          public = new_public_key t (tezos_key_bytes (tezos_public priv));
          secret = tezos_secret_string priv;
        }))
      else err unknown_key_type

  unfoldable pub sign : PrivateKey → Bytes → Result Bytes
  unfolding key_type
  sign k msg =
      if key_type k.public == key_type_ed25519
      then ed25519_sign k.secret msg
      else if key_type k.public == key_type_tezos
      then (do key ← tezos_parse_secret k.secret; tezos_sign key (sha256 msg))
      else err unknown_key_type

  unfoldable pub verify : (key msg sig : Bytes) → Result (Unit {0})
  verify [] msg sig = err invalid_key_length
  verify (t ∷ pk) msg sig =
      if t == key_type_ed25519
      then (if length pk == ed25519_public_key_size
          then (if ed25519_verify pk msg sig then ok tt else err invalid_signature)
          else err invalid_key_length)
      else if t == key_type_tezos
      then (do
        key ← tezos_decode_key pk
        signature ← or_invalid (tezos_unmarshal sig)
        or_invalid (tezos_verify key (sha256 msg) signature))
      else err unknown_key_type
