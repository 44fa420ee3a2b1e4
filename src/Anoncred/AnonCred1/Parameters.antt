-- ===== src/Anoncred/AnonCred1/Parameters.antt =====
-- anoncred1.go: the parameters as bytes. The four numbers in front are little-endian.
pub mod RoundTrip
use pebble_voting_app.Base.{
  ℕ, ◌+◌, ◌-◌, ◌*◌, ◌/◌, ◌%◌, ◌^◌, [], ◌∷◌, ◌++◌, Bytes, Option, none, some, Result, ok, err, panic,
  stuck, ◌>>=◌, length, take, drop, ltb, ◌||◌, if◌then◌else◌,
}
use pebble_voting_app.Anoncred.Gnark.{Gnark}
use pebble_voting_app.Anoncred.AnonCred1.{AnonCred1}

-- uint32(value), a byte at a time.
unfoldable pub append_uint32 : (slice : Bytes) → (value : ℕ) → Bytes
append_uint32 slice value =
    slice ++ (value % 256 ∷ value / 2 ^ 8 % 256 ∷ value / 2 ^ 16 % 256 ∷ value / 2 ^ 24 % 256 ∷ [])

-- Bytes do not overlap, so the sum is Go's `|`.
unfoldable pub get_uint32 : Bytes → Result ℕ
get_uint32 (a ∷ b ∷ c ∷ d ∷ s) = ok (a + b * 2 ^ 8 + c * 2 ^ 16 + d * 2 ^ 24)
get_uint32 s = panic

-- The depth and the lengths of the three parts.
abbrev pub header : (depth cs pk vk : ℕ) → Bytes
header depth cs pk vk =
    let start = append_uint32 (append_uint32 [] (depth % 2 ^ 32)) (cs % 2 ^ 32) in
    append_uint32 (append_uint32 start (pk % 2 ^ 32)) (vk % 2 ^ 32)

-- The header and the parts, one after the other.
abbrev pub joined : (depth : ℕ) → (cs pk vk : Bytes) → Bytes
joined depth cs pk vk = ((header depth (length cs) (length pk) (length vk) ++ cs) ++ pk) ++ vk

-- buffer[i:j], where the buffer has no spare capacity.
abbrev pub slice : Bytes → (i j : ℕ) → Result Bytes
slice b i j = if ltb j i || ltb (length b) j then panic else ok (take (j - i) (drop i b))

-- buffer[i:]
abbrev pub slice_from : Bytes → (i : ℕ) → Result Bytes
slice_from b i = if ltb (length b) i then panic else ok (drop i b)

module _ (g : Gnark) where
  open g use {
    write_constraints, write_proving_key, write_verifying_key, read_constraints, read_proving_key,
    read_verifying_key,
  }

  unfoldable pub proving_key_to_bytes : AnonCred1 g → Result Bytes
  proving_key_to_bytes params = write_proving_key params.pk

  unfoldable pub verifying_key_to_bytes : AnonCred1 g → Result Bytes
  verifying_key_to_bytes params = write_verifying_key params.vk

  -- The key of the receiver is replaced; an error leaves it with a key that is not usable.
  unfoldable pub proving_key_from_bytes : AnonCred1 g → Bytes → Result (AnonCred1 g)
  proving_key_from_bytes params buffer = do
    pk ← read_proving_key buffer
    ok (record params { pk = pk })

  unfoldable pub verifying_key_from_bytes : AnonCred1 g → Bytes → Result (AnonCred1 g)
  verifying_key_from_bytes params buffer = do
    vk ← read_verifying_key buffer
    ok (record params { vk = vk })

  unfoldable pub to_bytes : AnonCred1 g → Result Bytes
  to_bytes params = do
    cs ← write_constraints params.cs
    pk ← write_proving_key params.pk
    vk ← write_verifying_key params.vk
    ok (joined params.depth cs pk vk)

  -- The receiver's old fields are all replaced when no error is returned.
  unfoldable pub from_bytes : Bytes → Result (AnonCred1 g)
  unfolding get_uint32
  from_bytes buffer = do
    depth ← get_uint32 buffer
    at4 ← slice_from buffer 4
    cs_len ← get_uint32 at4
    let pk_start = 16 + cs_len
    at8 ← slice_from buffer 8
    pk_len ← get_uint32 at8
    let vk_start = pk_start + pk_len
    at12 ← slice_from buffer 12
    vk_len ← get_uint32 at12
    let vk_end = vk_start + vk_len
    cs_bytes ← slice buffer 16 pk_start
    cs ← read_constraints cs_bytes
    pk_bytes ← slice buffer pk_start vk_start
    pk ← read_proving_key pk_bytes
    vk_bytes ← slice buffer vk_start vk_end
    vk ← read_verifying_key vk_bytes
    ok (record { depth = depth; cs = cs; pk = pk; vk = vk })

  -- anoncred1_instance.go, `init`: the instance that is set, or nil. `file` is what os.ReadFile
  -- gives.
  loaded : Result (AnonCred1 g) → Result (Option (AnonCred1 g))
  loaded (ok params) = ok (some params)
  loaded (err e) = ok none
  loaded panic = panic
  loaded stuck = stuck

  unfoldable pub instance_of : (file : Result Bytes) → Result (Option (AnonCred1 g))
  unfolding loaded from_bytes
  instance_of file = loaded (do buffer ← file; from_bytes buffer)
