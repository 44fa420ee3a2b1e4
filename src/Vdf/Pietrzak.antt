-- ===== src/Vdf/Pietrzak.antt =====
-- pebble-core/vdf/pietrzak.go: Pietrzak's proof of repeated squaring. SHA-256 and the primality test
-- are parameters.
pub mod Squaring
pub mod Rounds
pub mod Completeness
pub mod Accepted
pub mod Factored
pub mod Denial
pub mod Shortcut
use pebble_voting_app.Base.{
  ℕ, zero, suc, ◌+◌, ◌-◌, ◌*◌, ◌/◌, ◌%◌, ◌^◌, [], ◌∷◌, ◌++◌, List, Bool, ◌&&◌, not, Option, none,
  some, Bytes, Result, ok, err, panic, stuck, ◌>>=◌, length, take, drop, ltb, leb, ◌==◌,
  if◌then◌else◌, vdf_parse, vdf_odd_difficulty, vdf_output_range, vdf_factor, vdf_trapdoor,
  vdf_proof, vdf_final,
}
use pebble_voting_app.Util.Buffer.{be64, shift_in}
use pebble_voting_app.Vdf.{VdfSolution}
use pebble_voting_app.Vdf.BigInt.{fill_bytes, set_bytes, mod_exp}

-- `delta`, below which the squaring is checked directly.
unfoldable pub delta : ℕ
delta = 4096

-- modulusBits / 8
abbrev pub int_bytes : ℕ
int_bytes = 128

pub record PietrzakVdf : Type 0 where
  pub max_difficulty : ℕ
  pub difficulty_conversion : ℕ

-- intSerializer.ReadUint64: all ones on a short buffer.
unfoldable pub read_uint64 : Bytes → ℕ × Bytes
read_uint64 (a ∷ b ∷ c ∷ d ∷ e ∷ f ∷ g ∷ h ∷ buf) =
    let m = 2 ^ 64 in
    let high = shift_in m (shift_in m (shift_in m a b) c) d in
    (shift_in m (shift_in m (shift_in m (shift_in m high e) f) g) h, buf)
read_uint64 buf = (2 ^ 64 - 1, buf)

-- intSerializer.Read: nil on a short buffer.
unfoldable pub read_int : Bytes → Option ℕ × Bytes
read_int buf =
    if ltb (length buf) int_bytes
    then (none, buf)
    else (some (set_bytes (take int_bytes buf)), drop int_bytes buf)

-- repeatedSquarer.Eval. Each round lowers t by delta, so t + 1 rounds are enough.
unfoldable pub eval_loop : ℕ → (n r t : ℕ) → ℕ
eval_loop zero n r t = r
eval_loop (suc fuel) n r t =
    let rest = eval_loop fuel n (mod_exp r (2 ^ delta) n) (t - delta) in
    if ltb t delta then (if t == 0 then r else mod_exp r (2 ^ t) n) else rest

unfoldable pub eval : (n x t : ℕ) → ℕ
unfolding eval_loop
eval n x t = eval_loop (suc t) n x t

-- trapdoorSquarer.Eval, for the modulus p * q and a t below 2 ^ 63, so that `int64(t)` is t.
unfoldable pub trapdoor_eval : (p q x t : ℕ) → ℕ
trapdoor_eval p q x t = mod_exp x (mod_exp 2 t ((p - 1) * (q - 1))) (p * q)

-- expAndMul: a ^ b * c % n
unfoldable pub exp_and_mul : (a b c n : ℕ) → ℕ
exp_and_mul a b c n = mod_exp a b n * c % n

-- `if t%2 != 0 { t++; y = y * y % n }`
abbrev pub even_step : (n t y : ℕ) → ℕ × ℕ
even_step n t y = if t % 2 == 0 then (t, y) else ((t + 1) % 2 ^ 64, y * y % n)

-- `t - 1`, in uint64.
abbrev pub minus_one : ℕ → ℕ
minus_one t = (t + (2 ^ 64 - 1)) % 2 ^ 64

-- The input is parsed into t, n and x, and checked against the largest difficulty.
abbrev pub parsed {ℓ} : {A : Type ℓ} → ℕ → Bytes → ((t n x : ℕ) → Result A) → Result A
parsed max input k =
    let (t, s1) = read_uint64 input in
    let (on, s2) = read_int s1 in
    let (ox, s3) = read_int s2 in
    if ltb max t then err vdf_parse else elim on [
      | none ↦ err vdf_parse
      | some n ↦ elim ox [ none ↦ err vdf_parse | some x ↦ k t n x ]
    ]

-- The branch for a proof that is a factor of n; `q.DivMod` panics for p = 0.
unfoldable pub verify_factor :
    (probably_prime : ℕ → Bool) → (t n x y : ℕ) → (proof : Bytes) → Result (Unit {0})
verify_factor probably_prime t n x y proof =
    let p = set_bytes proof in
    let q = n / p in
    if p == 0
    then panic
    else if (n % p == 0)
        && ltb 2 p
        && ltb 2 q
        && not (p == q)
        && probably_prime p
        && probably_prime q
    then (if trapdoor_eval p q x t == y then ok tt else err vdf_trapdoor)
    else err vdf_factor

module _ (sha256 : Bytes → Bytes) where
  -- transcript.Init
  abbrev pub start : ℕ → Bytes
  start t = sha256 (be64 t)

  -- transcript.Add
  unfoldable pub add : Bytes → ℕ → Result Bytes
  add hash x = do b ← fill_bytes 256 x; ok (sha256 (hash ++ b))

  -- transcript.Challenge
  abbrev pub challenge : Bytes → ℕ
  challenge hash = set_bytes (take 16 hash)

  -- The transcript after the statement (t, n, x, y).
  unfoldable pub opening : (t n x y : ℕ) → Result Bytes
  opening t n x y = do h1 ← add (start t) n; h2 ← add h1 x; add h2 y

  -- The loop of `solve`. A round halves t, so that 64 rounds are enough for a uint64.
  unfoldable pub solve_loop : ℕ → (hash : Bytes) → (n x y t : ℕ) → (proof : Bytes) → Result Bytes
  solve_loop zero hash n x y t proof = stuck
  solve_loop (suc fuel) hash n x y t proof =
      let (t1, y1) = even_step n t y in
      let t2 = t1 / 2 in
      let root = eval n x (minus_one t2) in
      let mu = root * root % n in
      let rest = fill_bytes int_bytes root >>= λ b. add hash root >>= λ hash'.
      solve_loop fuel hash' n (exp_and_mul x (challenge hash') mu n)
        (exp_and_mul mu (challenge hash') y1 n) t2 (proof ++ b) in
      if leb t delta then ok proof else rest

  -- `solve` on a parsed input; `x.Rem(x, n)` panics for n = 0.
  unfoldable pub solve_parsed : (input : Bytes) → (t n x0 : ℕ) → Result VdfSolution
  solve_parsed input t n x0 = if n == 0 then panic else (do
    let x = x0 % n
    let y = eval n x t
    output ← fill_bytes int_bytes y
    hash ← opening t n x y
    proof ← solve_loop 64 hash n x y t []
    ok (record { input = input; output = output; proof = proof }))

  unfoldable pub solve : PietrzakVdf → (input : Bytes) → Result VdfSolution
  solve vdf input = parsed vdf.max_difficulty input (solve_parsed input)

  -- The loop of `Verify` and its final check.
  unfoldable pub verify_loop :
      ℕ → (hash : Bytes) → (n x y t : ℕ) → (proof : Bytes) → Result (Unit {0})
  verify_loop zero hash n x y t proof = stuck
  verify_loop (suc fuel) hash n x y t proof =
      let (t1, y1) = even_step n t y in
      let t2 = t1 / 2 in
      let (oroot, proof') = read_int proof in
      let rest : Result (Unit {0}) = elim oroot [
        | none ↦ err vdf_proof
        | some root ↦
            let mu = root * root % n in
            add hash root >>= λ hash'.
            verify_loop fuel hash' n (exp_and_mul x (challenge hash') mu n)
              (exp_and_mul mu (challenge hash') y1 n) t2 proof'
      ] in
      if leb t delta then (if eval n x t == y then ok tt else err vdf_final) else rest

  unfoldable pub verify_parsed :
      (probably_prime : ℕ → Bool) → (output proof : Bytes) → (t n x0 : ℕ) → Result (Unit {0})
  verify_parsed probably_prime output proof t n x0 =
      let y = set_bytes output in
      let x = x0 % n in
      if not (t % 2 == 0)
      then err vdf_odd_difficulty
      else if n == 0
      then panic
      else if leb n y
      then err vdf_output_range
      else if length proof == 64
      then verify_factor probably_prime t n x y proof
      else (opening t n x y >>= λ hash. verify_loop 64 hash n x y t proof)

  unfoldable pub verify :
      (probably_prime : ℕ → Bool) → PietrzakVdf → VdfSolution → Result (Unit {0})
  verify probably_prime vdf sol =
      parsed vdf.max_difficulty sol.input (verify_parsed probably_prime sol.output sol.proof)

-- The t of `Create`, in uint64.
abbrev pub difficulty : PietrzakVdf → (seconds : ℕ) → ℕ
difficulty vdf seconds =
    let wanted = vdf.difficulty_conversion * seconds % 2 ^ 64 in
    if ltb vdf.max_difficulty wanted then vdf.max_difficulty else wanted

-- What `Create` draws: the primes p and q, and x below p * q.
unfoldable pub create :
    PietrzakVdf → (seconds : ℕ) → (p q : Result ℕ) → (below : ℕ → Result ℕ) → Result VdfSolution
create vdf seconds draw_p draw_q below = do
  let t = difficulty vdf seconds
  p ← draw_p
  q ← draw_q
  let n = p * q
  x ← below n
  let y = trapdoor_eval p q x t
  n_bytes ← fill_bytes int_bytes n
  x_bytes ← fill_bytes int_bytes x
  output ← fill_bytes int_bytes y
  proof ← fill_bytes 64 p
  ok (record { input = be64 t ++ (n_bytes ++ x_bytes); output = output; proof = proof })
