-- ===== src/Vdf/Pietrzak/Completeness.antt =====
-- pietrzak.go: the loops of `solve` and `Verify` side by side.
use native.Mathlib.Nat.{pow-zero, mod-lt, pow-suc}
use pebble_voting_app.Base.{
  ℕ, zero, suc, ◌+◌, ◌-◌, ◌*◌, ◌/◌, ◌%◌, ◌^◌, ◌≤◌, ◌<◌, ◌≡◌, ◌∙◌, ap, sym, refl, arith, [], ◌++◌,
  append-nil, append_assoc, Bytes, ok, length, length-append, some, leb, Bool-cases, inl, inr, true,
  false, ==_refl, leb→lt, le→leb,
}
use pebble_voting_app.Util.Buffer.Words.{take_exact, drop_exact, long_enough}
use pebble_voting_app.Vdf.BigInt.{to_be, fill_bytes, length-to_be, set_bytes-to_be, fill_bytes-ok}
use pebble_voting_app.Vdf.Pietrzak.{
  delta, int_bytes, read_int, eval, exp_and_mul, even_step, minus_one, add, challenge, solve_loop,
  verify_loop,
}
use pebble_voting_app.Vdf.Pietrzak.Squaring.{eval_lem}
use pebble_voting_app.Vdf.Pietrzak.Rounds.{Claim, even_step_lem, midpoint, fold_lem}

-- A number that fits the serializer.
abbrev pub IsShort : ℕ → Type 0
IsShort x = x < 256 ^ int_bytes

pub read_int-to_be :
    (x : ℕ) (rest : Bytes) → IsShort x → read_int (to_be int_bytes x ++ rest) ≡ (some x, rest)
unfolding read_int
read_int-to_be x rest h =
    let p = to_be int_bytes x in
    let l = length-to_be int_bytes x in
    rw (
      long_enough p rest int_bytes l,
      take_exact p rest int_bytes l,
      drop_exact p rest int_bytes l,
      set_bytes-to_be int_bytes x h,
    )

module _ (sha256 : Bytes → Bytes) where
  pub add-ok : (hash : Bytes) (x : ℕ) → IsShort x → (h : Bytes) × (add sha256 hash x ≡ ok h)
  unfolding add
  add-ok hash x s = (sha256 (hash ++ to_be 256 x), rw (fill_bytes-ok 256 x (omega arith)))

  solve_round :
      (fuel : ℕ) (hash h b acc : Bytes) (n x y t t2 y1 : ℕ)
      → 0 < t2
      → t2 < 2 ^ 64
      → leb t delta ≡ false
      → even_step n t y ≡ (t2 + t2, y1)
      → fill_bytes int_bytes (eval n x (t2 - 1)) ≡ ok b
      → add sha256 hash (eval n x (t2 - 1)) ≡ ok h
      → (let mu = eval n x (t2 - 1) * eval n x (t2 - 1) % n in
          solve_loop sha256 (suc fuel) hash n x y t acc
          ≡ solve_loop sha256 fuel h n
              (exp_and_mul x (challenge sha256 h) mu n)
              (exp_and_mul mu (challenge sha256 h) y1 n)
              t2
              (acc ++ b))
  unfolding solve_loop
  solve_round fuel hash h b acc n x y t t2 y1 p w e1 e2 e3 e4 =
      let halved : (t2 + t2) / 2 ≡ t2 = omega arith in
      let less : minus_one t2 ≡ t2 - 1 = omega (arith, p, w) in rw (e1, e2, halved, less, e3, e4)

  verify_round :
      (fuel : ℕ) (hash h rest : Bytes) (n x y t t2 y1 root : ℕ)
      → leb t delta ≡ false
      → even_step n t y ≡ (t2 + t2, y1)
      → IsShort root
      → add sha256 hash root ≡ ok h
      → (let mu = root * root % n in
          verify_loop sha256 (suc fuel) hash n x y t (to_be int_bytes root ++ rest)
          ≡ verify_loop sha256 fuel h n
              (exp_and_mul x (challenge sha256 h) mu n)
              (exp_and_mul mu (challenge sha256 h) y1 n)
              t2
              rest)
  unfolding verify_loop
  verify_round fuel hash h rest n x y t t2 y1 root e1 e2 s e4 =
      let halved : (t2 + t2) / 2 ≡ t2 = omega arith in
      let mu = root * root % n in
      rw (e1, read_int-to_be root rest s, e4, e2, halved)
        (ap
          (λ p.
            verify_loop sha256 fuel h n (exp_and_mul x (challenge sha256 h) mu n)
              (exp_and_mul mu (challenge sha256 h) y1 n) t2 p.1)
          (read_int-to_be root rest s))

  -- The prover's loop returns, and the verifier's accepts the roots it wrote, whatever follows them.
  unfoldable pub IsAccepted : (fuel : ℕ) (hash acc : Bytes) (n x y t : ℕ) → Type 0
  IsAccepted fuel hash acc n x y t =
      (proof : Bytes) × (solve_loop sha256 fuel hash n x y t acc ≡ ok (acc ++ proof))
      × (length proof % int_bytes ≡ 0)
      × ((rest : Bytes) → verify_loop sha256 fuel hash n x y t (proof ++ rest) ≡ ok tt)

  short :
      (fuel : ℕ) (hash acc : Bytes) (n x y t : ℕ)
      → Claim n x y t
      → leb t delta ≡ true
      → IsAccepted (suc fuel) hash acc n x y t
  unfolding IsAccepted solve_loop verify_loop
  short fuel hash acc n x y t c small = (
    [],
    rw (small, append-nil acc),
    refl,
    λ rest.
        let e : eval n x t ≡ y = eval_lem n x t c.reduced ∙ sym c.squared in
        rw (small, e, ==_refl y),
  )

  pub complete :
      (k fuel n : ℕ)
      → 0 < n
      → IsShort n
      → k < fuel
      → (hash acc : Bytes) (x y t : ℕ) → Claim n x y t
      → t ≤ delta * 2 ^ k
      → t + 1 < 2 ^ 64
      → IsAccepted fuel hash acc n x y t
  unfolding IsAccepted delta
  complete k zero n pos s h hash acc x y t c bound w = absurd (omega arith)
  complete zero (suc fuel) n pos s h hash acc x y t c bound w =
      short fuel hash acc n x y t c (le→leb t delta (omega (arith, bound, pow-zero 2)))
  complete (suc k) (suc fuel) n pos s h hash acc x y t c bound w = elim (Bool-cases (leb t delta)) [
    | inl small ↦ short fuel hash acc n x y t c small
    | inr large ↦
        let above : delta < t = leb→lt t delta large in
        let (t2, y1, e2, c1, lo, hi) = even_step_lem n x y t c w in
        let more : 0 < t2 = omega (arith, above, lo) in
        let root = eval n x (t2 - 1) in
        let b = to_be int_bytes root in
        let small : IsShort root =
          rw (eval_lem n x (t2 - 1) c1.reduced) (omega (arith, mod-lt (x ^ 2 ^ (t2 - 1)) pos, s)) in
        let (h', e4) = add-ok hash root small in
        let r = challenge sha256 h' in
        let mu = root * root % n in
        let (proof, es, el, ev) =
          complete k fuel n pos s (omega (arith, h)) h' (acc ++ b) (exp_and_mul x r mu n)
            (exp_and_mul mu r y1 n) t2
            (fold_lem n x y1 t2 r mu pos (midpoint n x t2 c1.reduced more) c1.squared)
            (omega (arith, bound, hi, above, pow-suc 2 k)) (omega (arith, hi, more, w)) in
        (
          b ++ proof,
          solve_round fuel hash h' b acc n x y t t2 y1 more (omega (arith, hi, w)) large e2
                (fill_bytes-ok int_bytes root small) e4
              ∙ es
              ∙ ap ok (append_assoc acc b proof),
          omega (arith, length-append b proof, length-to_be int_bytes root, el),
          λ rest.
              ap (verify_loop sha256 (suc fuel) hash n x y t) (append_assoc b proof rest)
              ∙ verify_round fuel hash h' (proof ++ rest) n x y t t2 y1 root large e2 small e4
              ∙ ev rest,
        )
  ]
