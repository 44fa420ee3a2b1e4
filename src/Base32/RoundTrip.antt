-- ===== src/Base32/RoundTrip.antt =====
-- base32.go: `Decode` after `Encode`.
use Prim.Native.Nat.{bit_and}
use pebble_voting_app.Base.{
  ℕ, ◌+◌, ◌-◌, ◌*◌, ◌/◌, ◌%◌, ◌^◌, ◌<◌, ◌≡◌, ◌∙◌, ap, sym, [], ◌∷◌, ◌++◌, Bytes, ok, arith, All,
  IsByte, append_assoc, append-nil,
}
use pebble_voting_app.Base32.{symbol, join, drain, flush, encode_loop, encode, decode_loop, decode}
use pebble_voting_app.Base32.Digits.{join-lem, read_short, read_long}

-- The encoder writes the digits of one byte, `x` being the byte above what was left.
pub write_0 :
    (u x b : ℕ) (p : Bytes)
    → join u 0 b ≡ x
    → encode_loop u 0 (b ∷ p) ≡ symbol (bit_and x 31) ∷ encode_loop (x / 32) 3 p
unfolding encode_loop drain
write_0 u x b p e = rw e

pub write_3 :
    (u x b : ℕ) (p : Bytes)
    → join u 3 b ≡ x
    → encode_loop u 3 (b ∷ p)
      ≡ symbol (bit_and x 31) ∷ symbol (bit_and (x / 32) 31) ∷ encode_loop (x / 32 / 32) 1 p
unfolding encode_loop drain
write_3 u x b p e = rw e

pub write_1 :
    (u x b : ℕ) (p : Bytes)
    → join u 1 b ≡ x
    → encode_loop u 1 (b ∷ p) ≡ symbol (bit_and x 31) ∷ encode_loop (x / 32) 4 p
unfolding encode_loop drain
write_1 u x b p e = rw e

pub write_4 :
    (u x b : ℕ) (p : Bytes)
    → join u 4 b ≡ x
    → encode_loop u 4 (b ∷ p)
      ≡ symbol (bit_and x 31) ∷ symbol (bit_and (x / 32) 31) ∷ encode_loop (x / 32 / 32) 2 p
unfolding encode_loop drain
write_4 u x b p e = rw e

pub write_2 :
    (u x b : ℕ) (p : Bytes)
    → join u 2 b ≡ x
    → encode_loop u 2 (b ∷ p)
      ≡ symbol (bit_and x 31) ∷ symbol (bit_and (x / 32) 31) ∷ encode_loop (x / 32 / 32) 0 p
unfolding encode_loop drain
write_2 u x b p e = rw e

done : (u n : ℕ) (buf out : Bytes) → u ≡ 0 → buf ≡ out → decode_loop u n buf [] ≡ ok out
unfolding decode_loop
done u n buf out z e = rw (z, e)

-- The encoder has n bits that it has not written, the decoder m bits that it has not put out:
-- together they are no byte or one, and five phases follow each other.
data Phase : (n m : ℕ) → Type 0 where
  even : Phase 0 0
  three : Phase 3 5
  one : Phase 1 7
  four : Phase 4 4
  two : Phase 2 6

-- The byte that is on its way.
abbrev pending : {n m : ℕ} → Phase n m → (u v : ℕ) → Bytes
pending even u v = []
pending {n} {m} three u v = (v + u * 2 ^ 5) ∷ []
pending one u v = (v + u * 2 ^ 7) ∷ []
pending four u v = (v + u * 2 ^ 4) ∷ []
pending two u v = (v + u * 2 ^ 6) ∷ []

-- The last digit completes the byte.
closing :
    (m u v : ℕ) (buf : Bytes)
    → 2 < m
    → m < 8
    → v < 2 ^ m
    → u < 32
    → v + u * 2 ^ m < 256
    → decode_loop v m buf (symbol (bit_and u 31) ∷ []) ≡ ok (buf ++ ((v + u * 2 ^ m) ∷ []))
closing m u v buf l h g f byte =
    let whole : u % 32 ≡ u = omega (arith, f) in
    read_long m v u buf [] l h g (omega (arith, f)) (rw whole (omega (arith, byte)))
    ∙ done ((v + u % 32 * 2 ^ m) / 256) (m + 5 - 8) (buf ++ ((v + u % 32 * 2 ^ m) % 256 ∷ [])) _
        (rw whole (omega (arith, byte)))
        (rw whole (ap (λ w. buf ++ (w ∷ [])) (omega (arith, byte))))

glue :
    (buf p : Bytes) (w w' b b' : ℕ)
    → w ≡ w'
    → b ≡ b'
    → (buf ++ (w ∷ [])) ++ (b ∷ p) ≡ buf ++ (w' ∷ b' ∷ p)
glue buf p w w' b b' e f = rw (e, f) (append_assoc buf (w' ∷ []) (b' ∷ p))

decode-encode_loop :
    {n m : ℕ} (ph : Phase n m) (p : Bytes) (u v : ℕ) (buf : Bytes)
    → All IsByte p
    → u < 2 ^ n
    → v < 2 ^ m
    → decode_loop v m buf (encode_loop u n p) ≡ ok (buf ++ (pending ph u v ++ p))
unfolding encode_loop flush
decode-encode_loop even [] u v buf h hu hv =
    done v 0 buf _ (omega (arith, hv)) (sym (append-nil buf))
decode-encode_loop three [] u v buf h hu hv =
    closing 5 u v buf (omega arith) (omega arith) hv (omega arith) (omega arith)
decode-encode_loop one [] u v buf h hu hv =
    closing 7 u v buf (omega arith) (omega arith) hv (omega arith) (omega arith)
decode-encode_loop four [] u v buf h hu hv =
    closing 4 u v buf (omega arith) (omega arith) hv (omega arith) (omega arith)
decode-encode_loop two [] u v buf h hu hv =
    closing 6 u v buf (omega arith) (omega arith) hv (omega arith) (omega arith)
decode-encode_loop even (b ∷ p) u v buf h hu hv =
    let byte : b < 256 = h.0 in
    let x = u + b * 2 ^ 0 in
    ap (decode_loop v 0 buf)
      (write_0 u x b p (join-lem 0 u b (omega arith) hu (omega (arith, hu, byte))))
    ∙ read_short 0 v x buf _ (omega arith) hv (omega (arith, hu, byte)) (omega (arith, hv))
    ∙ decode-encode_loop three p (x / 32) (v + x % 32 * 2 ^ 0) buf h.1 (omega (arith, hu, byte))
        (omega (arith, hv))
    ∙ ap (λ w. ok (buf ++ (w ∷ p))) (omega (arith, hu, hv, byte))
decode-encode_loop three (b ∷ p) u v buf h hu hv =
    let byte : b < 256 = h.0 in
    let x = u + b * 2 ^ 3 in
    let v1 = v + x % 32 * 2 ^ 5 in
    let v2 = v1 / 256 + x / 32 % 32 * 2 ^ 2 in
    ap (decode_loop v 5 buf)
      (write_3 u x b p (join-lem 3 u b (omega arith) hu (omega (arith, hu, byte))))
    ∙ read_long 5 v x buf _ (omega arith) (omega arith) hv (omega (arith, hu, byte))
        (omega (arith, hv))
    ∙ read_short 2 (v1 / 256) (x / 32) (buf ++ (v1 % 256 ∷ [])) _ (omega arith) (omega (arith, hv))
        (omega (arith, hu, byte)) (omega (arith, hv))
    ∙ decode-encode_loop one p (x / 32 / 32) v2 (buf ++ (v1 % 256 ∷ [])) h.1
        (omega (arith, hu, byte)) (omega (arith, hv))
    ∙ ap ok (glue buf p _ _ _ _ (omega (arith, hu, hv, byte)) (omega (arith, hu, hv, byte)))
decode-encode_loop one (b ∷ p) u v buf h hu hv =
    let byte : b < 256 = h.0 in
    let x = u + b * 2 ^ 1 in
    let v1 = v + x % 32 * 2 ^ 7 in
    ap (decode_loop v 7 buf)
      (write_1 u x b p (join-lem 1 u b (omega arith) hu (omega (arith, hu, byte))))
    ∙ read_long 7 v x buf _ (omega arith) (omega arith) hv (omega (arith, hu, byte))
        (omega (arith, hv))
    ∙ decode-encode_loop four p (x / 32) (v1 / 256) (buf ++ (v1 % 256 ∷ [])) h.1
        (omega (arith, hu, byte)) (omega (arith, hv))
    ∙ ap ok (glue buf p _ _ _ _ (omega (arith, hu, hv, byte)) (omega (arith, hu, hv, byte)))
decode-encode_loop four (b ∷ p) u v buf h hu hv =
    let byte : b < 256 = h.0 in
    let x = u + b * 2 ^ 4 in
    let v1 = v + x % 32 * 2 ^ 4 in
    let v2 = v1 / 256 + x / 32 % 32 * 2 ^ 1 in
    ap (decode_loop v 4 buf)
      (write_4 u x b p (join-lem 4 u b (omega arith) hu (omega (arith, hu, byte))))
    ∙ read_long 4 v x buf _ (omega arith) (omega arith) hv (omega (arith, hu, byte))
        (omega (arith, hv))
    ∙ read_short 1 (v1 / 256) (x / 32) (buf ++ (v1 % 256 ∷ [])) _ (omega arith) (omega (arith, hv))
        (omega (arith, hu, byte)) (omega (arith, hv))
    ∙ decode-encode_loop two p (x / 32 / 32) v2 (buf ++ (v1 % 256 ∷ [])) h.1
        (omega (arith, hu, byte)) (omega (arith, hv))
    ∙ ap ok (glue buf p _ _ _ _ (omega (arith, hu, hv, byte)) (omega (arith, hu, hv, byte)))
decode-encode_loop two (b ∷ p) u v buf h hu hv =
    let byte : b < 256 = h.0 in
    let x = u + b * 2 ^ 2 in
    let v1 = v + x % 32 * 2 ^ 6 in
    let v2 = v1 / 256 + x / 32 % 32 * 2 ^ 3 in
    let buf1 = buf ++ (v1 % 256 ∷ []) in
    ap (decode_loop v 6 buf)
      (write_2 u x b p (join-lem 2 u b (omega arith) hu (omega (arith, hu, byte))))
    ∙ read_long 6 v x buf _ (omega arith) (omega arith) hv (omega (arith, hu, byte))
        (omega (arith, hv))
    ∙ read_long 3 (v1 / 256) (x / 32) buf1 _ (omega arith) (omega arith) (omega (arith, hv))
        (omega (arith, hu, byte)) (omega (arith, hv))
    ∙ decode-encode_loop even p (x / 32 / 32) (v2 / 256) (buf1 ++ (v2 % 256 ∷ [])) h.1
        (omega (arith, hu, byte)) (omega (arith, hv))
    ∙ ap ok (
        append_assoc buf1 (v2 % 256 ∷ []) p
        ∙ glue buf p _ _ _ _ (omega (arith, hu, hv, byte)) (omega (arith, hu, hv, byte)))

-- For any bytes, `Decode` of what `Encode` gives returns the bytes.
pub decode-encode : (p : Bytes) → All IsByte p → decode (encode p) ≡ ok p
unfolding encode decode
decode-encode p h = decode-encode_loop even p 0 0 [] h (omega arith) (omega arith)
