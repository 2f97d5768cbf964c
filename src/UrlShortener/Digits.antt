-- ===== src/UrlShortener/Digits.antt =====
-- The codes of numbers: no two numbers share one.
use learn_system_design.Prelude.{
  ℕ, zero, suc, ◌+◌, ◌-◌, ◌*◌, ◌/◌, ◌%◌, ◌^◌, ◌≤◌, ◌<◌, ◌≡◌, refl, true, some, List, [], ◌∷◌, ◌++◌,
  arith, Bool-cases, inl, inr, ap, sym, ◌∙◌, ◌==◌, length, replicate, length-append,
}
use native.Mathlib.Nat.{pow-suc}
use learn_system_design.UrlShortener.Base62.{
  base, space, code_len, letter, index, encode_loop, base62_encode, decode_loop, base62_decode,
  rjust,
}

index-letter : (r : ℕ) → r < base → index (letter r) ≡ some r
unfolding index letter
index-letter r h = ground arith

decode-cons :
    (r : ℕ) (s : List ℕ) (n : ℕ)
    → r < base
    → decode_loop (letter r ∷ s) n ≡ decode_loop s (n * base + r)
unfolding decode_loop
decode-cons r s n h = rw (index-letter r h, decode_loop) refl

decode-encode_loop :
    (fuel n : ℕ) (out : List ℕ)
    → n ≤ fuel
    → decode_loop (encode_loop fuel n out) 0 ≡ decode_loop out n
unfolding encode_loop
decode-encode_loop zero n out h = let e : n ≡ 0 = omega arith in ap (decode_loop out) (sym e)
decode-encode_loop (suc fuel) n out h = elim (Bool-cases (n == 0)) [
  | inl e ↦ (let z : n ≡ 0 = ground arith in rw e (ap (decode_loop out) (sym z)))
  | inr e ↦
      (let less : n / base ≤ fuel = ground arith in
        let whole : n / base * base + n % base ≡ n = omega arith in
        rw e (
          decode-encode_loop fuel (n / base) (letter (n % base) ∷ out) less
          ∙ decode-cons (n % base) out (n / base) (omega arith)
          ∙ ap (decode_loop out) whole))
]

decode-replicate : (k : ℕ) (s : List ℕ) → decode_loop (replicate k 48 ++ s) 0 ≡ decode_loop s 0
decode-replicate zero s = refl
decode-replicate (suc k) s =
    let ih = decode-replicate k s in
    let step : decode_loop (48 ∷ (replicate k 48 ++ s)) 0 ≡ decode_loop (replicate k 48 ++ s) 0 =
      unfold decode_loop in refl in
    step ∙ ih

length-encode_loop :
    (k fuel n : ℕ) (out : List ℕ) → n < base ^ k → length (encode_loop fuel n out) ≤ k + length out
unfolding encode_loop
length-encode_loop k zero n out h = omega arith
length-encode_loop zero (suc fuel) n out h =
    let e : (n == 0) ≡ true = ground arith in rw e (omega arith)
length-encode_loop (suc k) (suc fuel) n out h =
    let h' = rw (pow-suc base k) at h in
    let ih = length-encode_loop k fuel (n / base) (letter (n % base) ∷ out) (omega arith) in
    elim (Bool-cases (n == 0)) [ inl e ↦ rw e (omega arith) | inr e ↦ rw e (omega arith) ]

length-replicate : (k x : ℕ) → length (replicate k x) ≡ k
length-replicate zero x = refl
length-replicate (suc k) x = omega (arith, length-replicate k x)

-- A number below 62 ^ 7 has a code of exactly seven letters.
pub length-code : (n : ℕ) → n < space → length (rjust code_len (base62_encode n)) ≡ code_len
unfolding rjust base62_encode
length-code n h =
    let s = base62_encode n in
    let short : length s ≤ code_len = elim (Bool-cases (n == 0)) [
      | inl e ↦ rw e (omega arith)
      | inr e ↦ rw e (length-encode_loop code_len n n [] h)
    ] in
    omega (
      arith,
      length-append (replicate (code_len - length s) 48) s,
      length-replicate (code_len - length s) 48,
    )

-- A number is read back from its code, also from one that is filled up with zeros to some width.
pub base62_decode-encode : (width n : ℕ) → base62_decode (rjust width (base62_encode n)) ≡ some n
unfolding base62_decode base62_encode rjust
base62_decode-encode width n = elim (Bool-cases (n == 0)) [
  | inl e ↦
      (let z : 0 ≡ n = ground arith in
        rw e (decode-replicate (width - 1) (48 ∷ []) ∙ unfold decode_loop in ap some z))
  | inr e ↦ rw e (
      decode-replicate (width - length (encode_loop n n [])) (encode_loop n n [])
      ∙ decode-encode_loop n n [] (omega arith)
      ∙ unfold decode_loop in refl)
]
