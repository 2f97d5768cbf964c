-- ===== src/UrlShortener/Base62.antt =====
-- `base62_encode` and `base62_decode` of 11_case_studies/01_url_shortener.py. A text is the list of
-- its code points.
use learn_system_design.Prelude.{
  ℕ, zero, suc, ◌+◌, ◌-◌, ◌*◌, ◌/◌, ◌%◌, ◌^◌, ◌&&◌, Option, none, some, List, [], ◌∷◌, ◌++◌, ltb,
  leb, ◌==◌, if◌then◌else◌, length, replicate,
}

abbrev pub base : ℕ
base = 62

abbrev pub code_len : ℕ
code_len = 7

abbrev pub space : ℕ
space = base ^ code_len

-- `ALPHABET[r]`: the digits, the small letters, the capitals.
unfoldable pub letter : ℕ → ℕ
letter r = if ltb r 10 then r + 48 else if ltb r 36 then r + 87 else r + 29

-- `ALPHABET.index(ch)`; `none` is its `ValueError`
unfoldable pub index : ℕ → Option ℕ
index ch =
    if leb 48 ch && leb ch 57
    then some (ch - 48)
    else if leb 97 ch && leb ch 122
    then some (ch - 87)
    else if leb 65 ch && leb ch 90
    then some (ch - 29)
    else none

-- The loop of `base62_encode`, with `out` reversed as it grows. It takes a round for each digit, and
-- a number has no more digits than itself, which is the fuel.
unfoldable pub encode_loop : ℕ → ℕ → List ℕ → List ℕ
unfolding letter
encode_loop zero n out = out
encode_loop (suc fuel) n out =
    let rest = encode_loop fuel (n / base) (letter (n % base) ∷ out) in if n == 0 then out else rest

unfoldable pub base62_encode : ℕ → List ℕ
unfolding encode_loop
base62_encode n = if n == 0 then letter 0 ∷ [] else encode_loop n n []

-- The loop of `base62_decode`.
unfoldable pub decode_loop : List ℕ → ℕ → Option ℕ
unfolding index
decode_loop [] n = some n
decode_loop (ch ∷ s) n = elim (index ch) [ none ↦ none | some r ↦ decode_loop s (n * base + r) ]

unfoldable pub base62_decode : List ℕ → Option ℕ
unfolding decode_loop
base62_decode s = decode_loop s 0

-- `s.rjust(width, "0")`
unfoldable pub rjust : ℕ → List ℕ → List ℕ
rjust width s = replicate (width - length s) 48 ++ s
