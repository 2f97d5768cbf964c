-- ===== src/UrlShortener/Codes.antt =====
-- The codes of ids.
use learn_system_design.Prelude.{ℕ, ◌*◌, ◌^◌, ◌<◌, ◌≡◌, refl, some, List, length, arith}
use learn_system_design.UrlShortener.Base62.{base62_encode, base62_decode, rjust, code_len, space}
use learn_system_design.UrlShortener.Digits.{base62_decode-encode, length-code}
use learn_system_design.UrlShortener.Scramble.{
  half_bits, feistel, feistel_inverse, scramble, unscramble,
}
use learn_system_design.UrlShortener.Feistel.{feistel_below, feistel_inverse-feistel}
use learn_system_design.UrlShortener.Walks.{walk_round}
use learn_system_design.UrlShortener.Server.{Code, code_of}

module _ (Key : Type 0) (digest : Key → ℕ → ℕ) (keys : List Key) where
  -- For every id below 62 ^ 7 the walk of `scramble` ends, whatever the digest and the keys, at a
  -- number below 62 ^ 7, and the walk of `unscramble` from there ends at the id.
  pub unscramble-scramble :
      (id : ℕ)
      → id < space
      → (y : ℕ) × (y < space)
        × (scramble Key digest keys id ≡ some y)
        × (unscramble Key digest keys y ≡ some id)
  unfolding scramble unscramble
  unscramble-scramble id h =
      walk_round (feistel Key digest keys) (feistel_inverse Key digest keys) (2 ^ (2 * half_bits))
        (feistel_below Key digest keys) (feistel_inverse-feistel Key digest keys) space id
        (omega arith) h

  -- Every id below 62 ^ 7 has a code, of exactly seven letters, and the id is read back from it by
  -- `base62_decode` and `unscramble`: no two ids share a code.
  pub code_of_readable :
      (id : ℕ)
      → id < space
      → (code : Code) × (y : ℕ) × (code_of Key digest keys id ≡ some code)
        × (length code ≡ code_len)
        × (base62_decode code ≡ some y)
        × (unscramble Key digest keys y ≡ some id)
  unfolding code_of
  code_of_readable id h =
      let (y, below, there, back) = unscramble-scramble id h in
      (
        rjust code_len (base62_encode y),
        y,
        rw (there, code_of) refl,
        length-code y below,
        base62_decode-encode code_len y,
        back,
      )
