-- ===== src/UrlShortener/Tests.antt =====
-- Codes and links at concrete ids and texts.
use learn_system_design.Prelude.{
  ℕ, ◌+◌, ◌*◌, ◌/◌, ◌≤◌, ◌<◌, ◌≡◌, inl, refl, some, List, [], ◌∷◌, length, arith, ℕ_discrete,
}
use learn_system_design.Prelude.Dict.{get, put}
use learn_system_design.UrlShortener.Base62.{base62_encode, base62_decode, rjust, code_len, space}
use learn_system_design.UrlShortener.Digits.{base62_decode-encode}
use learn_system_design.UrlShortener.Scramble.{scramble, unscramble}
use learn_system_design.UrlShortener.Codes.{unscramble-scramble, code_of_readable}
use learn_system_design.UrlShortener.Server.{
  hashed, hash_based_code, Code, redirect, resolve, App, shorten, code_of, range_allocator, no_ids,
  save,
}
use learn_system_design.UrlShortener.Resolve.{IsValid, resolve-IsValid, answer}
use learn_system_design.UrlShortener.Hashing.{IsUsable, hash_based_code-IsUsable}
use learn_system_design.UrlShortener.Links.{resolve-shorten}

-- "g8" is 16 * 62 + 8.
encoded : base62_encode 1000 ≡ 103 ∷ 56 ∷ []
unfolding base62_encode
encoded = refl

base62_decode-encode_example : base62_decode (rjust 7 (base62_encode 1000)) ≡ some 1000
base62_decode-encode_example = base62_decode-encode 7 1000

abbrev digest : ℕ → ℕ → ℕ
digest key value = value * 7919 + key

abbrev round_keys : List ℕ
round_keys = 11 ∷ 22 ∷ 33 ∷ 44 ∷ []

code_of_readable_example :
    (code : Code) × (y : ℕ) × (code_of ℕ digest round_keys 42 ≡ some code)
    × (length code ≡ code_len)
    × (base62_decode code ≡ some y)
    × (unscramble ℕ digest round_keys y ≡ some 42)
code_of_readable_example = code_of_readable ℕ digest round_keys 42 (omega arith)

unscramble-scramble_example :
    (y : ℕ) × (y < space)
    × (scramble ℕ digest round_keys 42 ≡ some y)
    × (unscramble ℕ digest round_keys y ≡ some 42)
unscramble-scramble_example = unscramble-scramble ℕ digest round_keys 42 (omega arith)

code_discrete : Discrete Code
code_discrete [] [] = yes refl
code_discrete [] (y ∷ ys) = no (λ e. cc)
code_discrete (x ∷ xs) [] = no (λ e. cc)
code_discrete (x ∷ xs) (y ∷ ys) = elim (ℕ_discrete x y) [
  | yes p ↦ (elim (code_discrete xs ys) [ yes q ↦ yes (cc) | no q ↦ no (λ e. q (cc)) ])
  | no p ↦ no (λ e. p (cc))
]

abbrev promo : Code
promo = 112 ∷ 114 ∷ []

abbrev app : App ℕ
app = record {
  allocator = range_allocator 1000;
  batch = no_ids;
  world = record {
    db = (promo, 5) ∷ [];
    cache = record { capacity = 2; entries = []; hits = 0; misses = 0 };
  };
}

abbrev alias : Code
alias = 109 ∷ 101 ∷ []

abbrev saved_app : App ℕ
saved_app = record app { world = record app.world { db = (promo, 5) ∷ (alias, 9) ∷ [] } }

resolve-shorten_example :
    ((resolve code_discrete alias saved_app.world).0 ≡ redirect 9)
    × ((resolve code_discrete promo saved_app.world).0 ≡ (resolve code_discrete promo app.world).0)
resolve-shorten_example =
    resolve-shorten code_discrete ℕ digest round_keys (some alias) 9 app saved_app alias promo
      (unfold shorten save get put code_discrete ℕ_discrete in refl)
      (unfold get code_discrete ℕ_discrete in refl) (λ e. ground arith)
      (record { agrees = tt; bounded = omega arith })

resolve-IsValid_example :
    ((resolve code_discrete promo app.world).0
      ≡ answer code_discrete (get code_discrete promo app.world.db))
    × IsValid code_discrete (resolve code_discrete promo app.world).1
resolve-IsValid_example =
    resolve-IsValid code_discrete promo app.world (record { agrees = tt; bounded = omega arith })

-- Attempts 0 and 1 share a digest, which another url has taken.
abbrev salted : ℕ → ℕ → ℕ
salted url attempt = url + attempt / 2

hash_based_code-IsUsable_example :
    (j : ℕ) × (j ≤ 2)
    × (hash_based_code code_discrete ℕ_discrete salted 3 8
          ((hashed code_discrete ℕ_discrete salted 8 0, 7) ∷ [])
          0
        ≡ some (hashed code_discrete ℕ_discrete salted 8 (0 + j)))
    × IsUsable code_discrete ℕ_discrete salted
        (hashed code_discrete ℕ_discrete salted 8 (0 + j))
        8
        ((hashed code_discrete ℕ_discrete salted 8 0, 7) ∷ [])
hash_based_code-IsUsable_example =
    hash_based_code-IsUsable code_discrete ℕ_discrete salted 3 8
      ((hashed code_discrete ℕ_discrete salted 8 0, 7) ∷ []) 0 2 (omega arith)
      (inl (unfold get hashed rjust base62_encode code_discrete ℕ_discrete in refl))
