-- ===== src/UrlShortener/Hashing.antt =====
-- Codes by hashing: rehashed until they collide with no other url.
use learn_system_design.Prelude.{
  ℕ, zero, suc, ◌+◌, ◌≤◌, ◌<◌, ◌≡◌, refl, true, false, none, some, arith, dec_lt, subst, ◌-◌,
  if_pos, if_neg, Bool-cases, inl, inr, ◌⊎◌, ap, sym, ◌∙◌, Option-cases,
}
use learn_system_design.Prelude.Dict.{Dict, get}
use learn_system_design.UrlShortener.Server.{Code, hashed, is_other, hash_based_code}

module _ {U : Type 0} (dec : Discrete Code) (url_dec : Discrete U) (digest : U → ℕ → ℕ) where
  -- The database has the code for no other url.
  abbrev pub IsUsable : Code → U → Dict Code U → Type 0
  IsUsable code url db = (get dec code db ≡ none) ⊎ (get dec code db ≡ some url)

  is_other-IsUsable :
      (code : Code) (url : U) (db : Dict Code U)
      → is_other dec url_dec digest url (get dec code db) ≡ false
      → IsUsable code url db
  is_other-IsUsable code url db h = elim (Option-cases (get dec code db)) [
    | inl e ↦ inl e
    | inr (u, e) ↦ (elim (url_dec u url) [
      | yes same ↦ inr (e ∙ ap some same)
      | no other ↦
          (let clash : is_other dec url_dec digest url (some u) ≡ true =
              unfold is_other in if_neg (url_dec u url) other false true in
            let both = sym (ap (is_other dec url_dec digest url) e ∙ clash) ∙ h in ground arith)
    ])
  ]

  IsUsable-is_other :
      (code : Code) (url : U) (db : Dict Code U)
      → IsUsable code url db
      → is_other dec url_dec digest url (get dec code db) ≡ false
  unfolding is_other
  IsUsable-is_other code url db (inl e) = rw e refl
  IsUsable-is_other code url db (inr e) = rw e (if_pos (url_dec url url) refl false true)

  -- If the code of some attempt collides with no other url, then `hash_based_code` returns, with
  -- more fuel than there are attempts before it, the code of an attempt up to it that collides with
  -- no other url.
  pub hash_based_code-IsUsable :
      (fuel : ℕ) (url : U) (db : Dict Code U) (attempt k : ℕ)
      → k < fuel
      → IsUsable (hashed dec url_dec digest url (attempt + k)) url db
      → (j : ℕ) × (j ≤ k)
        × (hash_based_code dec url_dec digest fuel url db attempt
            ≡ some (hashed dec url_dec digest url (attempt + j)))
        × IsUsable (hashed dec url_dec digest url (attempt + j)) url db
  unfolding hash_based_code
  hash_based_code-IsUsable zero url db attempt k p h = absurd (omega arith)
  hash_based_code-IsUsable (suc fuel) url db attempt k p h =
      let code = hashed dec url_dec digest url attempt in
      let code_after = λ (n : ℕ). hashed dec url_dec digest url n in
      let still : attempt + 0 ≡ attempt = omega arith in
      elim (Bool-cases (is_other dec url_dec digest url (get dec code db))) [
        | inr e ↦
            (let usable = is_other-IsUsable code url db e in
              (
                0,
                omega arith,
                rw (e, hash_based_code) (ap (λ n. some (code_after n)) (sym still)),
                subst (λ n. IsUsable (code_after n) url db) (sym still) usable,
              ))
        | inl e ↦ (elim (dec_lt 0 k) [
          | yes more ↦
              (let shift : attempt + k ≡ attempt + 1 + (k - 1) = omega arith in
                let (j, q, made, usable) =
                  hash_based_code-IsUsable fuel url db (attempt + 1) (k - 1) (omega arith)
                    (subst (λ n. IsUsable (code_after n) url db) shift h) in
                let back : attempt + 1 + j ≡ attempt + (j + 1) = omega arith in
                (
                  j + 1,
                  omega arith,
                  rw (e, hash_based_code) (made ∙ ap (λ n. some (code_after n)) back),
                  subst (λ n. IsUsable (code_after n) url db) back usable,
                ))
          | no zero_left ↦
              (let now : attempt + k ≡ attempt = omega arith in
                let free =
                  IsUsable-is_other code url db
                    (subst (λ n. IsUsable (code_after n) url db) now h) in
                absurd (ground arith))
        ])
      ]
