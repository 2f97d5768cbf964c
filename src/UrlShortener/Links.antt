-- ===== src/UrlShortener/Links.antt =====
-- A new short link resolves to its url.
use learn_system_design.Prelude.{
  ℕ, ◌≡◌, refl, Option, none, some, List, [], ◌∷◌, if_neg, Option-cases, inl, inr, ap, sym, ◌∙◌,
  subst,
}
use learn_system_design.Prelude.Dict.{get, get-put, get-put_self}
use learn_system_design.UrlShortener.Server.{
  Code, World, redirect, save, shorten_alias, resolve, App, saved, shorten_id, with_alias, shorten,
  chosen, code_of,
}
use learn_system_design.UrlShortener.Resolve.{IsValid, answer, resolve-IsValid, save-IsValid}

module _ {U : Type 0} (dec : Discrete Code) (Key : Type 0) (digest : Key → ℕ → ℕ)
    (keys : List Key) where
  -- The outcome of a call saves the url in the world, if there is one.
  abbrev Saves : U → World U → Option (Code × App U) → Type 0
  Saves url w none = Unit
  Saves url w (some (code, a)) = a.world ≡ save dec code url w

  saved-Saves :
      (o : Option Code) (url : U) (a : App U)
      → Saves url a.world (saved dec Key digest keys o url a)
  unfolding saved
  saved-Saves none url a = tt
  saved-Saves (some code) url a = refl

  shorten_id-Saves :
      (o : Option ℕ) (url : U) (a : App U)
      → Saves url a.world (shorten_id dec Key digest keys o url a)
  unfolding shorten_id
  shorten_id-Saves none url a = tt
  shorten_id-Saves (some id) url a = saved-Saves (code_of Key digest keys id) url a

  alias-Saves :
      (code : Code) (url : U) (a : App U)
      → Saves url a.world (with_alias dec Key digest keys (shorten_alias dec code url a.world) a)
  unfolding shorten_alias with_alias
  alias-Saves code url a = elim (Option-cases (get dec code a.world.db)) [
    | inl e ↦ rw (e, shorten_alias) refl
    | inr (taken, e) ↦ rw (e, shorten_alias) tt
  ]

  shorten-Saves :
      (alias : Option Code) (url : U) (a : App U)
      → Saves url a.world (shorten dec Key digest keys alias url a)
  unfolding shorten chosen
  shorten-Saves none url a = shorten_id-Saves _ url _
  shorten-Saves (some []) url a = shorten_id-Saves _ url _
  shorten-Saves (some (c ∷ alias)) url a = alias-Saves (c ∷ alias) url a

  -- A link that `shorten` makes, under an alias or a generated code that the database did not have,
  -- resolves to its url from a valid world; every other code resolves as before.
  pub resolve-shorten :
      (alias : Option Code) (url : U) (a a' : App U) (code other : Code)
      → shorten dec Key digest keys alias url a ≡ some (code, a')
      → get dec code a.world.db ≡ none
      → ¬ (code ≡ other)
      → IsValid dec a.world
      → ((resolve dec code a'.world).0 ≡ redirect url)
        × ((resolve dec other a'.world).0 ≡ (resolve dec other a.world).0)
  unfolding save
  resolve-shorten alias url a a' code other made new apart v =
      let world = subst (Saves url a.world) made (shorten-Saves alias url a) in
      let v' = save-IsValid dec code url a.world new v in
      let here = (resolve-IsValid dec code (save dec code url a.world) v').0 in
      let there = (resolve-IsValid dec other (save dec code url a.world) v').0 in
      let before = (resolve-IsValid dec other a.world v).0 in
      (
        ap (λ w. (resolve dec code w).0) world
            ∙ here
            ∙ ap (answer dec) (get-put_self dec code url a.world.db),
        ap (λ w. (resolve dec other w).0) world
            ∙ there
            ∙ ap (answer dec) (
                get-put dec code other url a.world.db
                ∙ if_neg (dec code other) apart (some url) (get dec other a.world.db))
            ∙ sym before,
      )
