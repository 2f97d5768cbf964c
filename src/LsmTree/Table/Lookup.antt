-- ===== src/LsmTree/Table/Lookup.antt =====
-- A sorted table answers as the items that it is made of.
use learn_system_design.Prelude.{
  ℕ, ◌+◌, ◌≤◌, ◌<◌, ◌≡◌, refl, ◌&&◌, Option, none, some, List, [], ◌∷◌, ltb, if◌then◌else◌, length,
  get_elem?, ite, ℕ_discrete, arith, Bool-cases, inl, inr, if_pos, if_neg, sym, ◌∙◌,
}
use learn_system_design.Prelude.Dict.{Dict, get}
use learn_system_design.LsmTree.Table.{insert, sorted, keys_of, values_of, bisect_left, is_key}

module _ {V : Type 0} where
  -- The keys ascend, from a bound on.
  abbrev pub Ascending : ℕ → Dict ℕ V → Type 0
  Ascending lo [] = Unit
  Ascending lo ((k, v) ∷ items) = (lo ≤ k) × Ascending (k + 1) items

  -- No key occurs twice.
  abbrev pub AreUnique : Dict ℕ V → Type 0
  AreUnique [] = Unit
  AreUnique ((k, v) ∷ items) = (get ℕ_discrete k items ≡ none) × AreUnique items

  pub Ascending-none :
      (lo key : ℕ) (items : Dict ℕ V)
      → Ascending lo items
      → key < lo
      → get ℕ_discrete key items ≡ none
  unfolding get
  Ascending-none lo key [] a h = refl
  Ascending-none lo key ((k, v) ∷ items) (le, a) h =
      rw (if_neg (ℕ_discrete k key) (λ e. omega arith) (some v) (get ℕ_discrete key items))
        (Ascending-none (k + 1) key items a (omega arith))

  pub get-cons_none :
      (key k : ℕ) (v : V) (items : Dict ℕ V)
      → get ℕ_discrete key ((k, v) ∷ items) ≡ none
      → ¬ (k ≡ key) × (get ℕ_discrete key items ≡ none)
  unfolding get
  get-cons_none key k v items h = elim (ℕ_discrete k key) [
    | yes same ↦ absurd (
        let e = sym (if_pos (ℕ_discrete k key) same (some v) (get ℕ_discrete key items)) ∙ h in
        ground arith)
    | no other ↦
        (other, sym (if_neg (ℕ_discrete k key) other (some v) (get ℕ_discrete key items)) ∙ h)
  ]

  get-insert :
      (key j : ℕ) (value : V) (items : Dict ℕ V)
      → get ℕ_discrete key items ≡ none
      → get ℕ_discrete j (insert key value items)
        ≡ ite (ℕ_discrete key j) (some value) (get ℕ_discrete j items)
  unfolding get insert
  get-insert key j value [] h = refl
  get-insert key j value ((k, v) ∷ items) h =
      let (other, absent) = get-cons_none key k v items h in
      let ih = get-insert key j value items absent in ground (arith, ih)

  insert-Ascending :
      (lo key : ℕ) (value : V) (items : Dict ℕ V)
      → Ascending lo items
      → lo ≤ key
      → get ℕ_discrete key items ≡ none
      → Ascending lo (insert key value items)
  unfolding get insert
  insert-Ascending lo key value [] a le h = (le, tt)
  insert-Ascending lo key value ((k, v) ∷ items) (lk, a) le h =
      let (other, absent) = get-cons_none key k v items h in
      elim (Bool-cases (ltb k key)) [
        | inl e ↦ rw e (lk, insert-Ascending (k + 1) key value items a (ground arith) absent)
        | inr e ↦ rw e (le, (ground arith, a))
      ]

  pub get-sorted :
      (items : Dict ℕ V)
      → AreUnique items
      → (j : ℕ) → get ℕ_discrete j (sorted items) ≡ get ℕ_discrete j items
  unfolding get sorted
  get-sorted [] u j = refl
  get-sorted ((k, v) ∷ items) (absent, u) j =
      rw (get-insert k j v (sorted items) (get-sorted items u k ∙ absent), get-sorted items u j)
        refl

  pub sorted-Ascending : (items : Dict ℕ V) → AreUnique items → Ascending 0 (sorted items)
  unfolding sorted
  sorted-Ascending [] u = tt
  sorted-Ascending ((k, v) ∷ items) (absent, u) =
      insert-Ascending 0 k v (sorted items) (sorted-Ascending items u) (omega arith)
        (get-sorted items u k ∙ absent)

  -- The search of `read`, of any values.
  abbrev pub value_at : List ℕ → List V → ℕ → Option V
  value_at keys values key =
      let i = bisect_left keys key in
      if ltb i (length keys) && is_key (get_elem? keys i) key then get_elem? values i else none

  pub value_at-get :
      (lo : ℕ) (items : Dict ℕ V) (key : ℕ)
      → Ascending lo items
      → value_at (keys_of items) (values_of items) key ≡ get ℕ_discrete key items
  unfolding get bisect_left is_key keys_of values_of
  value_at-get lo [] key a = refl
  value_at-get lo ((k, v) ∷ items) key (le, a) =
      let ih = value_at-get (k + 1) items key a in
      let past = Ascending-none (k + 1) key items a in
      elim (Bool-cases (ltb k key)) [
        | inl e ↦ rw e (ground (arith, ih))
        | inr e ↦ rw e (ground (arith, past))
      ]
