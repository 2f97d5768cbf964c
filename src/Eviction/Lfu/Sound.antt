-- ===== src/Eviction/Lfu/Sound.antt =====
-- What holds of a least-frequently-used cache between two calls.
use learn_system_design.Prelude.{
  ℕ, ◌+◌, ◌≤◌, ◌≡◌, refl, Bool, true, false, Option, none, some, [], ◌∷◌, ◌==◌, if◌then◌else◌, ite,
  arith,
}
use learn_system_design.Prelude.Dict.{Dict, get, put, remove, get-put, get-remove}
use learn_system_design.Prelude.Dict.Unique.{AreUnique}
use learn_system_design.Prelude.Maps.{update}
use learn_system_design.Eviction.Lfu.{LfuCache, is_empty}

abbrev pub is_some : {A : Type 0} → Option A → Bool
is_some none = false
is_some (some a) = true

-- What a bucket has of a key with this frequency.
abbrev pub here : ℕ → Option ℕ → Option (Unit {0})
here f none = none
here f (some g) = if g == f then some tt else none

module _ {K : Type 0} (dec : Discrete K) where
  pub touched_at :
      (b : ℕ → Dict K (Unit {0})) (key k : K) (f g : ℕ)
      → get dec key (b g) ≡ here g (some f)
      → get dec k (
          update
            (update b f (remove dec key (b f)))
            (f + 1)
            (put dec key tt (update b f (remove dec key (b f)) (f + 1)))
            g)
        ≡ ite (dec key k) (here g (some (f + 1))) (get dec k (b g))
  unfolding update
  touched_at b key k f g e =
      ground (arith, e, get-put dec key k tt (b g), get-remove dec key k (b f))

  pub is_empty-get : (k : K) (d : Dict K (Unit {0})) → is_empty d ≡ true → get dec k d ≡ none
  unfolding get
  is_empty-get k [] e = refl
  is_empty-get k (entry ∷ d) e = ground (arith, e)

  pub get-is_empty : (k : K) (d : Dict K (Unit {0})) → get dec k d ≡ some tt → is_empty d ≡ false
  unfolding get
  get-is_empty k [] e = ground (arith, e)
  get-is_empty k (entry ∷ d) e = refl

module _ {K V : Type 0} (dec : Discrete K) where
  -- A key is in the bucket of its frequency and in no other.
  pub record IsPlaced (c : LfuCache K V) : Type 0 where
    pub placed : (k : K) (f : ℕ) → get dec k (c.buckets f) ≡ here f (get dec k c.freq)
    pub known : (k : K) → is_some (get dec k c.values) ≡ is_some (get dec k c.freq)
    pub positive : (k : K) (f : ℕ) → get dec k c.freq ≡ some f → 1 ≤ f
    pub bucket_unique : (f : ℕ) → AreUnique dec (c.buckets f)
    pub unique : AreUnique dec c.values

  -- No frequency is below the least one, and there is a key of that, if any.
  pub record IsSound (c : LfuCache K V) : Type 0 where
    pub places : IsPlaced c
    pub least : (k : K) (f : ℕ) → get dec k c.freq ≡ some f → c.min_freq ≤ f
    pub there :
        (k : K) (v : V) → get dec k c.values ≡ some v → is_empty (c.buckets c.min_freq) ≡ false
