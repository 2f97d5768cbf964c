-- ===== src/Prelude/Maps.antt =====
-- A dict in which every key is present, as a function.
use learn_system_design.Prelude.{ℕ, ◌≡◌, refl, Bool, true, false, ◌==◌, if◌then◌else◌, arith}

-- `d[k] = v`
unfoldable pub update : {A : Type 0} → (ℕ → A) → ℕ → A → ℕ → A
update f k v j = if k == j then v else f j

pub update_here : {A : Type 0} (f : ℕ → A) (k : ℕ) (v : A) → update f k v k ≡ v
unfolding update
update_here f k v = let e : (k == k) ≡ true = ground arith in rw e refl

pub update_there :
    {A : Type 0} (f : ℕ → A) (k : ℕ) (v : A) (j : ℕ) → (k == j) ≡ false → update f k v j ≡ f j
unfolding update
update_there f k v j e = rw e refl

pub update_all :
    {A : Type 0} (P : A → Type 0) (b : ℕ → A) (f : ℕ) (v : A)
    → ((g : ℕ) → P (b g))
    → P v
    → (g : ℕ) → P (update b f v g)
unfolding update
update_all P b f v all one g = either P (f == g) v (b g) one (all g)
  where
    either : {A : Type 0} (P : A → Type 0) (t : Bool) (x y : A) → P x → P y → P (if t then x else y)
    either P true x y p q = p
    either P false x y p q = q
