-- ===== src/Eviction/Lru/Links.antt =====
-- Doubly linked lists, and what unlinking and pushing does to them.
use learn_system_design.Prelude.Maps.{update_here, update_there}
use learn_system_design.Prelude.{
  ℕ, ◌≡◌, refl, true, false, Option, some, List, [], ◌∷◌, ◌++◌, ◌==◌, arith, Bool-cases, inl, inr,
  ◌∙◌, subst,
}
use learn_system_design.Prelude.Maps.{update}
use learn_system_design.Eviction.Lru.{head, tail, LruCache, join, unlink, push_before, push_front}
use learn_system_design.Prelude.Distinct.{is_in, AreDistinct, is_in-append}

-- From an address the fields lead through these addresses, forth and back.
abbrev pub Links : (ℕ → Option ℕ) → (ℕ → Option ℕ) → ℕ → List ℕ → Type 0
Links next prev a [] = Unit
Links next prev a (b ∷ xs) = (next a ≡ some b) × (prev b ≡ some a) × Links next prev b xs

pub Links-update :
    (next prev : ℕ → Option ℕ) (p q : ℕ) (u v : Option ℕ) (a : ℕ) (xs : List ℕ)
    → is_in p (a ∷ xs) ≡ false
    → is_in q xs ≡ false
    → Links next prev a xs
    → Links (update next p u) (update prev q v) a xs
Links-update next prev p q u v a [] out away l = tt
Links-update next prev p q u v a (b ∷ xs) out away (forth, back, l) = (
  update_there next p u a (ground (arith, out)) ∙ forth,
  update_there prev q v b (ground (arith, away)) ∙ back,
  Links-update next prev p q u v b xs (ground (arith, out)) (ground (arith, away)) l,
)

-- Unlinking a node that is followed by another.
pub Links-unlink :
    (next prev : ℕ → Option ℕ) (xs ys : List ℕ) (a x n : ℕ)
    → Links next prev a (xs ++ x ∷ n ∷ ys)
    → AreDistinct (a ∷ xs ++ x ∷ n ∷ ys)
    → (p : ℕ) × (prev x ≡ some p)
      × (next x ≡ some n)
      × (is_in p (a ∷ xs) ≡ true)
      × Links (update next p (some n)) (update prev n (some p)) a (xs ++ n ∷ ys)
Links-unlink next prev [] ys a x n (f1, b1, (f2, b2, l)) (oa, (ox, (on, d))) = (
  a,
  b1,
  f2,
  ground arith,
  (
    update_here next a (some n),
    update_here prev n (some a),
    Links-update next prev a n (some n) (some a) n ys (ground (arith, oa)) on l,
  ),
)
Links-unlink next prev (b ∷ xs) ys a x n (forth, back, l) (out, d) =
    let (p, e, f, i, new) = Links-unlink next prev xs ys b x n l d in
    let apart : is_in a (b ∷ xs) ≡ false = ground (arith, is_in-append a xs (x ∷ n ∷ ys), out) in
    let pa : (p == a) ≡ false = elim (Bool-cases (p == a)) [
      | inl same ↦
          (let q : p ≡ a = ground arith in
            let wrong = subst (λ z. is_in z (b ∷ xs) ≡ true) q i in ground arith)
      | inr other ↦ other
    ] in
    let nb : (n == b) ≡ false = ground (arith, is_in-append b xs (x ∷ n ∷ ys), d.0) in
    (
      p,
      e,
      f,
      ground (arith, i),
      (update_there next p (some n) a pa ∙ forth, update_there prev n (some p) b nb ∙ back, new),
    )

-- Pushing a node between an address and the one that follows it.
pub Links-push :
    (next prev : ℕ → Option ℕ) (h f x : ℕ) (ys : List ℕ)
    → Links next prev h (f ∷ ys)
    → AreDistinct (h ∷ f ∷ ys)
    → is_in x (h ∷ f ∷ ys) ≡ false
    → Links
        (update (update next x (some f)) h (some x))
        (update (update prev x (some h)) f (some x))
        h
        (x ∷ f ∷ ys)
Links-push next prev h f x ys (forth, back, l) (oh, (of, d)) new = (
  update_here (update next x (some f)) h (some x),
  update_there (update prev x (some h)) f (some x) x (ground (arith, new))
      ∙ update_here prev x (some h),
  (
    update_there (update next x (some f)) h (some x) x (ground (arith, new))
        ∙ update_here next x (some f),
    update_here (update prev x (some h)) f (some x),
    Links-update (update next x (some f)) (update prev x (some h)) h f (some x) (some x) f ys
        (ground (arith, oh)) of
        (Links-update next prev x x (some f) (some h) f ys (ground (arith, new))
          (ground (arith, new)) l),
  ),
)

-- A different number in the middle is not among the rest, which are different too.
pub AreDistinct-middle :
    (xs : List ℕ) (x : ℕ) (ys : List ℕ)
    → AreDistinct (xs ++ x ∷ ys)
    → (is_in x (xs ++ ys) ≡ false) × AreDistinct (xs ++ ys)
AreDistinct-middle [] x ys (out, d) = (out, d)
AreDistinct-middle (z ∷ xs) x ys (out, d) =
    let (apart, e) = AreDistinct-middle xs x ys d in
    let both = is_in-append z xs (x ∷ ys) in
    (ground (arith, apart, out, both), (ground (arith, out, both, is_in-append z xs ys), e))

module _ {K V : Type 0} where
  -- `_unlink` of a node between the sentinels.
  pub unlink-Links :
      (c : LruCache K V) (xs ys : List ℕ) (x : ℕ)
      → Links c.next c.prev head (xs ++ x ∷ (ys ++ tail ∷ []))
      → AreDistinct (head ∷ xs ++ x ∷ (ys ++ tail ∷ []))
      → (nx : ℕ → Option ℕ) × (pv : ℕ → Option ℕ) × (unlink x c
          ≡ some (record c { next = nx; prev = pv }))
        × Links nx pv head (xs ++ (ys ++ tail ∷ []))
  unfolding unlink join
  unlink-Links c xs [] x l d =
      let (p, back, forth, i, new) = Links-unlink c.next c.prev xs [] head x tail l d in
      (update c.next p (some tail), update c.prev tail (some p), rw (back, forth) refl, new)
  unlink-Links c xs (y ∷ ys) x l d =
      let (p, back, forth, i, new) = Links-unlink c.next c.prev xs (ys ++ tail ∷ []) head x y l d in
      (update c.next p (some y), update c.prev y (some p), rw (back, forth) refl, new)

  -- `_push_front` of a node that the list does not have.
  pub push_front-Links :
      (c : LruCache K V) (xs : List ℕ) (x : ℕ)
      → Links c.next c.prev head (xs ++ tail ∷ [])
      → AreDistinct (head ∷ xs ++ tail ∷ [])
      → is_in x (head ∷ xs ++ tail ∷ []) ≡ false
      → (nx : ℕ → Option ℕ) × (pv : ℕ → Option ℕ) × (push_front x c
          ≡ some (record c { next = nx; prev = pv }))
        × Links nx pv head (x ∷ xs ++ tail ∷ [])
  unfolding push_front push_before
  push_front-Links c [] x l d new = (
    update (update c.next x (some tail)) head (some x),
    update (update c.prev x (some head)) tail (some x),
    rw l.0 refl,
    Links-push c.next c.prev head tail x [] l d new,
  )
  push_front-Links c (y ∷ xs) x l d new = (
    update (update c.next x (some y)) head (some x),
    update (update c.prev x (some head)) y (some x),
    rw l.0 refl,
    Links-push c.next c.prev head y x (xs ++ tail ∷ []) l d new,
  )

  -- The node before the tail is the last one.
  pub prev-tail :
      (c : LruCache K V) (xs : List ℕ) (a x : ℕ)
      → Links c.next c.prev a (xs ++ x ∷ tail ∷ [])
      → c.prev tail ≡ some x
  prev-tail c [] a x (f, b, (g, h, l)) = h
  prev-tail c (y ∷ xs) a x (f, b, l) = prev-tail c xs y x l
