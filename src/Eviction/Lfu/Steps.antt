-- ===== src/Eviction/Lfu/Steps.antt =====
-- What a touch does to such a cache.
use learn_system_design.Prelude.Maps.{update_here, update_there, update_all}
use learn_system_design.Prelude.{
  ℕ, ◌+◌, ◌≤◌, ◌≡◌, ◌≢◌, refl, false, ◌&&◌, some, ◌==◌, if◌then◌else◌, if_pos, if_neg, arith,
  Bool-cases, inl, inr, ap, sym, ◌∙◌, subst,
}
use learn_system_design.Prelude.Dict.{Dict, get, put, remove, get-put, get-remove}
use learn_system_design.Prelude.Dict.Unique.{AreUnique, put-AreUnique, remove-AreUnique}
use learn_system_design.Prelude.Maps.{update}
use learn_system_design.Eviction.Lfu.{LfuCache, is_empty, touch_in, touch_at, touch}
use learn_system_design.Eviction.Lfu.Sound.{
  is_some, here, IsPlaced, IsSound, touched_at, is_empty-get, get-is_empty,
}

module _ {K V : Type 0} (dec : Discrete K) where
  -- The buckets, the least frequency and the cache after a touch of a key with this frequency.
  abbrev bucketed : LfuCache K V → K → ℕ → ℕ → Dict K (Unit {0})
  bucketed c key f =
      let emptied = update c.buckets f (remove dec key (c.buckets f)) in
      update emptied (f + 1) (put dec key tt (emptied (f + 1)))

  abbrev least_of : LfuCache K V → K → ℕ → ℕ
  least_of c key f =
      if is_empty (remove dec key (c.buckets f)) && (c.min_freq == f)
      then c.min_freq + 1
      else c.min_freq

  abbrev pub touched : LfuCache K V → K → ℕ → LfuCache K V
  touched c key f = record c {
    freq = put dec key (f + 1) c.freq;
    buckets = bucketed c key f;
    min_freq = least_of c key f;
  }

  touched-placed :
      (c : LfuCache K V) (key : K) (f : ℕ)
      → IsPlaced dec c
      → get dec key c.freq ≡ some f
      → (k : K) (g : ℕ)
      → get dec k (bucketed c key f g) ≡ here g (get dec k (put dec key (f + 1) c.freq))
  touched-placed c key f s e k g =
      touched_at dec c.buckets key k f g (s.placed key g ∙ ap (here g) e) ∙ elim (dec key k) [
        | yes p ↦
            if_pos (dec key k) p (here g (some (f + 1))) (get dec k (c.buckets g))
            ∙ sym (
                ap (here g) (
                  get-put dec key k (f + 1) c.freq
                  ∙ if_pos (dec key k) p (some (f + 1)) (get dec k c.freq)))
        | no p ↦
            if_neg (dec key k) p (here g (some (f + 1))) (get dec k (c.buckets g))
            ∙ s.placed k g
            ∙ sym (
                ap (here g) (
                  get-put dec key k (f + 1) c.freq
                  ∙ if_neg (dec key k) p (some (f + 1)) (get dec k c.freq)))
      ]

  touched-least :
      (c : LfuCache K V) (key : K) (f : ℕ)
      → IsSound dec c
      → get dec key c.freq ≡ some f
      → (k : K) (g : ℕ) → get dec k (put dec key (f + 1) c.freq) ≡ some g
      → least_of c key f ≤ g
  touched-least c key f s e k g h =
      let low = s.least key f e in
      let at = s.least k g in
      let emptied = is_empty-get dec k (remove dec key (c.buckets f)) in
      ground (
        arith,
        e,
        h,
        low,
        at,
        emptied,
        get-put dec key k (f + 1) c.freq,
        get-remove dec key k (c.buckets f),
        s.places.placed k f,
      )

  touched-there :
      (c : LfuCache K V) (key k : K) (f : ℕ) (v : V)
      → IsSound dec c
      → get dec key c.freq ≡ some f
      → get dec k c.values ≡ some v
      → is_empty (bucketed c key f (least_of c key f)) ≡ false
  touched-there c key k f v s e h =
      let rest = remove dec key (c.buckets f) in
      let emptied = update c.buckets f rest in
      let low = s.least key f e in
      let full = s.there k v h in
      let next : is_empty (bucketed c key f (f + 1)) ≡ false =
        get-is_empty dec key (bucketed c key f (f + 1)) (
          touched-placed c key f s.places e key (f + 1)
          ∙ ground (arith, get-put dec key key (f + 1) c.freq)) in
      let filled = put dec key tt (emptied (f + 1)) in
      let at = λ (m : ℕ). is_empty (bucketed c key f m) in
      let kept : c.min_freq ≢ f
          → least_of c key f ≡ c.min_freq
          → is_empty (bucketed c key f (least_of c key f)) ≡ false =
        λ other w.
          ap at w
          ∙ ap is_empty (
              update_there emptied (f + 1) filled c.min_freq (ground (arith, low))
              ∙ update_there c.buckets f rest c.min_freq (ground (arith, other)))
          ∙ full in
      elim (Bool-cases (c.min_freq == f)) [
        | inl same ↦ (elim (Bool-cases (is_empty rest)) [
          | inl gone ↦
              (let w : least_of c key f ≡ f + 1 = ground (arith, gone, same) in ap at w ∙ next)
          | inr left ↦
              (let w : least_of c key f ≡ f = ground (arith, left, same) in
                ap at w
                ∙ ap is_empty (
                    update_there emptied (f + 1) filled f (ground arith)
                    ∙ update_here c.buckets f rest)
                ∙ left)
        ])
        | inr other ↦ kept (λ q. ground (arith, other, q)) (ground (arith, other))
      ]

  pub touch-IsSound :
      (c : LfuCache K V) (key : K) (f : ℕ)
      → IsSound dec c
      → get dec key c.freq ≡ some f
      → (touch dec key c ≡ some (touched c key f)) × IsSound dec (touched c key f)
  unfolding touch touch_at touch_in
  touch-IsSound c key f s e =
      let there : get dec key (c.buckets f) ≡ some tt =
        s.places.placed key f ∙ ap (here f) e ∙ ground arith in
      (
        rw (e, there) refl,
        record {
          places = record {
            placed = touched-placed c key f s.places e;
            known = λ k. s.places.known k ∙ elim (dec key k) [
              | yes p ↦
                  ap is_some (subst (λ i. get dec i c.freq ≡ some f) p e)
                  ∙ sym (
                      ap is_some (
                        get-put dec key k (f + 1) c.freq
                        ∙ if_pos (dec key k) p (some (f + 1)) (get dec k c.freq)))
              | no p ↦ sym (
                  ap is_some (
                    get-put dec key k (f + 1) c.freq
                    ∙ if_neg (dec key k) p (some (f + 1)) (get dec k c.freq)))
            ];
            positive =
                λ k g h. ground (arith, h, get-put dec key k (f + 1) c.freq, s.places.positive k g);
            bucket_unique =
                let rest = remove dec key (c.buckets f) in
                let emptied = update c.buckets f rest in
                let after =
                  update_all (AreUnique dec) c.buckets f rest s.places.bucket_unique
                    (remove-AreUnique dec key (c.buckets f) (s.places.bucket_unique f)) in
                update_all (AreUnique dec) emptied (f + 1) (put dec key tt (emptied (f + 1))) after
                  (put-AreUnique dec key tt (emptied (f + 1)) (after (f + 1)));
            unique = s.places.unique;
          };
          least = touched-least c key f s e;
          there = λ k v h. touched-there c key k f v s e h;
        },
      )
