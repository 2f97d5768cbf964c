-- ===== src/HashRing/Moves.antt =====
-- Which keys move when a server leaves the ring or joins it.
use learn_system_design.Prelude.{
  ℕ, zero, suc, ◌*◌, ◌≡◌, ◌≢◌, refl, true, false, Option, none, some, Option-cases, List, [], ◌∷◌,
  arith, ap, sym, ◌∙◌, inl, inr, ◌⊎◌, if_pos, if_neg, ℕ_discrete,
}
use learn_system_design.Prelude.Dict.{Dict, get, put, get-put}
use learn_system_design.HashRing.{
  insort, Ring, add_vnode, add_vnodes, add_server, is_other, other_positions, other_owners,
  remove_server, owner_of, get_server,
}
use learn_system_design.HashRing.Clockwise.{
  clockwise, position_at-bisect_right, clockwise-insort, clockwise-other,
}

module _ {S : Type 0} where
  -- The server of a point.
  abbrev server_of : Dict ℕ S → List ℕ → ℕ → Option S
  server_of owner ring x = owner_of owner (clockwise ring x)

  get_server-server_of :
      {K : Type 0} (hash : K → ℕ) (key : K) (r : Ring S)
      → get_server hash key r ≡ server_of r.owner r.ring (hash key)
  unfolding get_server
  get_server-server_of hash key r =
      ap (owner_of r.owner) (position_at-bisect_right r.ring (hash key))

  owner_of-put :
      (pos : ℕ) (server : S) (owner : Dict ℕ S) (p : Option ℕ)
      → (owner_of (put ℕ_discrete pos server owner) p ≡ some server)
        ⊎ (owner_of (put ℕ_discrete pos server owner) p ≡ owner_of owner p)
  unfolding owner_of
  owner_of-put pos server owner none = inr refl
  owner_of-put pos server owner (some p) = elim (ℕ_discrete pos p) [
    | yes same ↦ inl (
        get-put ℕ_discrete pos p server owner
        ∙ if_pos (ℕ_discrete pos p) same (some server) (get ℕ_discrete p owner))
    | no other ↦ inr (
        get-put ℕ_discrete pos p server owner
        ∙ if_neg (ℕ_discrete pos p) other (some server) (get ℕ_discrete p owner))
  ]

  owner_of-put_self :
      (pos : ℕ) (server : S) (owner : Dict ℕ S)
      → owner_of (put ℕ_discrete pos server owner) (some pos) ≡ some server
  unfolding owner_of
  owner_of-put_self pos server owner =
      get-put ℕ_discrete pos pos server owner
      ∙ if_pos (ℕ_discrete pos pos) refl (some server) (get ℕ_discrete pos owner)

  server_of-add :
      (pos : ℕ) (server : S) (owner : Dict ℕ S) (ring : List ℕ) (x : ℕ)
      → (server_of (put ℕ_discrete pos server owner) (insort pos ring) x ≡ some server)
        ⊎ (server_of (put ℕ_discrete pos server owner) (insort pos ring) x ≡ server_of owner ring x)
  server_of-add pos server owner ring x = elim (clockwise-insort pos ring x) [
    | inl e ↦
        inl (ap (owner_of (put ℕ_discrete pos server owner)) e ∙ owner_of-put_self pos server owner)
    | inr e ↦ (elim (owner_of-put pos server owner (clockwise ring x)) [
      | inl f ↦ inl (ap (owner_of (put ℕ_discrete pos server owner)) e ∙ f)
      | inr f ↦ inr (ap (owner_of (put ℕ_discrete pos server owner)) e ∙ f)
    ])
  ]

  add_vnodes-moves :
      (place : S → ℕ → ℕ) (n i : ℕ) (server : S) (r : Ring S) (x : ℕ)
      → let s = add_vnodes place n i server r in
        (server_of s.owner s.ring x ≡ some server)
        ⊎ (server_of s.owner s.ring x ≡ server_of r.owner r.ring x)
  unfolding add_vnodes add_vnode
  add_vnodes-moves place zero i server r x = inr refl
  add_vnodes-moves place (suc n) i server r x =
      elim (add_vnodes-moves place n (suc i) server (add_vnode (place server i) server r) x) [
        | inl e ↦ inl e
        | inr e ↦ (elim (server_of-add (place server i) server r.owner r.ring x) [
          | inl f ↦ inl (e ∙ f)
          | inr f ↦ inr (e ∙ f)
        ])
      ]

  -- When a server joins, with any weight, each key goes to the new server or to the server it had (or
  -- has no server, as before).
  pub get_server-add_server :
      {K : Type 0} (hash : K → ℕ) (place : S → ℕ → ℕ) (key : K) (server : S) (weight : ℕ)
      (r : Ring S)
      → (get_server hash key (add_server place server weight r) ≡ some server)
        ⊎ (get_server hash key (add_server place server weight r) ≡ get_server hash key r)
  unfolding add_server
  get_server-add_server hash place key server weight r =
      let a = get_server-server_of hash key (add_server place server weight r) in
      let b = get_server-server_of hash key r in
      elim (add_vnodes-moves place (r.vnodes * weight) 0 server r (hash key)) [
        | inl e ↦ inl (a ∙ e)
        | inr e ↦ inr (a ∙ e ∙ sym b)
      ]

  get_here : (p q : ℕ) (s : S) (d : Dict ℕ S) → q ≡ p → get ℕ_discrete p ((q, s) ∷ d) ≡ some s
  unfolding get
  get_here p q s d e = if_pos (ℕ_discrete q p) e (some s) (get ℕ_discrete p d)

  get_there :
      (p q : ℕ) (s : S) (d : Dict ℕ S) → q ≢ p → get ℕ_discrete p ((q, s) ∷ d) ≡ get ℕ_discrete p d
  unfolding get
  get_there p q s d n = if_neg (ℕ_discrete q p) n (some s) (get ℕ_discrete p d)

module _ {S : Type 0} (dec : Discrete S) where
  other_owners-yes :
      (server s : S) (p : ℕ) (owner : Dict ℕ S)
      → s ≡ server
      → other_owners dec server ((p, s) ∷ owner) ≡ other_owners dec server owner
  unfolding other_owners
  other_owners-yes server s p owner e =
      if_pos (dec s server) e (other_owners dec server owner)
        ((p, s) ∷ other_owners dec server owner)

  other_owners-no :
      (server s : S) (p : ℕ) (owner : Dict ℕ S)
      → s ≢ server
      → other_owners dec server ((p, s) ∷ owner) ≡ (p, s) ∷ other_owners dec server owner
  unfolding other_owners
  other_owners-no server s p owner n =
      if_neg (dec s server) n (other_owners dec server owner)
        ((p, s) ∷ other_owners dec server owner)

  get-other_owners :
      (server s : S) (p : ℕ) (owner : Dict ℕ S)
      → s ≢ server
      → get ℕ_discrete p owner ≡ some s
      → get ℕ_discrete p (other_owners dec server owner) ≡ some s
  unfolding other_owners
  get-other_owners server s p [] n h = h
  get-other_owners server s p ((q, t) ∷ owner) n h = elim (ℕ_discrete q p) [
    | yes here ↦
        (let found : some t ≡ some s = sym (get_here p q t owner here) ∙ h in
          let same : t ≡ s = ground arith in
          ap (get ℕ_discrete p) (other_owners-no server t q owner (λ e. n (sym same ∙ e)))
          ∙ get_here p q t (other_owners dec server owner) here
          ∙ found)
    | no there ↦
        (let rest = get-other_owners server s p owner n (sym (get_there p q t owner there) ∙ h) in
          elim (dec t server) [
            | yes e ↦ ap (get ℕ_discrete p) (other_owners-yes server t q owner e) ∙ rest
            | no e ↦
                ap (get ℕ_discrete p) (other_owners-no server t q owner e)
                ∙ get_there p q t (other_owners dec server owner) there
                ∙ rest
          ])
  ]

  gone_from-other_owners :
      (server : S) (p : ℕ) (owner : Dict ℕ S)
      → get ℕ_discrete p (other_owners dec server owner) ≢ some server
  unfolding other_owners get
  gone_from-other_owners server p [] h = ground arith
  gone_from-other_owners server p ((q, t) ∷ owner) h = elim (dec t server) [
    | yes e ↦
        gone_from-other_owners server p owner
          (sym (ap (get ℕ_discrete p) (other_owners-yes server t q owner e)) ∙ h)
    | no e ↦
        (let h' = sym (ap (get ℕ_discrete p) (other_owners-no server t q owner e)) ∙ h in
          elim (ℕ_discrete q p) [
            | yes here ↦
                (let found : some t ≡ some server =
                    sym (get_here p q t (other_owners dec server owner) here) ∙ h' in
                  let same : t ≡ server = ground arith in absurd (e same))
            | no there ↦
                gone_from-other_owners server p owner
                  (sym (get_there p q t (other_owners dec server owner) there) ∙ h')
          ])
  ]

  is_other-some : (server s : S) → s ≢ server → is_other dec server (some s) ≡ true
  unfolding is_other
  is_other-some server s n = if_neg (dec s server) n false true

  server_of-remove :
      (server s : S) (p : Option ℕ) (owner : Dict ℕ S) (ring : List ℕ) (x : ℕ)
      → clockwise ring x ≡ p
      → s ≢ server
      → owner_of owner p ≡ some s
      → server_of (other_owners dec server owner) (other_positions dec server owner ring) x ≡ some s
  unfolding owner_of
  server_of-remove server s none owner ring x c n h = ground arith
  server_of-remove server s (some p) owner ring x c n h =
      let kept : is_other dec server (get ℕ_discrete p owner) ≡ true =
        ap (is_other dec server) h ∙ is_other-some server s n in
      ap (owner_of (other_owners dec server owner))
        (clockwise-other dec server owner ring x p kept c)
      ∙ get-other_owners server s p owner n h

  owner_of-gone :
      (server : S) (p : Option ℕ) (owner : Dict ℕ S)
      → owner_of (other_owners dec server owner) p ≢ some server
  unfolding owner_of
  owner_of-gone server none owner h = ground arith
  owner_of-gone server (some p) owner h = gone_from-other_owners server p owner h

  kept-remove_server :
      {K : Type 0} (hash : K → ℕ) (key : K) (server s : S) (r : Ring S)
      → s ≢ server
      → get_server hash key r ≡ some s
      → get_server hash key (remove_server dec server r) ≡ some s
  unfolding remove_server
  kept-remove_server hash key server s r n h =
      get_server-server_of hash key _
      ∙ server_of-remove server s (clockwise r.ring (hash key)) r.owner r.ring (hash key) refl n
          (sym (get_server-server_of hash key r) ∙ h)

  -- When a server leaves any ring, no key has it afterwards, and each key has the server that it had, unless it had the server that left, or none.
  pub get_server-remove_server :
      {K : Type 0} (hash : K → ℕ) (key : K) (server : S) (r : Ring S)
      → (get_server hash key (remove_server dec server r) ≢ some server)
        × ((get_server hash key (remove_server dec server r) ≡ get_server hash key r)
            ⊎ ((get_server hash key r ≡ some server) ⊎ (get_server hash key r ≡ none)))
  unfolding remove_server
  get_server-remove_server hash key server r = (
    λ e. owner_of-gone server _ r.owner (sym (get_server-server_of hash key _) ∙ e),
    elim (Option-cases (get_server hash key r)) [
      | inl nobody ↦ inr (inr nobody)
      | inr (s, had) ↦ elim (dec s server) [
        | yes e ↦ inr (inl (had ∙ ap some e))
        | no n ↦ inl (kept-remove_server hash key server s r n had ∙ sym had)
      ]
    ],
  )
