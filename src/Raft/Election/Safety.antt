-- ===== src/Raft/Election/Safety.antt =====
-- Time keeps a cluster sound: each node is fair, and each granted vote on its way was cast.
use learn_system_design.Prelude.{
  ℕ, ◌+◌, ◌≡◌, ◌≢◌, inl, inr, some, List, [], ◌∷◌, ◌++◌, arith, ◌==◌, Bool-cases, ◌∙◌, subst, leb,
  ltb,
}
use learn_system_design.Raft.Node.{Node, Message, Out, update}
use learn_system_design.Raft.Cluster.{
  Flight, Cluster, due, pending, send_all, settle, deliver, deliver_all, tick_node, tick_all, step,
}
use learn_system_design.Raft.Election.Ballots.{History, IsFair, IsCast, AllCast, Extends, Fair}
use learn_system_design.Raft.Election.Handlers.{on_message-Fair, tick-Fair, IsCast-keeps}

abbrev pub Delivers : History → List Flight → Type 0
Delivers h [] = Unit {0}
Delivers h (f ∷ fs) = IsCast h f.src f.dst f.msg × Delivers h fs

pub record Sound (h : History) (c : Cluster) : Type 0 where
  pub fair : (i : ℕ) → IsFair h i (c.nodes i)
  pub flying : Delivers h c.inflight

-- A cluster that is sound under some history which goes on from `h`.
pub record Goes (h : History) (c : Cluster) : Type 0 where
  pub history : History
  pub keeps : (v t x : ℕ) → h v t ≡ some x → history v t ≡ some x
  pub sound : Sound history c

Delivers-append :
    (h : History) (fs gs : List Flight) → Delivers h fs → Delivers h gs → Delivers h (fs ++ gs)
Delivers-append h [] gs p q = q
Delivers-append h (f ∷ fs) gs p q = (p.0, Delivers-append h fs gs p.1 q)

pub Delivers-keeps :
    (h h' : History) (fs : List Flight)
    → ((v t x : ℕ) → h v t ≡ some x → h' v t ≡ some x)
    → Delivers h fs
    → Delivers h' fs
Delivers-keeps h h' [] k d = tt
Delivers-keeps h h' (f ∷ fs) k d =
    (IsCast-keeps h h' f.src f.dst f.msg k d.0, Delivers-keeps h h' fs k d.1)

Delivers-due : (h : History) (now : ℕ) (fs : List Flight) → Delivers h fs → Delivers h (due now fs)
unfolding due
Delivers-due h now [] d = tt
Delivers-due h now (f ∷ fs) d = elim (Bool-cases (leb f.deliver_at now)) [
  | inl e ↦ rw e (d.0, Delivers-due h now fs d.1)
  | inr e ↦ rw e (Delivers-due h now fs d.1)
]

Delivers-pending :
    (h : History) (now : ℕ) (fs : List Flight) → Delivers h fs → Delivers h (pending now fs)
unfolding pending
Delivers-pending h now [] d = tt
Delivers-pending h now (f ∷ fs) d = elim (Bool-cases (ltb now f.deliver_at)) [
  | inl e ↦ rw e (d.0, Delivers-pending h now fs d.1)
  | inr e ↦ rw e (Delivers-pending h now fs d.1)
]

module _ (randint : ℕ → ℕ → ℕ → ℕ) where
  send_all-Sound :
      (h : History) (src : ℕ) (out : List (ℕ × Message)) (c : Cluster)
      → Sound h c
      → AllCast h src out
      → Sound h (send_all randint src out c)
  unfolding send_all
  send_all-Sound h src [] c s cast = s
  send_all-Sound h src ((dst, msg) ∷ out) c s cast =
      send_all-Sound h src out _
        (record { fair = s.fair; flying = Delivers-append h c.inflight _ s.flying (cast.0, tt) })
        cast.1

  -- The nodes but `i` are fair under a history that only `i` has gone on with.
  IsFair-others :
      (h h' : History) (i j : ℕ) (n : Node) → Extends i h h' → j ≢ i → IsFair h j n → IsFair h' j n
  IsFair-others h h' i j n x ne f = record {
    id_is = f.id_is;
    remembers = x.others j n.term ne ∙ f.remembers;
    later = λ t lt. x.others j t ne ∙ f.later t lt;
    chosen = λ v st e. x.keeps v n.term j (f.chosen v st e);
    won = f.won;
  }

  pub IsFair-update :
      (h h' : History) (i j : ℕ) (nodes : ℕ → Node) (n : Node)
      → Extends i h h'
      → IsFair h' i n
      → IsFair h j (nodes j)
      → IsFair h' j (update nodes i n j)
  unfolding update
  IsFair-update h h' i j nodes n x fi fj = elim (Bool-cases (j == i)) [
    | inl e ↦ let same : i ≡ j = ground arith in rw e (subst (λ k. IsFair h' k n) same fi)
    | inr e ↦ rw e (IsFair-others h h' i j (nodes j) x (λ same. ground arith) fj)
  ]

  pub settle-Sound :
      (h : History) (i : ℕ) (out : Out) (c : Cluster)
      → Sound h c
      → Fair h i out
      → Goes h (settle randint i out c)
  unfolding settle
  settle-Sound h i (n, out) c s f = record {
    history = f.history;
    keeps = f.extends.keeps;
    sound =
        send_all-Sound f.history i out _
          (record {
            fair = λ j. IsFair-update h f.history i j c.nodes n f.extends f.fair (s.fair j);
            flying = Delivers-keeps h f.history c.inflight f.extends.keeps s.flying;
          })
          f.sends;
  }

  pub Goes-refl : (h : History) (c : Cluster) → Sound h c → Goes h c
  Goes-refl h c s = record { history = h; keeps = λ v t x e. e; sound = s }

  pub Goes-trans :
      (h h' : History) (c : Cluster)
      → ((v t x : ℕ) → h v t ≡ some x → h' v t ≡ some x)
      → Goes h' c
      → Goes h c
  Goes-trans h h' c k g = record {
    history = g.history;
    keeps = λ v t x e. g.keeps v t x (k v t x e);
    sound = g.sound;
  }

  deliver-Sound :
      (h : History) (f : Flight) (c : Cluster)
      → Sound h c
      → IsCast h f.src f.dst f.msg
      → Goes h (deliver randint f c)
  unfolding deliver
  deliver-Sound h f c s cast = elim (Bool-cases (c.nodes f.dst).alive) [
    | inr dead ↦ simp dead (Goes-refl h c s)
    | inl alive ↦ simp alive (
        settle-Sound h f.dst _ c s
          (on_message-Fair h f.dst c.now _ _ f.src f.msg (s.fair f.dst) cast))
  ]

  deliver_all-Sound :
      (h : History) (fs : List Flight) (c : Cluster)
      → Sound h c
      → Delivers h fs
      → Goes h (deliver_all randint fs c)
  unfolding deliver_all
  deliver_all-Sound h [] c s d = Goes-refl h c s
  deliver_all-Sound h (f ∷ fs) c s d =
      let g = deliver-Sound h f c s d.0 in
      Goes-trans h g.history _ g.keeps (
        deliver_all-Sound g.history fs (deliver randint f c) g.sound
          (Delivers-keeps h g.history fs g.keeps d.1))

  tick_all-Sound :
      (h : History) (ids : List ℕ) (c : Cluster) → Sound h c → Goes h (tick_all randint ids c)
  unfolding tick_all tick_node
  tick_all-Sound h [] c s = Goes-refl h c s
  tick_all-Sound h (i ∷ ids) c s =
      let g =
        settle-Sound h i _ c s
          (tick-Fair h i c.now (randint c.draws 10 20) (c.nodes i) (s.fair i)) in
      Goes-trans h g.history _ g.keeps (tick_all-Sound g.history ids _ g.sound)

  pub step-Sound : (h : History) (c : Cluster) → Sound h c → Goes h (step randint c)
  unfolding step
  step-Sound h c s =
      let g =
        deliver_all-Sound h (due (c.now + 1) c.inflight) _
          (record { fair = s.fair; flying = Delivers-pending h (c.now + 1) c.inflight s.flying })
          (Delivers-due h (c.now + 1) c.inflight s.flying) in
      Goes-trans h g.history _ g.keeps (tick_all-Sound g.history _ _ g.sound)
