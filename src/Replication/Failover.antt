-- ===== src/Replication/Failover.antt =====
-- What a failover of the replicated database keeps.
use learn_system_design.Prelude.{
  append-nil, append_assoc, ℕ, zero, suc, ◌≡◌, refl, List, [], ◌∷◌, ◌++◌, map, take, drop, ap, sym,
  ◌∙◌, take-append-drop,
}
use learn_system_design.Replication.{
  Mode, async, sync, semi, Replica, Follower, ReplicatedDb, apply, apply_at, queue_at,
  write_followers, write, apply_batch, catch_up, catch_up_all, replicate_some,
}

-- What `run` does with the database before the leader fails.
pub data Op (E : Type 0) : Type 0 where
  write_op : E → Op E
  replicate_op : Op E

module _ {E : Type 0} where
  unfoldable pub perform : (ℕ → ℕ) → (ℕ → ℕ → ℕ → ℕ) → Op E → ReplicatedDb E → ReplicatedDb E
  perform uniform randint (write_op e) db = (write uniform e db).0
  perform uniform randint replicate_op db = replicate_some randint db

  unfoldable pub perform_all :
      (ℕ → ℕ) → (ℕ → ℕ → ℕ → ℕ) → List (Op E) → ReplicatedDb E → ReplicatedDb E
  perform_all uniform randint [] db = db
  perform_all uniform randint (op ∷ ops) db =
      perform_all uniform randint ops (perform uniform randint op db)

  -- The entries that the operations write, in order.
  abbrev pub entries_of : List (Op E) → List E
  entries_of [] = []
  entries_of (write_op e ∷ ops) = e ∷ entries_of ops
  entries_of (replicate_op ∷ ops) = entries_of ops

  abbrev pub IsBehind : List E → Follower E → Type 0
  IsBehind log f = f.replica.log ++ f.pending ≡ log

  abbrev pub IsCaughtUp : List E → Follower E → Type 0
  IsCaughtUp log f = (f.replica.log ≡ log) × (f.pending ≡ [])

  abbrev pub All : (Follower E → Type 0) → List (Follower E) → Type 0
  All P [] = Unit
  All P (f ∷ fs) = P f × All P fs

  -- What each mode keeps of the followers.
  abbrev pub Kept : Mode → List E → List (Follower E) → Type 0
  Kept async log fs = All (IsBehind log) fs
  Kept sync log fs = All (IsCaughtUp log) fs
  Kept semi log [] = Unit
  Kept semi log (f ∷ fs) = IsCaughtUp log f × All (IsBehind log) fs

  apply_at-IsCaughtUp :
      (e : E) (log : List E) (f : Follower E)
      → IsCaughtUp log f
      → IsCaughtUp (log ++ e ∷ []) (apply_at e f)
  unfolding apply_at apply
  apply_at-IsCaughtUp e log f (h, p) = (ap (λ (l : List E). l ++ e ∷ []) h, p)

  queue_at-IsBehind :
      (e : E) (log : List E) (f : Follower E)
      → IsBehind log f
      → IsBehind (log ++ e ∷ []) (queue_at e f)
  unfolding queue_at
  queue_at-IsBehind e log f h =
      sym (append_assoc f.replica.log f.pending (e ∷ [])) ∙ ap (λ (l : List E). l ++ e ∷ []) h

  map-All :
      (P Q : Follower E → Type 0) (g : Follower E → Follower E) (fs : List (Follower E))
      → ((f : Follower E) → P f → Q (g f))
      → All P fs
      → All Q (map g fs)
  map-All P Q g [] h a = tt
  map-All P Q g (f ∷ fs) h (p, a) = (h f p, map-All P Q g fs h a)

  pub write_followers-Kept :
      (mode : Mode) (e : E) (log : List E) (fs : List (Follower E))
      → Kept mode log fs
      → Kept mode (log ++ e ∷ []) (write_followers mode e fs)
  unfolding write_followers
  write_followers-Kept async e log fs a =
      map-All (IsBehind log) (IsBehind (log ++ e ∷ [])) (queue_at e) fs (queue_at-IsBehind e log) a
  write_followers-Kept sync e log fs a =
      map-All (IsCaughtUp log) (IsCaughtUp (log ++ e ∷ [])) (apply_at e) fs
        (apply_at-IsCaughtUp e log) a
  write_followers-Kept semi e log [] a = tt
  write_followers-Kept semi e log (f ∷ fs) (c, a) = (
    apply_at-IsCaughtUp e log f c,
    map-All (IsBehind log) (IsBehind (log ++ e ∷ [])) (queue_at e) fs (queue_at-IsBehind e log) a,
  )

  log_of_batch : (batch : List E) (r : Replica E) → (apply_batch batch r).log ≡ r.log ++ batch
  unfolding apply_batch apply
  log_of_batch [] r = sym (append-nil r.log)
  log_of_batch (e ∷ batch) r = log_of_batch batch (apply e r) ∙ append_assoc r.log (e ∷ []) batch

  catch_up-IsBehind :
      (n : ℕ) (log : List E) (f : Follower E) → IsBehind log f → IsBehind log (catch_up n f)
  unfolding catch_up
  catch_up-IsBehind n log f h =
      ap (λ (l : List E). l ++ drop n f.pending) (log_of_batch (take n f.pending) f.replica)
      ∙ append_assoc f.replica.log (take n f.pending) (drop n f.pending)
      ∙ ap (λ (l : List E). f.replica.log ++ l) (take-append-drop n f.pending)
      ∙ h

  take_nil : (n : ℕ) → take {A = E} n [] ≡ []
  take_nil zero = refl
  take_nil (suc n) = refl

  drop_nil : (n : ℕ) → drop {A = E} n [] ≡ []
  drop_nil zero = refl
  drop_nil (suc n) = refl

  catch_up-IsCaughtUp :
      (n : ℕ) (log : List E) (f : Follower E) → IsCaughtUp log f → IsCaughtUp log (catch_up n f)
  unfolding catch_up
  catch_up-IsCaughtUp n log f (h, p) = (
    log_of_batch (take n f.pending) f.replica
        ∙ ap (λ (l : List E). f.replica.log ++ take n l) p
        ∙ ap (λ (l : List E). f.replica.log ++ l) (take_nil n)
        ∙ append-nil f.replica.log
        ∙ h,
    ap (drop n) p ∙ drop_nil n,
  )

  catch_up_all-All :
      {P : Follower E → Type 0} (randint : ℕ → ℕ → ℕ → ℕ) (k : ℕ) (fs : List (Follower E))
      → ((n : ℕ) (f : Follower E) → P f → P (catch_up n f))
      → All P fs
      → All P (catch_up_all randint k fs)
  unfolding catch_up_all
  catch_up_all-All randint k [] h a = tt
  catch_up_all-All randint k (f ∷ fs) h (p, a) =
      (h (randint k 0 3) f p, catch_up_all-All randint (suc k) fs h a)

  pub catch_up_all-Kept :
      (mode : Mode) (randint : ℕ → ℕ → ℕ → ℕ) (k : ℕ) (log : List E) (fs : List (Follower E))
      → Kept mode log fs
      → Kept mode log (catch_up_all randint k fs)
  unfolding catch_up_all
  catch_up_all-Kept async randint k log fs a =
      catch_up_all-All randint k fs (λ n. catch_up-IsBehind n log) a
  catch_up_all-Kept sync randint k log fs a =
      catch_up_all-All randint k fs (λ n. catch_up-IsCaughtUp n log) a
  catch_up_all-Kept semi randint k log [] a = tt
  catch_up_all-Kept semi randint k log (f ∷ fs) (c, a) = (
    catch_up-IsCaughtUp (randint k 0 3) log f c,
    catch_up_all-All randint (suc k) fs (λ n. catch_up-IsBehind n log) a,
  )
