-- ===== src/Replication/Promotion.antt =====
-- Which follower becomes the leader, and what it lacks.
use learn_system_design.Prelude.{
  append-nil, append_assoc, ℕ, zero, suc, ◌≡◌, refl, Option, none, some, List, [], ◌∷◌, ◌++◌,
  length, arith, ap, sym, ◌∙◌, subst, length-map,
}
use learn_system_design.Replication.{
  Mode, async, sync, semi, Follower, ReplicatedDb, new_replica, new_followers, new_db, apply,
  apply_at, queue_at, write_followers, slowest, fastest, wait, draw_rtts, acknowledge, write,
  catch_up_all, replicate_some,
}
use learn_system_design.Replication.Failover.{
  Op, write_op, replicate_op, perform, perform_all, entries_of, IsBehind, IsCaughtUp, All, Kept,
  write_followers-Kept, catch_up_all-Kept,
}

module _ {E : Type 0} where
  wait-some :
      (mode : Mode) (uniform : ℕ → ℕ) (k : ℕ) (fs : List (Follower E)) (n : ℕ)
      → length fs ≡ suc n
      → (w : ℕ) × (wait mode (draw_rtts uniform k fs) ≡ some w)
  unfolding wait draw_rtts slowest fastest
  wait-some mode uniform k [] n h = ground (arith, h)
  wait-some async uniform k (f ∷ fs) n h = (0, refl)
  wait-some sync uniform k (f ∷ fs) n h = (_, refl)
  wait-some semi uniform k (f ∷ fs) n h = (_, refl)

  length-write_followers :
      (mode : Mode) (e : E) (fs : List (Follower E))
      → length (write_followers mode e fs) ≡ length fs
  unfolding write_followers
  length-write_followers async e fs = length-map fs (queue_at e)
  length-write_followers sync e fs = length-map fs (apply_at e)
  length-write_followers semi e [] = refl
  length-write_followers semi e (f ∷ fs) = ap suc (length-map fs (queue_at e))

  length-catch_up_all :
      (randint : ℕ → ℕ → ℕ → ℕ) (k : ℕ) (fs : List (Follower E))
      → length (catch_up_all randint k fs) ≡ length fs
  unfolding catch_up_all
  length-catch_up_all randint k [] = refl
  length-catch_up_all randint k (f ∷ fs) = ap suc (length-catch_up_all randint (suc k) fs)

  -- The leader has written these entries, and the followers have what the mode promises.
  pub record Follows (mode : Mode) (n : ℕ) (log : List E) (db : ReplicatedDb E) : Type 0 where
    pub same : db.mode ≡ mode
    pub leader : db.leader.log ≡ log
    pub count : length db.followers ≡ suc n
    pub kept : Kept mode log db.followers

  acknowledge-Follows :
      (waited : Option ℕ) (w : ℕ) (mode : Mode) (n : ℕ) (log : List E) (e : E) (db : ReplicatedDb E)
      → waited ≡ some w
      → db.mode ≡ mode
      → db.leader.log ≡ log ++ e ∷ []
      → length db.followers ≡ suc n
      → Kept mode log db.followers
      → Follows mode n (log ++ e ∷ []) (acknowledge waited e db).0
  unfolding acknowledge
  acknowledge-Follows none w mode n log e db h s l c k = ground arith
  acknowledge-Follows (some ms) w mode n log e db h s l c k = record {
    same = s;
    leader = l;
    count = length-write_followers db.mode e db.followers ∙ c;
    kept = rw s (write_followers-Kept mode e log db.followers k);
  }

  write-Follows :
      (uniform : ℕ → ℕ) (mode : Mode) (n : ℕ) (log : List E) (e : E) (db : ReplicatedDb E)
      → Follows mode n log db
      → Follows mode n (log ++ e ∷ []) (write uniform e db).0
  unfolding write apply
  write-Follows uniform mode n log e db f =
      let (w, waited) = wait-some db.mode uniform db.draws db.followers n f.count in
      acknowledge-Follows (wait db.mode (draw_rtts uniform db.draws db.followers)) w mode n log e _
        waited f.same (ap (λ (l : List E). l ++ e ∷ []) f.leader) f.count f.kept

  replicate_some-Follows :
      (randint : ℕ → ℕ → ℕ → ℕ) (mode : Mode) (n : ℕ) (log : List E) (db : ReplicatedDb E)
      → Follows mode n log db
      → Follows mode n log (replicate_some randint db)
  unfolding replicate_some
  replicate_some-Follows randint mode n log db f = record {
    same = f.same;
    leader = f.leader;
    count = length-catch_up_all randint db.draws db.followers ∙ f.count;
    kept = catch_up_all-Kept mode randint db.draws log db.followers f.kept;
  }

  perform_all-Follows :
      (uniform : ℕ → ℕ) (randint : ℕ → ℕ → ℕ → ℕ) (mode : Mode) (n : ℕ) (log : List E)
      (ops : List (Op E)) (db : ReplicatedDb E)
      → Follows mode n log db
      → Follows mode n (log ++ entries_of ops) (perform_all uniform randint ops db)
  unfolding perform_all perform
  perform_all-Follows uniform randint mode n log [] db f =
      subst (λ (l : List E). Follows mode n l db) (sym (append-nil log)) f
  perform_all-Follows uniform randint mode n log (write_op e ∷ ops) db f =
      subst
        (λ (l : List E). Follows mode n l (perform_all uniform randint ops (write uniform e db).0))
        (append_assoc log (e ∷ []) (entries_of ops))
        (perform_all-Follows uniform randint mode n (log ++ e ∷ []) ops (write uniform e db).0
          (write-Follows uniform mode n log e db f))
  perform_all-Follows uniform randint mode n log (replicate_op ∷ ops) db f =
      perform_all-Follows uniform randint mode n log ops (replicate_some randint db)
        (replicate_some-Follows randint mode n log db f)

  new_followers-All :
      (P : Follower E → Type 0) (name n : ℕ)
      → ((k : ℕ) → P (record { replica = new_replica k; pending = [] }))
      → All P (new_followers name n)
  unfolding new_followers
  new_followers-All P name zero h = tt
  new_followers-All P name (suc n) h = (h name, new_followers-All P (suc name) n h)

length-new_followers : (E : Type 0) (name n : ℕ) → length (new_followers {E = E} name n) ≡ n
unfolding new_followers
length-new_followers E name zero = refl
length-new_followers E name (suc n) = ap suc (length-new_followers E (suc name) n)

new_followers-Kept :
    (E : Type 0) (mode : Mode) (n : ℕ) → Kept {E = E} mode [] (new_followers 1 (suc n))
unfolding new_followers new_replica
new_followers-Kept E async n = (refl, new_followers-All (IsBehind []) 2 n (λ k. refl))
new_followers-Kept E sync n =
    ((refl, refl), new_followers-All (IsCaughtUp []) 2 n (λ k. (refl, refl)))
new_followers-Kept E semi n = ((refl, refl), new_followers-All (IsBehind []) 2 n (λ k. refl))

module _ {E : Type 0} where
  pub run-Follows :
      (uniform : ℕ → ℕ) (randint : ℕ → ℕ → ℕ → ℕ) (mode : Mode) (n : ℕ) (ops : List (Op E))
      → Follows mode n (entries_of ops) (perform_all uniform randint ops (new_db mode (suc n)))
  run-Follows uniform randint mode n ops =
      perform_all-Follows uniform randint mode n [] ops (new_db mode (suc n)) (
        unfold new_db new_replica in
        record {
          same = refl;
          leader = refl;
          count = length-new_followers E 1 (suc n);
          kept = new_followers-Kept E mode n;
        })
