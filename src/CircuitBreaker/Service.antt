-- ===== src/CircuitBreaker/Service.antt =====
-- `FlakyService` and `run`. A tick is a fifth of a second; the values that `t` takes are given, since
-- the source adds floats, and `unlucky k` is whether the k-th answer of
-- `rng.random()` is below 0.02.
use learn_system_design.Prelude.{
  ℕ, ◌+◌, ◌*◌, ◌≡◌, refl, Bool, ◌&&◌, Option, none, some, List, [], leb, ltb, if◌then◌else◌, String,
  ◌∷◌, length, arith,
}
use learn_system_design.CircuitBreaker.{Breaker, closed, Reply, fast_failed, failed, returned, call}

pub record FlakyService : Type 0 where
  pub draws : ℕ
  pub now : ℕ
  pub calls_received : ℕ

abbrev pub flaky_service : FlakyService
flaky_service = record { draws = 0; now = 0; calls_received = 0 }

-- `FlakyService.request`: "ok", or `none` for a TimeoutError. In the outage nothing is drawn.
unfoldable pub request : (ℕ → Bool) → FlakyService → Option String × FlakyService
request unlucky s =
    let received = record s { calls_received = s.calls_received + 1 } in
    if leb 50 s.now && ltb s.now 125
    then (none, received)
    else (if unlucky s.draws then none else some "ok", record received { draws = s.draws + 1 })

pub record Stats : Type 0 where
  pub ok : ℕ
  pub failed_calls : ℕ
  pub fast : ℕ
  pub time_blocked : ℕ

-- The branches of the `try` in `run`.
unfoldable pub counted : Reply String → Stats → Stats
counted fast_failed s = record s { fast = s.fast + 1 }
counted failed s = record s {
  failed_calls = s.failed_calls + 1;
  time_blocked = s.time_blocked + 10;
}
counted (returned u) s = record s { ok = s.ok + 1 }

-- A breaker that fails fast does not call the service.
unfoldable pub after_reply : Reply String → FlakyService → FlakyService → FlakyService
after_reply fast_failed before after = before
after_reply failed before after = after
after_reply (returned u) before after = after

-- `svc.request()`, with no breaker
unfoldable pub reply_of : Option String → Reply String
reply_of none = failed
reply_of (some u) = returned u

-- One round of `run`, with the breaker or without.
unfoldable pub round :
    (ℕ → Bool) → Bool → ℕ → FlakyService → Breaker → Stats → FlakyService × Breaker × Stats
unfolding request call counted after_reply reply_of
round unlucky use_breaker t svc cb stats =
    let at = record svc { now = t } in
    let (answer, after) = request unlucky at in
    let (cb', reply) = if use_breaker then call answer t cb else (cb, reply_of answer) in
    (after_reply reply at after, cb', counted reply stats)

-- The loop of `run`, over the values that `t` takes.
unfoldable pub run_over :
    (ℕ → Bool) → Bool → List ℕ → FlakyService → Breaker → Stats → FlakyService × Breaker × Stats
unfolding round
run_over unlucky use_breaker [] svc cb stats = (svc, cb, stats)
run_over unlucky use_breaker (t ∷ times) svc cb stats =
    let (svc', cb', stats') = round unlucky use_breaker t svc cb stats in
    run_over unlucky use_breaker times svc' cb' stats'

-- `CircuitBreaker()`, its cooldown in ticks
abbrev pub default_breaker : Breaker
default_breaker = record {
  threshold_num = 1;
  threshold_den = 2;
  window = 10;
  min_calls = 5;
  cooldown = 25;
  half_open_trials = 2;
  state = closed;
  results = [];
  opened_at = 0;
  trial_successes = 0;
  transitions = [];
}

-- `run`
unfoldable pub run : (ℕ → Bool) → Bool → List ℕ → FlakyService × Breaker × Stats
unfolding run_over
run unlucky use_breaker times =
    run_over unlucky use_breaker times flaky_service default_breaker
      (record { ok = 0; failed_calls = 0; fast = 0; time_blocked = 0 })

-- Every round is counted once, the service receives the calls that do not fail fast, and each failed call
-- blocks for two seconds.
pub record Tallies (rounds : ℕ) (svc : FlakyService) (stats : Stats) : Type 0 where
  pub all : stats.ok + stats.failed_calls + stats.fast ≡ rounds
  pub received : svc.calls_received ≡ stats.ok + stats.failed_calls
  pub blocked : stats.time_blocked ≡ stats.failed_calls * 10

request_received :
    (unlucky : ℕ → Bool) (s : FlakyService)
    → (request unlucky s).1.calls_received ≡ s.calls_received + 1
unfolding request
request_received unlucky s = ground arith

counted-Tallies :
    (n : ℕ) (reply : Reply String) (before after : FlakyService) (stats : Stats)
    → Tallies n before stats
    → after.calls_received ≡ before.calls_received + 1
    → Tallies (n + 1) (after_reply reply before after) (counted reply stats)
unfolding counted after_reply
counted-Tallies n fast_failed before after stats h e = ground arith
counted-Tallies n failed before after stats h e = ground arith
counted-Tallies n (returned u) before after stats h e = ground arith

run_over-Tallies :
    (unlucky : ℕ → Bool) (use_breaker : Bool) (times : List ℕ) (n : ℕ) (svc : FlakyService)
    (cb : Breaker) (stats : Stats)
    → Tallies n svc stats
    → Tallies
        (n + length times)
        (run_over unlucky use_breaker times svc cb stats).0
        (run_over unlucky use_breaker times svc cb stats).2
unfolding run_over round
run_over-Tallies unlucky use_breaker [] n svc cb stats h = record {
  all = omega (arith, h.all);
  received = h.received;
  blocked = h.blocked;
}
run_over-Tallies unlucky use_breaker (t ∷ times) n svc cb stats h =
    let at = record svc { now = t } in
    let answer = (request unlucky at).0 in
    let after = (request unlucky at).1 in
    let next = if use_breaker then call answer t cb else (cb, reply_of answer) in
    let here : Tallies n at stats = record {
      all = h.all;
      received = h.received;
      blocked = h.blocked;
    } in
    let one = counted-Tallies n next.1 at after stats here (request_received unlucky at) in
    let rest =
      run_over-Tallies unlucky use_breaker times (n + 1) (after_reply next.1 at after) next.0
        (counted next.1 stats) one in
    record { all = omega (arith, rest.all); received = rest.received; blocked = rest.blocked }

-- With the breaker or without, whatever is drawn: every round of `run` is a success, a failure or fails fast, the service receives the first two, and each failed call blocks for two seconds.
pub run-Tallies :
    (unlucky : ℕ → Bool) (use_breaker : Bool) (times : List ℕ)
    → Tallies (length times) (run unlucky use_breaker times).0 (run unlucky use_breaker times).2
unfolding run
run-Tallies unlucky use_breaker times =
    let h =
      run_over-Tallies unlucky use_breaker times 0 flaky_service default_breaker
        (record { ok = 0; failed_calls = 0; fast = 0; time_blocked = 0 })
        (record { all = refl; received = refl; blocked = refl }) in
    record { all = omega (arith, h.all); received = h.received; blocked = h.blocked }
