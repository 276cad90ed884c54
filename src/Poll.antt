-- ===== src/Poll.antt =====
-- bitboxsync/engine_run.go: the poll intervals and their backoff. A `time.Duration` is a number of
-- nanoseconds; a negative one is 0 here, which every test `<= 0` of the source treats alike.
pub mod Bounds
pub mod Loop
pub mod Watch
use bitboxsync_client_go.Prelude.{
  ℕ, zero, suc, ◌+◌, ◌-◌, ◌*◌, ◌/◌, ◌%◌, ◌^◌, Bool, ◌||◌, not, ltb, leb, ◌==◌, max, Option, none,
  some, if◌then◌else◌,
}

-- the `for range doublings` loop; `interval *= 2` wraps at 64 bits
doubled : ℕ → ℕ → ℕ → ℕ
doubled zero max interval = if ltb max interval then max else interval
doubled (suc n) max interval =
    let rest = doubled n max (interval * 2 % 2 ^ 64) in
    if leb max interval then max else if ltb (max / 2) interval then max else rest

unfoldable pub capped_doubled_interval : ℕ → ℕ → ℕ → ℕ
unfolding doubled
capped_doubled_interval base max doublings =
    if base == 0
    then 0
    else if ltb max base
    then doubled doublings base base
    else doubled doublings max base

unfoldable pub idle_poll_interval : ℕ → ℕ → ℕ → ℕ
idle_poll_interval base max idle_polls = capped_doubled_interval base max (idle_polls / 3)

unfoldable pub backoff_poll_interval : ℕ → ℕ → ℕ → ℕ
backoff_poll_interval base max failures =
    if failures == 0 then base else capped_doubled_interval base max failures

-- `draw span` is what crypto/rand.Int gives below `span`, `none` when it fails.
unfoldable pub jitter_poll_interval : (ℕ → Option ℕ) → ℕ → ℕ
jitter_poll_interval draw interval =
    let jitter = interval / 10 in
    if interval == 0
    then 0
    else if jitter == 0
    then interval
    else elim (draw (2 * jitter + 1)) [ none ↦ interval | some offset ↦ interval - jitter + offset ]

-- engine_watch.go
unfoldable pub random_duration : (ℕ → Option ℕ) → ℕ → ℕ
random_duration draw max =
    if max == 0 then 0 else elim (draw (max + 1)) [ none ↦ max / 2 | some offset ↦ offset ]

-- The local variables of `Run`.
pub record Backoff : Type 0 where
  pub interval : ℕ
  pub failures : ℕ
  pub idle_polls : ℕ

-- cfg.PollInterval and cfg.MaxPollInterval
pub record Cadence : Type 0 where
  pub poll_interval : ℕ
  pub max_poll_interval : ℕ

unfoldable pub reset_backoff : Cadence → Backoff
reset_backoff c = record { interval = c.poll_interval; failures = 0; idle_polls = 0 }

-- `failed` is `err != nil`, `idle` what e.idlePolling holds.
unfoldable pub record_result : Cadence → Bool → Bool → Bool → Bool → Backoff → Backoff
record_result c idle activity failed reset_on_success b =
    if failed
    then record {
      interval = backoff_poll_interval c.poll_interval c.max_poll_interval (b.failures + 1);
      failures = b.failures + 1;
      idle_polls = 0;
    }
    else if activity || reset_on_success
    then record { interval = c.poll_interval; failures = 0; idle_polls = 0 }
    else if not idle
    then record { interval = c.poll_interval; failures = 0; idle_polls = 0 }
    else record {
      interval = idle_poll_interval c.poll_interval c.max_poll_interval (b.idle_polls + 1);
      failures = 0;
      idle_polls = b.idle_polls + 1;
    }

-- types.go, Config.withDefaults: the two intervals.
unfoldable pub cadence_with_defaults : ℕ → ℕ → Cadence
cadence_with_defaults poll max_poll =
    let p : ℕ = if poll == 0 then 5 * 60 * 10 ^ 9 else poll in
    record {
      poll_interval = p;
      max_poll_interval = if ltb max_poll p then max (60 * 60 * 10 ^ 9) p else max_poll;
    }
