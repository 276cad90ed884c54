-- ===== src/Poll/Bounds.antt =====
-- The interval computed by repeated doubling, against its closed form.
use native.Mathlib.Nat.{pow-suc}
use bitboxsync_client_go.Prelude.{
  ℕ, zero, suc, ◌+◌, ◌-◌, ◌*◌, ◌/◌, ◌%◌, ◌^◌, ◌≤◌, ◌<◌, ◌≡◌, min, Bool, true, false, Option, some,
  arith, Option-cases, inl, inr,
}
use bitboxsync_client_go.Poll.{
  doubled, capped_doubled_interval, idle_poll_interval, backoff_poll_interval, jitter_poll_interval,
  Cadence, Backoff, record_result, reset_backoff, cadence_with_defaults,
}

two_pow_pos : (n : ℕ) → 1 ≤ 2 ^ n
two_pow_pos zero = omega arith
two_pow_pos (suc n) = grind (arith, two_pow_pos n, pow-suc 2 n)

double_pow : (i n : ℕ) → i * 2 ^ suc n ≡ i * 2 * 2 ^ n
double_pow i n = grind (arith, pow-suc 2 n)

le-mul_pow : (i n : ℕ) → i ≤ i * 2 ^ n
le-mul_pow i n = grind (arith, two_pow_pos n)

-- Doubling with the two early returns is multiplication by a power of two, capped.
doubled-min : (n cap i : ℕ) → cap < 2 ^ 63 → i ≤ cap → doubled n cap i ≡ min (i * 2 ^ n) cap
unfolding doubled
doubled-min zero cap i hm hi = ground arith
doubled-min (suc n) cap i hm hi = ground (
  arith,
  double_pow i n,
  le-mul_pow i (suc n),
  le-mul_pow (i * 2) n,
  doubled-min n cap (i * 2 % 2 ^ 64),
)

-- For a positive base and a cap of at least the base in an int64, `cappedDoubledInterval` is
-- base * 2 ^ doublings or the cap, whichever is less: the doubling never overflows.
pub capped_doubled_interval-min :
    (base cap doublings : ℕ)
    → 0 < base
    → base ≤ cap
    → cap < 2 ^ 63
    → capped_doubled_interval base cap doublings ≡ min (base * 2 ^ doublings) cap
unfolding capped_doubled_interval
capped_doubled_interval-min base cap n h hb hm = ground (arith, doubled-min n cap base)

-- The interval stays between the poll interval and its maximum.
pub record IsPaced (c : Cadence) (b : Backoff) : Type 0 where
  pub lower : c.poll_interval ≤ b.interval
  pub upper : b.interval ≤ c.max_poll_interval

pub record IsSane (c : Cadence) : Type 0 where
  pub positive : 0 < c.poll_interval
  pub ordered : c.poll_interval ≤ c.max_poll_interval
  pub fits : c.max_poll_interval < 2 ^ 63

capped_within :
    (base cap n : ℕ)
    → 0 < base
    → base ≤ cap
    → cap < 2 ^ 63
    → (base ≤ capped_doubled_interval base cap n) × (capped_doubled_interval base cap n ≤ cap)
capped_within base cap n h hb hm =
    omega (arith, capped_doubled_interval-min base cap n h hb hm, le-mul_pow base n)

-- Config.withDefaults turns any two intervals of an int64 into a sane cadence.
pub cadence_with_defaults-IsSane :
    (poll max_poll : ℕ)
    → poll < 2 ^ 63
    → max_poll < 2 ^ 63
    → IsSane (cadence_with_defaults poll max_poll)
unfolding cadence_with_defaults
cadence_with_defaults-IsSane poll max_poll hp hm = ground arith

-- Whatever a pass reports, `recordResult` keeps the interval of `Run` between the configured poll
-- interval and its maximum, and `resetBackoff` returns to the poll interval.
pub record_result-IsPaced :
    (c : Cadence) (idle activity failed reset : Bool) (b : Backoff)
    → IsSane c
    → IsPaced c (record_result c idle activity failed reset b) × IsPaced c (reset_backoff c)
unfolding record_result reset_backoff backoff_poll_interval idle_poll_interval
record_result-IsPaced c idle activity failed reset b h = ground (
  arith,
  capped_within c.poll_interval c.max_poll_interval (b.failures + 1),
  capped_within c.poll_interval c.max_poll_interval ((b.idle_polls + 1) / 3),
)

-- `k` failed passes in a row.
pub fail_times : ℕ → Cadence → Bool → Backoff → Backoff
fail_times zero c idle b = b
fail_times (suc k) c idle b = record_result c idle false true false (fail_times k c idle b)

failures-fail_times :
    (k : ℕ) (c : Cadence) (idle : Bool) (b : Backoff)
    → (fail_times k c idle b).failures ≡ b.failures + k
unfolding fail_times record_result
failures-fail_times zero c idle b = omega arith
failures-fail_times (suc k) c idle b = omega (arith, failures-fail_times k c idle b)

-- After a reset, k + 1 failed passes in a row leave the interval at poll * 2 ^ (k + 1), or at the
-- maximum if that is less.
pub interval-fail_times :
    (k : ℕ) (c : Cadence) (idle : Bool)
    → IsSane c
    → (fail_times (suc k) c idle (reset_backoff c)).interval
      ≡ min (c.poll_interval * 2 ^ suc k) c.max_poll_interval
unfolding fail_times record_result reset_backoff backoff_poll_interval
interval-fail_times k c idle h = ground (
  arith,
  failures-fail_times k c idle (reset_backoff c),
  capped_doubled_interval-min c.poll_interval c.max_poll_interval (suc k),
)

-- With a draw below its span, the jittered interval differs from the interval by at most a tenth.
pub jitter_poll_interval_bounds :
    (draw : ℕ → Option ℕ) (interval : ℕ)
    → ((span r : ℕ) → draw span ≡ some r → r < span)
    → (interval - interval / 10 ≤ jitter_poll_interval draw interval)
      × (jitter_poll_interval draw interval ≤ interval + interval / 10)
unfolding jitter_poll_interval
jitter_poll_interval_bounds draw interval h =
    let span = 2 * (interval / 10) + 1 in
    elim (Option-cases (draw span)) [
      | inl e ↦ rw e (ground arith)
      | inr (r, e) ↦ rw e (ground (arith, h span r e))
    ]
