-- ===== src/Tests/Timing.antt =====
-- The bounds on intervals and keys at concrete inputs.
use bitboxsync_client_go.Prelude.{
  ℕ, zero, suc, ◌*◌, ◌-◌, ◌+◌, ◌/◌, ◌^◌, ◌≤◌, ◌<◌, min, true, false, Option, none, some, [], ◌∷◌,
  ◌≡◌, refl, arith,
}
use bitboxsync_client_go.Prelude.Bytes.{Bytes}
use bitboxsync_client_go.Poll.{
  Backoff, Cadence, capped_doubled_interval, cadence_with_defaults, record_result, reset_backoff,
  jitter_poll_interval,
}
use bitboxsync_client_go.Poll.Watch.{
  Watch, IsRetried, gives_up, is_namespace_watch_unsupported, failed_watches, answered,
  pause-failed_watches,
}
use bitboxsync_client_go.Result.{Error, api, is_closed, api_status}
use bitboxsync_client_go.Poll.Loop.{
  Loop, sync_woken, run_start, turn, started, turned, IsDraw, IsArmed, Reach-IsArmed, by_wake,
  turn_recovers,
}
use bitboxsync_client_go.Poll.Bounds.{
  IsPaced, IsSane, fail_times, capped_doubled_interval-min, cadence_with_defaults-IsSane,
  record_result-IsPaced, interval-fail_times, jitter_poll_interval_bounds,
}
use bitboxsync_client_go.Keys.Injective.{join_key_parts_inj, logical_lock_key_inj}

capped_doubled_interval-min_example : capped_doubled_interval 5 60 3 ≡ min (5 * 2 ^ 3) 60
capped_doubled_interval-min_example =
    capped_doubled_interval-min 5 60 3 (omega arith) (omega arith) (omega arith)

cadence_with_defaults-IsSane_example : IsSane (cadence_with_defaults 0 7)
cadence_with_defaults-IsSane_example = cadence_with_defaults-IsSane 0 7 (omega arith) (omega arith)

abbrev cadence : Cadence
cadence = record { poll_interval = 5; max_poll_interval = 60 }

abbrev backoff : Backoff
backoff = record { interval = 10; failures = 1; idle_polls = 0 }

cadence-IsSane : IsSane cadence
cadence-IsSane = ground arith

record_result-IsPaced_example :
    IsPaced cadence (record_result cadence true false true false backoff)
    × IsPaced cadence (reset_backoff cadence)
record_result-IsPaced_example =
    record_result-IsPaced cadence true false true false backoff cadence-IsSane

interval-fail_times_example :
    (fail_times 4 cadence true (reset_backoff cadence)).interval ≡ min (5 * 2 ^ 4) 60
interval-fail_times_example = interval-fail_times 3 cadence true cadence-IsSane

-- the greatest number that a draw may give
abbrev last_below : ℕ → Option ℕ
last_below zero = none
last_below (suc n) = some n

last_below-lt : (span r : ℕ) → last_below span ≡ some r → r < span
last_below-lt zero r h = absurd (cc)
last_below-lt (suc n) r h = ground arith

jitter_poll_interval_bounds_example :
    (300 - 300 / 10 ≤ jitter_poll_interval last_below 300)
    × (jitter_poll_interval last_below 300 ≤ 300 + 300 / 10)
jitter_poll_interval_bounds_example = jitter_poll_interval_bounds last_below 300 last_below-lt

abbrev namespace : Bytes
namespace = 1 ∷ 2 ∷ []

abbrev collection : Bytes
collection = 3 ∷ []

abbrev key : Bytes
key = 4 ∷ 5 ∷ []

join_key_parts_inj_example : namespace ∷ collection ∷ [] ≡ namespace ∷ collection ∷ []
join_key_parts_inj_example =
    join_key_parts_inj (namespace ∷ collection ∷ []) (namespace ∷ collection ∷ [])
      (omega arith, (omega arith, tt)) (omega arith, (omega arith, tt)) refl

logical_lock_key_inj_example : (namespace ≡ namespace) × (collection ≡ collection) × (key ≡ key)
logical_lock_key_inj_example =
    logical_lock_key_inj namespace collection key namespace collection key
      (omega arith, (omega arith, (omega arith, (omega arith, (omega arith, (omega arith, tt))))))
      refl

abbrev no_draw : ℕ → Option ℕ
no_draw span = none

no_draw-IsDraw : IsDraw no_draw
no_draw-IsDraw span r h = absurd (cc h)

-- the first pass fails, then a wake-up succeeds
abbrev failing : Loop
failing = run_start cadence true no_draw false true

Reach-IsArmed_example : IsArmed cadence (turn cadence true no_draw (sync_woken true false) failing)
unfolding run_start
Reach-IsArmed_example = Reach-IsArmed cadence-IsSane (
    turned true no_draw (sync_woken true false) failing no_draw-IsDraw refl
      (started true false true no_draw no_draw-IsDraw))

turn_recovers_example :
    ((turn cadence true no_draw (sync_woken true false) failing).backoff ≡ reset_backoff cadence)
    × (cadence.poll_interval - cadence.poll_interval / 10
        ≤ (turn cadence true no_draw (sync_woken true false) failing).timer)
    × ((turn cadence true no_draw (sync_woken true false) failing).timer
        ≤ cadence.poll_interval + cadence.poll_interval / 10)
    × ((turn cadence true no_draw (sync_woken true false) failing).returned ≡ failing.returned)
turn_recovers_example =
    turn_recovers cadence true no_draw (sync_woken true false) failing no_draw-IsDraw (by_wake true)

-- a watch that has failed before answers, then fails twice with 500
abbrev tired : Watch
tired = record { failures = 7; pause = 0; reports = []; returned = false }

abbrev server_error : Error
server_error = api 500

server_error-IsRetried : IsRetried server_error
unfolding gives_up is_closed is_namespace_watch_unsupported api_status
server_error-IsRetried = refl

abbrev twice : Watch
twice =
    failed_watches cadence no_draw (server_error ∷ server_error ∷ [])
      (answered cadence no_draw true tired)

abbrev twice_interval : ℕ
twice_interval = min (cadence.poll_interval * 2 ^ 2) cadence.max_poll_interval

pause-failed_watches_example :
    (twice.returned ≡ false)
    × (twice.reports ≡ server_error ∷ server_error ∷ [])
    × (twice_interval - twice_interval / 10 ≤ twice.pause)
    × (twice.pause ≤ twice_interval + twice_interval / 10)
pause-failed_watches_example =
    pause-failed_watches cadence no_draw true tired server_error (server_error ∷ []) twice_interval
      cadence-IsSane no_draw-IsDraw (server_error-IsRetried, (server_error-IsRetried, tt)) refl
