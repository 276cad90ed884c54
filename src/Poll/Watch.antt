-- ===== src/Poll/Watch.antt =====
-- bitboxsync/engine_watch.go: the loop of runNamespaceWatch, one turn at a time. What one watch
-- returns, whether the context is done by then, and how the sleep after it ends are arguments of a turn.
use bitboxsync_client_go.Prelude.{
  ℕ, ◌+◌, ◌-◌, ◌*◌, ◌/◌, ◌^◌, ◌≤◌, Bool, true, false, ◌||◌, List, [], ◌∷◌, ◌++◌, Option, none, some,
  length, min, ◌==◌, ◌≡◌, refl, if◌then◌else◌, All, arith,
}
use bitboxsync_client_go.Result.{Error, Result, ok, err, is_closed, api_status}
use bitboxsync_client_go.Poll.{
  Cadence, backoff_poll_interval, jitter_poll_interval, random_duration,
}
use bitboxsync_client_go.Poll.Bounds.{
  IsSane, capped_doubled_interval-min, jitter_poll_interval_bounds,
}
use bitboxsync_client_go.Poll.Loop.{IsDraw}

abbrev pub namespace_watch_timeout_reconnect_jitter : ℕ
namespace_watch_timeout_reconnect_jitter = 5 * 10 ^ 9

unfoldable pub is_namespace_watch_unsupported : Error → Bool
is_namespace_watch_unsupported x = elim (api_status x) [
  | none ↦ false
  | some status ↦ status == 404 || status == 405 || status == 501
]

-- sleepOrDone: (false, false), (true, false), (true, true)
pub data Sleep : Type 0 where
  stopped elapsed logged_in : Sleep

abbrev is_stopped : Sleep → Bool
is_stopped stopped = true
is_stopped elapsed = false
is_stopped logged_in = false

abbrev after_login : Sleep → ℕ → ℕ
after_login logged_in failures = 0
after_login stopped failures = failures
after_login elapsed failures = failures

-- The variable of the loop, the duration it last slept for, the errors it has reported with
-- EventNamespaceWatchFailed, the latest first, and whether it has returned.
pub record Watch : Type 0 where
  pub failures : ℕ
  pub pause : ℕ
  pub reports : List Error
  pub returned : Bool

-- the loop gives up, and does not sleep
unfoldable pub gives_up : Bool → Error → Bool
gives_up ctx_done x = ctx_done || is_closed x || is_namespace_watch_unsupported x

unfoldable pub watch_turn : Cadence → (ℕ → Option ℕ) → Bool → Result Bool → Sleep → Watch → Watch
watch_turn c draw ctx_done (ok true) sleep l = record l {
  failures = 0;
  pause = random_duration draw namespace_watch_timeout_reconnect_jitter;
  returned = is_stopped sleep;
}
watch_turn c draw ctx_done (ok false) sleep l = record l { failures = 0 }
watch_turn c draw ctx_done (err x) sleep l =
    let failures = l.failures + 1 in
    let interval = backoff_poll_interval c.poll_interval c.max_poll_interval failures in
    if gives_up ctx_done x then record l { returned = true } else record {
      failures = after_login sleep failures;
      pause = jitter_poll_interval draw interval;
      reports = x ∷ l.reports;
      returned = is_stopped sleep;
    }

-- watches that fail one after another, the latest first
abbrev pub failed_watches : Cadence → (ℕ → Option ℕ) → List Error → Watch → Watch
failed_watches c draw [] l = l
failed_watches c draw (x ∷ xs) l =
    watch_turn c draw false (err x) elapsed (failed_watches c draw xs l)

-- an error after which the loop tries again
abbrev pub IsRetried : Error → Type 0
IsRetried x = gives_up false x ≡ false

failures-failed_watches :
    (c : Cadence) (draw : ℕ → Option ℕ) (xs : List Error) (l : Watch)
    → All IsRetried xs
    → ((failed_watches c draw xs l).failures ≡ length xs + l.failures)
      × ((failed_watches c draw xs l).reports ≡ xs ++ l.reports)
unfolding watch_turn
failures-failed_watches c draw [] l h = (omega arith, refl)
failures-failed_watches c draw (x ∷ xs) l (h, hs) =
    let (n, seen) = failures-failed_watches c draw xs l hs in
    (rw (h) omega (arith, n), rw (h, seen) refl)

backoff-min :
    (c : Cadence) (n : ℕ)
    → IsSane c
    → backoff_poll_interval c.poll_interval c.max_poll_interval (n + 1)
      ≡ min (c.poll_interval * 2 ^ (n + 1)) c.max_poll_interval
unfolding backoff_poll_interval
backoff-min c n h = ground (
  arith,
  capped_doubled_interval-min c.poll_interval c.max_poll_interval (n + 1) h.positive h.ordered
      h.fits,
)

-- a watch that answers
abbrev pub answered : Cadence → (ℕ → Option ℕ) → Bool → Watch → Watch
answered c draw timed_out l = watch_turn c draw false (ok timed_out) elapsed l

fresh-answered :
    (c : Cadence) (draw : ℕ → Option ℕ) (timed_out : Bool) (l : Watch)
    → ((answered c draw timed_out l).failures ≡ 0)
      × ((answered c draw timed_out l).reports ≡ l.reports)
unfolding watch_turn
fresh-answered c draw true l = (refl, refl)
fresh-answered c draw false l = (refl, refl)

pause-failed_turn :
    (c : Cadence) (draw : ℕ → Option ℕ) (l : Watch) (x : Error) (n interval : ℕ)
    → IsSane c
    → IsDraw draw
    → IsRetried x
    → l.failures ≡ n
    → interval ≡ min (c.poll_interval * 2 ^ (n + 1)) c.max_poll_interval
    → ((watch_turn c draw false (err x) elapsed l).returned ≡ false)
      × ((watch_turn c draw false (err x) elapsed l).reports ≡ x ∷ l.reports)
      × (interval - interval / 10 ≤ (watch_turn c draw false (err x) elapsed l).pause)
      × ((watch_turn c draw false (err x) elapsed l).pause ≤ interval + interval / 10)
unfolding watch_turn
pause-failed_turn c draw l x n interval sane drawn h hn e =
    let paced : backoff_poll_interval c.poll_interval c.max_poll_interval (l.failures + 1)
        ≡ interval =
      rw (backoff-min c l.failures sane, hn, e) refl in
    let (early, late) = jitter_poll_interval_bounds draw interval drawn in
    rw (h, paced) (refl, refl, early, late)

-- After a watch that answers, however many have failed before it, n + 1 failures in a row that the loop
-- retries, without a login: it has not returned, it has reported just these failures, and it has slept
-- for poll * 2 ^ (n + 1), or the maximum if that is less, but for a tenth of it at most, for a sane
-- configuration.
pub pause-failed_watches :
    (c : Cadence) (draw : ℕ → Option ℕ) (timed_out : Bool) (l : Watch) (x : Error) (xs : List Error)
    (interval : ℕ)
    → IsSane c
    → IsDraw draw
    → All IsRetried (x ∷ xs)
    → interval ≡ min (c.poll_interval * 2 ^ (length xs + 1)) c.max_poll_interval
    → ((failed_watches c draw (x ∷ xs) (answered c draw timed_out l)).returned ≡ false)
      × ((failed_watches c draw (x ∷ xs) (answered c draw timed_out l)).reports
          ≡ x ∷ xs ++ l.reports)
      × (interval - interval / 10
          ≤ (failed_watches c draw (x ∷ xs) (answered c draw timed_out l)).pause)
      × ((failed_watches c draw (x ∷ xs) (answered c draw timed_out l)).pause
          ≤ interval + interval / 10)
pause-failed_watches c draw timed_out l x xs interval sane drawn (h, hs) e =
    let start = answered c draw timed_out l in
    let (fresh, same) = fresh-answered c draw timed_out l in
    let (n, seen) = failures-failed_watches c draw xs start hs in
    let (go_on, reports, early, late) =
      pause-failed_turn c draw (failed_watches c draw xs start) x (length xs) interval sane drawn h
        (omega (arith, n, fresh)) e in
    (go_on, cc (reports, seen, same), early, late)
