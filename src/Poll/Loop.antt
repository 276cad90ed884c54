-- ===== src/Poll/Loop.antt =====
-- bitboxsync/engine_run.go: the select loop of Run, one turn at a time. What a sync pass, the clock
-- and the other goroutines bring about is the wakeup of a turn.
use bitboxsync_client_go.Prelude.{
  ℕ, ◌+◌, ◌-◌, ◌/◌, ◌<◌, ◌≤◌, Bool, true, false, Option, some, ◌≡◌, refl,
}
use bitboxsync_client_go.Poll.{Backoff, Cadence, reset_backoff, record_result, jitter_poll_interval}
use bitboxsync_client_go.Poll.Bounds.{
  IsPaced, IsSane, record_result-IsPaced, jitter_poll_interval_bounds,
}

-- The variables of the loop, the duration that its timer was last set to, and whether it has returned.
pub record Loop : Type 0 where
  pub backoff : Backoff
  pub timer : ℕ
  pub returned : Bool

-- The case that a select takes. A pass reports activity and an error; a request is answered without
-- a pass when its namespaces are known already or cannot be checked.
pub data Wakeup : Type 0 where
  context_done engine_closed : Wakeup
  timer_fired sync_woken sync_requested : (activity failed : Bool) → Wakeup
  login_succeeded request_answered : Wakeup

-- recordResult and timer.Reset after a pass
unfoldable pub run_sync : Cadence → Bool → (ℕ → Option ℕ) → Bool → Bool → Bool → Loop → Loop
run_sync c idle draw reset_on_success activity failed l =
    let b = record_result c idle activity failed reset_on_success l.backoff in
    record l { backoff = b; timer = jitter_poll_interval draw b.interval }

-- before the loop: the first pass, then the timer
unfoldable pub run_start : Cadence → Bool → (ℕ → Option ℕ) → Bool → Bool → Loop
run_start c idle draw activity failed =
    let b = record_result c idle activity failed false (reset_backoff c) in
    record { backoff = b; timer = jitter_poll_interval draw b.interval; returned = false }

unfoldable pub turn : Cadence → Bool → (ℕ → Option ℕ) → Wakeup → Loop → Loop
unfolding run_sync
turn c idle draw context_done l = record l { returned = true }
turn c idle draw engine_closed l = record l { returned = true }
turn c idle draw (timer_fired activity failed) l = run_sync c idle draw false activity failed l
turn c idle draw (sync_woken activity failed) l = run_sync c idle draw true activity failed l
turn c idle draw (sync_requested activity failed) l = run_sync c idle draw true activity failed l
turn c idle draw login_succeeded l =
    let b = reset_backoff c in
    record l { backoff = b; timer = jitter_poll_interval draw b.interval }
turn c idle draw request_answered l = l

-- A draw lies below its span.
abbrev pub IsDraw : (ℕ → Option ℕ) → Type 0
IsDraw draw = (span r : ℕ) → draw span ≡ some r → r < span

-- The states that Run passes through. SetIdlePolling may change the mode before every turn.
pub data Reach (c : Cadence) : Loop → Type 0 where
  started :
      (idle activity failed : Bool) (draw : ℕ → Option ℕ)
      → IsDraw draw
      → Reach c (run_start c idle draw activity failed)
  turned :
      (idle : Bool) (draw : ℕ → Option ℕ) (w : Wakeup) (l : Loop)
      → IsDraw draw
      → l.returned ≡ false
      → Reach c l
      → Reach c (turn c idle draw w l)

-- the interval is paced, and the timer is set to it but for a tenth
pub record IsArmed (c : Cadence) (l : Loop) : Type 0 where
  pub paced : IsPaced c l.backoff
  pub early : l.backoff.interval - l.backoff.interval / 10 ≤ l.timer
  pub late : l.timer ≤ l.backoff.interval + l.backoff.interval / 10

armed :
    (c : Cadence) (draw : ℕ → Option ℕ) (b : Backoff) (r : Bool)
    → IsDraw draw
    → IsPaced c b
    → IsArmed c (record { backoff = b; timer = jitter_poll_interval draw b.interval; returned = r })
armed c draw b r drawn paced =
    let (early, late) = jitter_poll_interval_bounds draw b.interval drawn in
    record { paced = paced; early = early; late = late }

turn-IsArmed :
    (c : Cadence) (idle : Bool) (draw : ℕ → Option ℕ) (w : Wakeup) (l : Loop)
    → IsSane c
    → IsDraw draw
    → IsArmed c l
    → IsArmed c (turn c idle draw w l)
unfolding turn run_sync
turn-IsArmed c idle draw context_done l sane drawn h = record {
  paced = h.paced;
  early = h.early;
  late = h.late;
}
turn-IsArmed c idle draw engine_closed l sane drawn h = record {
  paced = h.paced;
  early = h.early;
  late = h.late;
}
turn-IsArmed c idle draw (timer_fired activity failed) l sane drawn h =
    armed c draw _ l.returned drawn
      (record_result-IsPaced c idle activity failed false l.backoff sane).0
turn-IsArmed c idle draw (sync_woken activity failed) l sane drawn h =
    armed c draw _ l.returned drawn
      (record_result-IsPaced c idle activity failed true l.backoff sane).0
turn-IsArmed c idle draw (sync_requested activity failed) l sane drawn h =
    armed c draw _ l.returned drawn
      (record_result-IsPaced c idle activity failed true l.backoff sane).0
turn-IsArmed c idle draw login_succeeded l sane drawn h =
    armed c draw _ l.returned drawn (record_result-IsPaced c idle true true true l.backoff sane).1
turn-IsArmed c idle draw request_answered l sane drawn h = h

-- In every state that Run reaches with a sane configuration, whatever the passes report and however
-- the cases of the select and the idle mode alternate: the interval lies between the poll interval and
-- its maximum, and the timer was last set to the interval, but for a tenth of it at most.
pub Reach-IsArmed : {c : Cadence} {l : Loop} → IsSane c → Reach c l → IsArmed c l
unfolding run_start
Reach-IsArmed {c} sane (started idle activity failed draw drawn) =
    armed c draw _ false drawn
      (record_result-IsPaced c idle activity failed false (reset_backoff c) sane).0
Reach-IsArmed {c} sane (turned idle draw w l drawn running h) =
    turn-IsArmed c idle draw w l sane drawn (Reach-IsArmed sane h)

-- a login, or a pass that was asked for and succeeds
pub data IsRecovery : Wakeup → Type 0 where
  by_login : IsRecovery login_succeeded
  by_wake : (activity : Bool) → IsRecovery (sync_woken activity false)
  by_request : (activity : Bool) → IsRecovery (sync_requested activity false)

reset_timer :
    (draw : ℕ → Option ℕ)
    → IsDraw draw
    → (c : Cadence) (l : Loop)
    → (reset_backoff c ≡ reset_backoff c)
      × (c.poll_interval - c.poll_interval / 10 ≤ jitter_poll_interval draw c.poll_interval)
      × (jitter_poll_interval draw c.poll_interval ≤ c.poll_interval + c.poll_interval / 10)
      × (l.returned ≡ l.returned)
reset_timer draw drawn c l =
    let (early, late) = jitter_poll_interval_bounds draw c.poll_interval drawn in
    (refl, early, late, refl)

-- After a login, or a pass that was asked for and succeeds, however many passes have failed before and
-- whatever the idle mode: the backoff is gone, the timer is set for the poll interval but for a tenth
-- of it at most, and the loop goes on if it had not returned.
pub turn_recovers :
    (c : Cadence) (idle : Bool) (draw : ℕ → Option ℕ) (w : Wakeup) (l : Loop)
    → IsDraw draw
    → IsRecovery w
    → ((turn c idle draw w l).backoff ≡ reset_backoff c)
      × (c.poll_interval - c.poll_interval / 10 ≤ (turn c idle draw w l).timer)
      × ((turn c idle draw w l).timer ≤ c.poll_interval + c.poll_interval / 10)
      × ((turn c idle draw w l).returned ≡ l.returned)
unfolding turn run_sync record_result reset_backoff
turn_recovers c idle draw w l drawn by_login = reset_timer draw drawn c l
turn_recovers c idle draw w l drawn (by_wake true) = reset_timer draw drawn c l
turn_recovers c idle draw w l drawn (by_wake false) = reset_timer draw drawn c l
turn_recovers c idle draw w l drawn (by_request true) = reset_timer draw drawn c l
turn_recovers c idle draw w l drawn (by_request false) = reset_timer draw drawn c l
