-- ===== src/Call/InactivityTimer.antt =====
-- The periodic request for an inactivity scan: engine/src/net/rtp/rtp_inactivity_timer.cpp. A task
-- dispatched to the executor and a wait's completion are events. `waits` are the waits that run,
-- `cancelled` those that `stop` cancelled and whose completion is still to come: with an abort, or
-- as it was on its way.
pub mod Stopping
use sbc.Base.{
  ℕ, zero, suc, ◌+◌, ◌-◌, Bool, true, false, not, ◌&&◌, if◌then◌else◌, ltb, List, [], ◌∷◌,
}

pub record RtpInactivityTimer : Type 0 where
  pub interval : ℕ
  pub scan_pending : Bool
  pub running : Bool
  pub waits : ℕ
  pub cancelled : ℕ

pub data WaitResult : Type 0 where
  expired failed : WaitResult

pub data TimerEvent : Type 0 where
  starts stops scans aborts : TimerEvent
  completes : WaitResult → TimerEvent
  completes_late : WaitResult → TimerEvent

unfoldable pub new_timer : ℕ → RtpInactivityTimer
new_timer interval = record {
  interval = interval;
  scan_pending = false;
  running = false;
  waits = 0;
  cancelled = 0;
}

unfoldable pub arm : RtpInactivityTimer → RtpInactivityTimer
arm t = record t { waits = suc t.waits }

unfoldable pub start : RtpInactivityTimer → RtpInactivityTimer
unfolding arm
start t = if not t.running && ltb 0 t.interval then arm (record t { running = true }) else t

unfoldable pub stop : RtpInactivityTimer → RtpInactivityTimer
stop t = record t { running = false; waits = 0; cancelled = t.cancelled + t.waits }

-- The handler of a wait that was not aborted.
unfoldable on_wait : WaitResult → RtpInactivityTimer → RtpInactivityTimer
unfolding arm
on_wait result t = if not t.running then t else (elim result [
  | failed ↦ record t { running = false }
  | expired ↦ arm (record t { scan_pending = true })
])

-- Whether a scan is due, once for each request.
unfoldable pub run_pending_scan : RtpInactivityTimer → Bool × RtpInactivityTimer
run_pending_scan t = (t.scan_pending, record t { scan_pending = false })

-- A completion needs a wait of its kind; an abort does nothing.
unfoldable pub timer_step : TimerEvent → RtpInactivityTimer → RtpInactivityTimer
unfolding start stop on_wait run_pending_scan
timer_step starts t = start t
timer_step stops t = stop t
timer_step scans t = (run_pending_scan t).1
timer_step aborts t = record t { cancelled = t.cancelled - 1 }
timer_step (completes result) t =
    if ltb 0 t.waits then on_wait result (record t { waits = t.waits - 1 }) else t
timer_step (completes_late result) t =
    if ltb 0 t.cancelled then on_wait result (record t { cancelled = t.cancelled - 1 }) else t

abbrev pub timer_run : List TimerEvent → RtpInactivityTimer → RtpInactivityTimer
timer_run [] t = t
timer_run (e ∷ es) t = timer_run es (timer_step e t)
