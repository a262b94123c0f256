-- ===== src/Call/InactivityTimer/Stopping.antt =====
-- The runs of the inactivity timer.
use sbc.Base.{ℕ, ◌≤◌, Bool, true, false, List, [], ◌∷◌, arith}
use sbc.Call.InactivityTimer.{RtpInactivityTimer, TimerEvent, new_timer, timer_step, timer_run}

abbrev one_if : Bool → ℕ
one_if true = 1
one_if false = 0

step-waits :
    (e : TimerEvent) (t : RtpInactivityTimer)
    → one_if t.running ≤ t.waits
    → one_if (timer_step e t).running ≤ (timer_step e t).waits
unfolding timer_step
step-waits e t h = ground arith

run-waits :
    (es : List TimerEvent) (t : RtpInactivityTimer)
    → one_if t.running ≤ t.waits
    → one_if (timer_run es t).running ≤ (timer_run es t).waits
run-waits [] t h = h
run-waits (e ∷ es) t h = run-waits es (timer_step e t) (step-waits e t h)

-- In any run of the timer from its creation, starts, stops, aborts and late completions included, a
-- timer that runs has a wait outstanding, so that it keeps asking for scans.
running_timer_waits :
    (interval : ℕ) (es : List TimerEvent)
    → one_if (timer_run es (new_timer interval)).running ≤ (timer_run es (new_timer interval)).waits
unfolding new_timer
running_timer_waits interval es = run-waits es (new_timer interval) (omega arith)
