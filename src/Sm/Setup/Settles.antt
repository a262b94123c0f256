-- ===== src/Sm/Setup/Settles.antt =====
-- Every event leaves the setup machine of engine/src/sip/sm/setup_sm.hpp in a state that waits.
use sbc.Base.{List, ◌∷◌, ◌⊎◌, ◌≡◌, Bool, true, false, arith}
use sbc.Sm.Machine.{run, run-Ends, Ends-bind, Ends-map, Ends, drain, process_event}
use sbc.Sm.Setup.{
  SetupActions, SetupState, SetupEvent, negotiating, ringing, cancelling, done, cancel_requested,
  setup_table, setup_process,
}

-- A state that only the process queue leaves: Routing waits for the routing event, Failed for Cleanup.
abbrev pub is_transient : SetupState → Bool
is_transient SetupState.routing = true
is_transient SetupState.failed = true
is_transient _ = false

module _ {S : Type 0} (a : SetupActions S) where
  -- From a state that waits, every event leaves the machine with a result, in a state that waits.
  pub setup_process-settles :
      (st : SetupState) (e : SetupEvent) (s : S)
      → is_transient st ≡ false
      → Ends (λ r. is_transient r.state ≡ false) (setup_process a st e s)
  unfolding setup_process setup_table drain process_event
  setup_process-settles st e s h = ground arith

  -- From a state that waits, every event has a result, and it is handled or has changed nothing.
  setup_process-refused :
      (st : SetupState) (e : SetupEvent) (s : S)
      → is_transient st ≡ false
      → Ends (λ r. (r.handled ≡ true) ⊎ (r.state ≡ st) × (r.actions ≡ s)) (setup_process a st e s)
  unfolding setup_process setup_table drain process_event
  setup_process-refused st e s h = ground arith

-- The two states in which the caller has given up.
abbrev is_cancelled : SetupState → Bool
is_cancelled cancelling = true
is_cancelled done = true
is_cancelled _ = false

abbrev pub is_exchanging : SetupState → Bool
is_exchanging negotiating = true
is_exchanging ringing = true
is_exchanging _ = false

module _ {S : Type 0} (a : SetupActions S) where
  cancelled_step :
      (st : SetupState) (e : SetupEvent) (s : S)
      → is_cancelled st ≡ true
      → Ends (λ r. is_cancelled r.state ≡ true) (process_event (setup_table a) 4 st e s)
  unfolding setup_table drain process_event
  cancelled_step st e s h = ground arith

  cancels :
      (st : SetupState) (s : S)
      → is_exchanging st ≡ true
      → Ends
          (λ r. is_cancelled r.state ≡ true)
          (process_event (setup_table a) 4 st cancel_requested s)
  unfolding setup_table drain process_event
  cancels st s h = ground arith

  -- A call that is cancelled while its exchange runs is never established afterwards: whatever
  -- events follow, the machine has a result and stands in Cancelling or in Done.
  pub setup_cancel_wins :
      (st : SetupState) (s : S) (es : List SetupEvent)
      → is_exchanging st ≡ true
      → Ends
          (λ r. (r.state ≡ cancelling) ⊎ (r.state ≡ done))
          (run (setup_table a) 4 st s (cancel_requested ∷ es))
  unfolding run
  setup_cancel_wins st s es h =
      Ends-map (λ r. is_cancelled r.state ≡ true) _ _
        (Ends-bind (λ r. is_cancelled r.state ≡ true) (λ r. is_cancelled r.state ≡ true)
          (process_event (setup_table a) 4 st cancel_requested s) _ (cancels st s h)
          λ r k.
            run-Ends (setup_table a) 4 (λ st s. is_cancelled st ≡ true) cancelled_step r.state
              r.actions es k)
        (λ r k. ground arith)
