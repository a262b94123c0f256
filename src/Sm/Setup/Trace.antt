-- ===== src/Sm/Setup/Trace.antt =====
-- What the setup machine of engine/src/sip/sm/setup_sm.hpp calls over its life, for every
-- implementation of its actions: the calls are recorded beside the implementation's own state.
use sbc.Base.{◌≡◌, ◌≤◌, Bool, true, false, if◌then◌else◌, List, [], ◌∷◌, count, arith}
use sbc.Sm.Machine.{Ends, drain, process_event, run, run-Ends}
use sbc.Sm.Setup.{
  SetupActions, SetupState, SetupEvent, idle, negotiating, ringing, cancelling, established, done,
  setup_table,
}
use sbc.Sm.Setup.Settles.{is_transient}

-- The calls that are counted.
pub data SetupCall : Type 0 where
  begins starts establishes terminates cleans : SetupCall

abbrev pub is_begin : SetupCall → Bool
is_begin begins = true
is_begin _ = false

abbrev pub is_start : SetupCall → Bool
is_start starts = true
is_start _ = false

abbrev is_establish : SetupCall → Bool
is_establish establishes = true
is_establish _ = false

abbrev is_terminate : SetupCall → Bool
is_terminate terminates = true
is_terminate _ = false

abbrev pub is_clean : SetupCall → Bool
is_clean cleans = true
is_clean _ = false

-- The given actions, with a record of the counted calls.
unfoldable pub traced : {S : Type 0} → SetupActions S → SetupActions (S × List SetupCall)
traced a = record {
  begin_setup = λ s. (a.begin_setup s.0, begins ∷ s.1);
  resolve_route = λ s. let (r, s') = a.resolve_route s.0 in (r, (s', s.1));
  route_failed = λ s. (a.route_failed s.0, s.1);
  routing_loop_detected = λ s. (a.routing_loop_detected s.0, s.1);
  codec_mismatch_detected = λ s. (a.codec_mismatch_detected s.0, s.1);
  start_exchange = λ d c s. let (o, s') = a.start_exchange d c s.0 in (o, (s', starts ∷ s.1));
  report_progress = λ c e s. (a.report_progress c e s.0, s.1);
  is_new_progress = λ c e s. a.is_new_progress c e s.0;
  cancel_call = λ s. let (b, s') = a.cancel_call s.0 in (b, (s', s.1));
  establish_call = λ s. (a.establish_call s.0, establishes ∷ s.1);
  terminate_call = λ s. (a.terminate_call s.0, terminates ∷ s.1);
  cleanup = λ s. (a.cleanup s.0, cleans ∷ s.1);
}

abbrev is_idle : SetupState → Bool
is_idle idle = true
is_idle _ = false

abbrev is_established : SetupState → Bool
is_established established = true
is_established _ = false

abbrev is_done : SetupState → Bool
is_done done = true
is_done _ = false

abbrev is_exchanging : SetupState → Bool
is_exchanging negotiating = true
is_exchanging ringing = true
is_exchanging cancelling = true
is_exchanging established = true
is_exchanging _ = false

-- How the calls made so far fit the state.
pub record Accounts (st : SetupState) (log : List SetupCall) : Type 0 where
  pub waits : is_transient st ≡ false
  pub begun : count is_begin log ≡ (if is_idle st then 0 else 1)
  pub started : count is_start log ≤ (if is_idle st then 0 else 1)
  pub exchanged : (if is_exchanging st then 1 else 0) ≤ count is_start log
  pub established_once : count is_establish log ≡ (if is_established st then 1 else 0)
  pub terminated_late : count is_terminate log ≤ (if is_done st then 1 else 0)
  pub cleaned_once : count is_clean log ≡ (if is_done st then 1 else 0)

module _ {S : Type 0} (a : SetupActions S) where
  step-Accounts :
      (st : SetupState) (e : SetupEvent) (s : S × List SetupCall)
      → Accounts st s.1
      → Ends (λ r. Accounts r.state r.actions.1) (process_event (setup_table (traced a)) 4 st e s)
  unfolding setup_table drain process_event traced
  step-Accounts st e s h = ground arith

  -- Whatever events a call in setup gets from its start, there is a result, and the calls fit the
  -- state: setup begins once, one exchange at most is started, the call is established once and only
  -- with a started exchange, terminated at most once, and cleaned up once, when it is done.
  pub setup_run-Accounts :
      (s : S) (es : List SetupEvent)
      → Ends (λ r. Accounts r.state r.actions.1) (run (setup_table (traced a)) 4 idle (s, []) es)
  setup_run-Accounts s es =
      run-Ends (setup_table (traced a)) 4 (λ st s. Accounts st s.1) step-Accounts idle (s, []) es
        (ground arith)
