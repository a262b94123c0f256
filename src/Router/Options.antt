-- ===== src/Router/Options.antt =====
-- OPTIONS: engine/src/sip/sm/options_sm.hpp, whose machine the router resets for each request.
use sbc.Base.{◌≡◌, true, Option, none, some, [], ◌∷◌, arith}
use sbc.Sm.Machine.{Table, Settled, process_event, drain}

pub record OptionsActions (S : Type 0) : Type 0 where
  pub send_options_response : S → S
  pub cleanup : S → S

pub data OptionsState : Type 0 where
  idle responding done : OptionsState

pub data OptionsEvent : Type 0 where
  message_received response_sent : OptionsEvent

module _ {S : Type 0} (a : OptionsActions S) where
  unfoldable options_table : Table OptionsState OptionsEvent S
  options_table idle message_received s = some (record {
    state = responding;
    actions = a.send_options_response s;
    posted = response_sent ∷ [];
  })
  options_table responding response_sent s =
      some (record { state = done; actions = a.cleanup s; posted = [] })
  options_table _ _ s = none

  -- `process_options`: a machine from its start for the request.
  unfoldable process_options : S → Option (Settled OptionsState S)
  unfolding options_table process_event
  process_options s = process_event options_table 1 idle message_received s

  -- A request is answered once and then cleaned up once, and its machine is done.
  process_options_lem :
      (s : S)
      → process_options s
        ≡ some (record {
          state = done;
          actions = a.cleanup (a.send_options_response s);
          handled = true;
        })
  unfolding process_options drain
  process_options_lem s = ground arith
