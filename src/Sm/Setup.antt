-- ===== src/Sm/Setup.antt =====
-- The setup machine: engine/src/sip/sm/setup_sm.hpp over the interface of i_setup_actions.hpp.
pub mod Settles
pub mod Trace
use sbc.Base.{ℕ, String, Bool, if◌then◌else◌, Option, none, some, List, [], ◌∷◌}
use sbc.Protocols.{SupportedCodec}
use sbc.Sm.Types.{ExchangeOutcome, is_pending}
use sbc.Sm.Machine.{Taken, Table, Settled, process_event}

pub data RouteKind : Type 0 where
  found failed loop codec_mismatch : RouteKind

pub record RouteResolution : Type 0 where
  pub kind : RouteKind
  pub destination : String
  pub required_codec : Option SupportedCodec

-- The interface that the machine drives; `S` is the state that the implementation changes.
pub record SetupActions (S : Type 0) : Type 0 where
  pub begin_setup : S → S
  pub resolve_route : S → RouteResolution × S
  pub route_failed : S → S
  pub routing_loop_detected : S → S
  pub codec_mismatch_detected : S → S
  pub start_exchange : String → Option SupportedCodec → S → ExchangeOutcome × S
  pub report_progress : ℕ → Bool → S → S
  pub is_new_progress : ℕ → Bool → S → Bool
  pub cancel_call : S → Bool × S
  pub establish_call : S → S
  pub terminate_call : S → S
  pub cleanup : S → S

pub data SetupState : Type 0 where
  idle routing negotiating ringing cancelling established failed done : SetupState

pub data SetupEvent : Type 0 where
  requested : SetupEvent
  route_found : String → Option SupportedCodec → SetupEvent
  route_failed : SetupEvent
  loop_detected : SetupEvent
  codec_mismatch : SetupEvent
  progress_received : ℕ → Bool → SetupEvent
  exchange_finished : ExchangeOutcome → SetupEvent
  cancel_requested : SetupEvent
  cancellation_completed : SetupEvent
  cleanup : SetupEvent

-- The event that the lambda `begin` fires for a routing result.
unfoldable pub routing_event : RouteResolution → SetupEvent
routing_event r = elim r.kind [
  | RouteKind.found ↦ route_found r.destination r.required_codec
  | RouteKind.failed ↦ SetupEvent.route_failed
  | RouteKind.loop ↦ loop_detected
  | RouteKind.codec_mismatch ↦ codec_mismatch
]

module _ {S : Type 0} (a : SetupActions S) where
  abbrev go : SetupState → S → List SetupEvent → Option (Taken SetupState SetupEvent S)
  go st s posted = some (record { state = st; actions = s; posted = posted })

  unfoldable begin : S → Option (Taken SetupState SetupEvent S)
  unfolding routing_event
  begin s = let (r, s') = a.resolve_route (a.begin_setup s) in go routing s' (routing_event r ∷ [])

  -- A failure's own reply, then the call is ended and the cleanup fired.
  unfoldable fail_with : (S → S) → S → Option (Taken SetupState SetupEvent S)
  fail_with reply s = go SetupState.failed (a.terminate_call (reply s)) (SetupEvent.cleanup ∷ [])

  unfoldable pub start : String → Option SupportedCodec → S → Option (Taken SetupState SetupEvent S)
  unfolding is_pending
  start destination codec s =
      let (outcome, s') = a.start_exchange destination codec s in
      go negotiating s' (if is_pending outcome then [] else exchange_finished outcome ∷ [])

  unfoldable pub cancel : S → Option (Taken SetupState SetupEvent S)
  cancel s =
      let (completed, s') = a.cancel_call s in
      go cancelling s' (if completed then cancellation_completed ∷ [] else [])

  -- `[committed]`, `[rolled_back]` and `[fatal]` of the states with a running exchange.
  unfoldable pub finish : ExchangeOutcome → S → Option (Taken SetupState SetupEvent S)
  unfolding fail_with
  finish ExchangeOutcome.pending s = none
  finish ExchangeOutcome.committed s = go established (a.establish_call s) []
  finish ExchangeOutcome.rolled_back s = fail_with (λ x. x) s
  finish ExchangeOutcome.failed s = fail_with (λ x. x) s

  unfoldable finish_cancelled : ExchangeOutcome → S → Option (Taken SetupState SetupEvent S)
  unfolding fail_with
  finish_cancelled ExchangeOutcome.pending s = none
  finish_cancelled ExchangeOutcome.committed s = fail_with (λ x. x) s
  finish_cancelled ExchangeOutcome.rolled_back s = go cancelling s []
  finish_cancelled ExchangeOutcome.failed s = fail_with (λ x. x) s

  -- The transition table, a clause to a row.
  unfoldable pub setup_table : Table SetupState SetupEvent S
  unfolding begin fail_with start cancel finish finish_cancelled
  setup_table idle requested s = begin s
  setup_table routing (route_found destination codec) s = start destination codec s
  setup_table routing SetupEvent.route_failed s = fail_with a.route_failed s
  setup_table routing loop_detected s = fail_with a.routing_loop_detected s
  setup_table routing codec_mismatch s = fail_with a.codec_mismatch_detected s
  setup_table negotiating (progress_received code early) s =
      go ringing (a.report_progress code early s) []
  setup_table negotiating (exchange_finished outcome) s = finish outcome s
  setup_table negotiating cancel_requested s = cancel s
  setup_table ringing (progress_received code early) s =
      if a.is_new_progress code early s
      then go ringing (a.report_progress code early s) []
      else go ringing s []
  setup_table ringing (exchange_finished outcome) s = finish outcome s
  setup_table ringing cancel_requested s = cancel s
  setup_table cancelling cancel_requested s = cancel s
  setup_table cancelling (exchange_finished outcome) s = finish_cancelled outcome s
  setup_table cancelling cancellation_completed s = go SetupState.failed s (SetupEvent.cleanup ∷ [])
  setup_table SetupState.failed SetupEvent.cleanup s = go done (a.cleanup s) []
  setup_table _ _ s = none

  -- Four queued events are the longest chain: Requested, RouteFound, ExchangeFinished, Cleanup.
  unfoldable pub setup_process : SetupState → SetupEvent → S → Option (Settled SetupState S)
  unfolding setup_table process_event
  setup_process st e s = process_event setup_table 4 st e s
