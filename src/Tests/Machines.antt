-- ===== src/Tests/Machines.antt =====
-- The state machines of engine/src/sip/sm over actions that count their calls.
use sbc.Base.{ℕ, suc, ◌≡◌, ◌⊎◌, refl, true, false, none, [], ◌∷◌}
use sbc.Sm.Types.{caller, callee, ExchangeOutcome, engine_requested}
use sbc.Sm.Machine.{Ends, run}
use sbc.Sm.Setup
use sbc.Sm.Setup.Trace as SetupTrace
use sbc.Sm.Setup.{
  SetupActions, setup_table, setup_process, requested, progress_received, cancel_requested,
  cancellation_completed, exchange_finished, route_found,
}
use sbc.Sm.Setup.Settles.{is_transient, setup_process-settles, setup_cancel_wins}
use sbc.Sm.Setup.Trace.{setup_run-Accounts}
use sbc.Sm.Dialog
use sbc.Sm.Dialog.Trace as DialogTrace
use sbc.Sm.Dialog.{
  DialogActions, dialog_table, dialog_process, reinvite_received, bye_received, call_ended,
}
use sbc.Sm.Dialog.Trace.{dialog_run-Accounts}
use sbc.Sm.OfferAnswer
use sbc.Sm.OfferAnswer.Trace as ExchangeTrace
use sbc.Sm.OfferAnswer.{
  OfferAnswerActions, offer_answer_table, offer_received, answer_received, answer_relay_succeeded,
  ack_received,
}
use sbc.Sm.OfferAnswer.Trace.{exchange_run-Accounts}

-- Setup that finds a route and whose exchange stays pending; the state counts the calls.
abbrev setup_calls : SetupActions ℕ
setup_calls = record {
  begin_setup = λ s. suc s;
  resolve_route = λ s. (
    record { kind = Setup.found; destination = "sip:bob@192.0.2.2:5060"; required_codec = none },
    suc s,
  );
  route_failed = λ s. suc s;
  routing_loop_detected = λ s. suc s;
  codec_mismatch_detected = λ s. suc s;
  start_exchange = λ d c s. (ExchangeOutcome.pending, suc s);
  report_progress = λ c e s. suc s;
  is_new_progress = λ c e s. true;
  cancel_call = λ s. (false, suc s);
  establish_call = λ s. suc s;
  terminate_call = λ s. suc s;
  cleanup = λ s. suc s;
}

setup_run-Accounts_example :
    Ends
      (λ r. SetupTrace.Accounts r.state r.actions.1)
      (run
        (setup_table (SetupTrace.traced setup_calls))
        4
        Setup.idle
        (0, [])
        (requested
          ∷ progress_received 180 false
          ∷ exchange_finished ExchangeOutcome.committed
          ∷ []))
setup_run-Accounts_example =
    setup_run-Accounts setup_calls 0
      (requested ∷ progress_received 180 false ∷ exchange_finished ExchangeOutcome.committed ∷ [])

setup_process-settles_example :
    Ends (λ r. is_transient r.state ≡ false) (setup_process setup_calls Setup.idle requested 0)
setup_process-settles_example = setup_process-settles setup_calls Setup.idle requested 0 refl

setup_cancel_wins_example :
    Ends
      (λ r. (r.state ≡ Setup.cancelling) ⊎ (r.state ≡ Setup.done))
      (run (setup_table setup_calls) 4 Setup.ringing 3 (
        cancel_requested
        ∷ exchange_finished ExchangeOutcome.committed
        ∷ cancellation_completed
        ∷ []))
setup_cancel_wins_example =
    setup_cancel_wins setup_calls Setup.ringing 3
      (exchange_finished ExchangeOutcome.committed ∷ cancellation_completed ∷ []) refl

-- A dialog whose re-INVITEs stay pending.
abbrev dialog_calls : DialogActions ℕ
dialog_calls = record {
  forward_bye_to_other_leg = λ l s. suc s;
  answer_reinvite = λ d l s. (ExchangeOutcome.pending, suc s);
  reject_reinvite_491_request_pending = λ l s. suc s;
  answer_update = λ d l s. (ExchangeOutcome.committed, suc s);
  reject_update_collision = λ l s. suc s;
  refer_started = λ l s. (true, suc s);
  refer_completed = λ o s. suc s;
  refer_busy = λ l s. suc s;
  terminate_call = λ r s. suc s;
  cleanup = λ s. suc s;
}

dialog_run-Accounts_example :
    Ends
      (λ r. DialogTrace.Accounts r.state r.actions.1)
      (run
        (dialog_table (DialogTrace.traced dialog_calls))
        1
        Dialog.active
        (0, [])
        (reinvite_received "offer" caller ∷ bye_received callee ∷ call_ended engine_requested ∷ []))
dialog_run-Accounts_example =
    dialog_run-Accounts dialog_calls 0
      (reinvite_received "offer" caller ∷ bye_received callee ∷ call_ended engine_requested ∷ [])

-- An exchange with usable bodies whose answer needs an ACK.
abbrev pub exchange_calls : OfferAnswerActions ℕ
exchange_calls = record {
  offer_usable = λ d s. true;
  answer_usable = λ d s. true;
  needs_ack = λ s. true;
  relay_offer = λ d s. suc s;
  relay_answer = λ d s. suc s;
  reject_offer = λ r s. suc s;
  relay_rejection = λ c s. suc s;
  hold_answer = λ d s. suc s;
  release_answer = λ s. suc s;
  commit = λ s. suc s;
  rollback = λ r s. suc s;
  fail = λ r s. suc s;
  cleanup = λ s. suc s;
}

exchange_run-Accounts_example :
    Ends
      (λ r. ExchangeTrace.Accounts r.state r.actions.1)
      (run
        (offer_answer_table (ExchangeTrace.traced exchange_calls))
        0
        OfferAnswer.idle
        (0, [])
        (offer_received "offer"
          ∷ answer_received "answer"
          ∷ answer_relay_succeeded
          ∷ ack_received
          ∷ OfferAnswer.cleanup
          ∷ []))
exchange_run-Accounts_example = exchange_run-Accounts exchange_calls 0 (
    offer_received "offer"
    ∷ answer_received "answer"
    ∷ answer_relay_succeeded
    ∷ ack_received
    ∷ OfferAnswer.cleanup
    ∷ [])
