-- ===== src/Call/Exchange.antt =====
-- One exchange and its runner: engine/src/sip/call/offer_answer_exchange.cpp. The actions are a
-- parameter with what the class reads of them beyond the machine's interface.
pub mod Outcome
use sbc.Base.{
  ℕ, String, Bool, true, false, not, ◌&&◌, if◌then◌else◌, Option, none, some, List, [], ◌∷◌,
}
use sbc.Sm.Types.{ExchangeOutcome}
use sbc.Sm.Machine.{Settled}
use sbc.Sm.OfferAnswer.{
  OfferAnswerActions, ExchangeState, ExchangeEvent, idle, awaiting_answer, relaying_answer,
  awaiting_ack, offer_received, answer_received, early_answer_received, offer_relay_failed,
  answer_relay_succeeded, answer_relay_failed, answer_rejected, ack_received, stop_exchange,
  offer_answer_process,
}

-- The members of OfferAnswerExchange: the runner's state, the actions' state, `processing_`.
pub record Exchange (S : Type 0) : Type 0 where
  pub state : ExchangeState
  pub actions : S
  pub processing : Bool

unfoldable pub new_exchange : {S : Type 0} → S → Exchange S
new_exchange s = record { state = idle; actions = s; processing = false }

abbrev is_awaiting_answer : ExchangeState → Bool
is_awaiting_answer awaiting_answer = true
is_awaiting_answer _ = false

abbrev is_relaying_answer : ExchangeState → Bool
is_relaying_answer relaying_answer = true
is_relaying_answer _ = false

unfoldable pub awaiting_confirmation : {S : Type 0} → Exchange S → Bool
awaiting_confirmation x = elim x.state [ awaiting_ack ↦ true | _ ↦ false ]

-- The outcome that `finish_operation` reads off the runner's state.
unfoldable pub outcome_of : ExchangeState → ExchangeOutcome
outcome_of ExchangeState.committed = ExchangeOutcome.committed
outcome_of ExchangeState.rolled_back = ExchangeOutcome.rolled_back
outcome_of ExchangeState.failed = ExchangeOutcome.failed
outcome_of _ = ExchangeOutcome.pending

module _ {S : Type 0} (a : OfferAnswerActions S) where
  -- `runner_.process_event(event)`.
  unfoldable pub dispatch : Exchange S → ExchangeEvent → Exchange S
  unfolding offer_answer_process
  dispatch x e = elim (offer_answer_process a x.state e x.actions) [
    | none ↦ x
    | some r ↦ record x { state = r.state; actions = r.actions }
  ]

  unfoldable pub finish_operation : Exchange S → ExchangeOutcome × Exchange S
  unfolding dispatch outcome_of
  finish_operation x =
      let outcome = outcome_of x.state in
      let x' : Exchange S = elim outcome [
        | ExchangeOutcome.pending ↦ x
        | _ ↦ dispatch x ExchangeEvent.cleanup
      ] in
      (outcome, record x' { processing = false })

  unfoldable pub apply : ExchangeEvent → Exchange S → ExchangeOutcome × Exchange S
  unfolding dispatch finish_operation
  apply e x = finish_operation (dispatch (record x { processing = true }) e)

  unfoldable pub start : (S → Bool) → String → Exchange S → ExchangeOutcome × Exchange S
  unfolding dispatch finish_operation
  start offer_sent offer x =
      let x' = dispatch (record x { processing = true }) (offer_received offer) in
      finish_operation (
        if is_awaiting_answer x'.state && not (offer_sent x'.actions)
        then dispatch x' offer_relay_failed
        else x')

  unfoldable pub receive_answer : (S → Bool) → String → Exchange S → ExchangeOutcome × Exchange S
  unfolding dispatch finish_operation
  receive_answer answer_sent answer x =
      let x' = dispatch (record x { processing = true }) (answer_received answer) in
      finish_operation (
        if is_relaying_answer x'.state
        then dispatch x'
            (if answer_sent x'.actions then answer_relay_succeeded else answer_relay_failed)
        else x')

  unfoldable pub receive_early_answer : String → Exchange S → ExchangeOutcome × Exchange S
  unfolding apply
  receive_early_answer answer x = apply (early_answer_received answer) x

-- The public operations but `mark_early_media_relayed`, which drives nothing: what the actions do on
-- it is `mark`.
pub data ExchangeOp : Type 0 where
  starts : String → ExchangeOp
  receives_answer : String → ExchangeOp
  receives_early_answer : String → ExchangeOp
  rejects : ℕ → ExchangeOp
  times_out : ExchangeOp
  confirms : ExchangeOp
  confirmation_times_out : ExchangeOp
  stops : ExchangeOp

module _ {S : Type 0} (a : OfferAnswerActions S) (offer_sent answer_sent : S → Bool) where
  unfoldable pub perform : ExchangeOp → Exchange S → ExchangeOutcome × Exchange S
  unfolding start receive_answer receive_early_answer apply
  perform (starts offer) x = start a offer_sent offer x
  perform (receives_answer answer) x = receive_answer a answer_sent answer x
  perform (receives_early_answer answer) x = receive_early_answer a answer x
  perform (rejects code) x = apply a (answer_rejected code) x
  perform times_out x = apply a ExchangeEvent.answer_timeout x
  perform confirms x = apply a ack_received x
  perform confirmation_times_out x = apply a ExchangeEvent.ack_timeout x
  perform stops x = apply a stop_exchange x

unfoldable pub mark_early_media_relayed : {S : Type 0} → (S → S) → Exchange S → Exchange S
mark_early_media_relayed mark x = record x { actions = mark x.actions }
