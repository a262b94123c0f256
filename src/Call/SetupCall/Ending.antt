-- ===== src/Call/SetupCall/Ending.antt =====
-- When a callee hangs up or does not answer during setup.
use sbc.Base.{
  ℕ, String, Bool, true, false, if◌then◌else◌, Option, none, some, ◌≡◌, ◌∙◌, refl, arith, leb, ◌==◌,
  concat,
}
use sbc.Base.Int.{pos}
use sbc.Sm.Types.{ExchangeOutcome, callee, is_pending}
use sbc.Sm.Machine.{Ends, Settled, drain, process_event}
use sbc.Sm.OfferAnswer.{
  OfferAnswerActions, ExchangeState, awaiting_answer, answer_held, offer_answer_process,
  offer_answer_table,
}
use sbc.Sm.Setup.{
  SetupActions, SetupState, negotiating, ringing, exchange_finished, setup_process, setup_table,
}
use sbc.Routing.Resolve.{Stores}
use sbc.Call.Exchange.{Exchange, ExchangeOp, perform, rejects, times_out, awaiting_confirmation}
use sbc.Call.Invite.{disconnected}
use sbc.Call.Legs.{Engine}
use sbc.Call.Answering.{Answering, offer_answer_actions}
use sbc.Call.SetupCall.{SetupCall, setup_actions, on_exchange, note_failure}
use sbc.Call.SetupCall.Callbacks.{
  SetupRun, Received, process, finish_exchange, finish_op, handle_disconnect, on_leg_state_changed,
  noting, is_cancelling, is_confirming,
}

-- The answer is still to come, or it is held back.
abbrev is_waiting : ExchangeState → Bool
is_waiting awaiting_answer = true
is_waiting answer_held = true
is_waiting _ = false

-- A call with a running exchange.
abbrev pub is_running : SetupState → Bool
is_running negotiating = true
is_running ringing = true
is_running _ = false

-- An exchange that ended without a commit.
abbrev is_lost : ExchangeOutcome → Bool
is_lost ExchangeOutcome.rolled_back = true
is_lost ExchangeOutcome.failed = true
is_lost _ = false

module _ {S : Type 0} (a : OfferAnswerActions S) (offer_sent answer_sent : S → Bool) where
  rejects-lost :
      (code : ℕ) (x : Exchange S)
      → is_waiting x.state ≡ true
      → is_lost (perform a offer_sent answer_sent (rejects code) x).0 ≡ true
  unfolding perform offer_answer_process offer_answer_table drain process_event
  rejects-lost code x h = ground arith

  times_out-lost :
      (x : Exchange S)
      → is_waiting x.state ≡ true
      → is_lost (perform a offer_sent answer_sent times_out x).0 ≡ true
  unfolding perform offer_answer_process offer_answer_table drain process_event
  times_out-lost x h = ground arith

lost-done :
    {S : Type 0}
    → (a : SetupActions S) (st : SetupState) (outcome : ExchangeOutcome) (s : S)
    → is_running st ≡ true
    → is_lost outcome ≡ true
    → Ends (λ r. r.state ≡ SetupState.done) (setup_process a st (exchange_finished outcome) s)
unfolding setup_process setup_table drain process_event
lost-done a st outcome s h k = ground arith

module _ {Session Inv Tx Dlg : Type 0} (engine : Engine Session Inv Tx Dlg) (stores : Stores) where
  abbrev pub IsOver : Option (SetupRun Session Inv) → Type 0
  IsOver o = Ends (λ r. r.state ≡ SetupState.done) o

  pub process-done :
      (outcome : ExchangeOutcome) (r : SetupRun Session Inv)
      → is_running r.state ≡ true
      → is_lost outcome ≡ true
      → IsOver (process engine stores (exchange_finished outcome) r)
  unfolding process
  process-done outcome r h k =
      settled (setup_process a r.state (exchange_finished outcome) r.actions)
        (lost-done a r.state outcome r.actions h k)
    where
      a : SetupActions (SetupCall Session Inv)
      a = setup_actions engine stores

      settled :
          (o : Option (Settled SetupState (SetupCall Session Inv)))
          → Ends (λ t. t.state ≡ SetupState.done) o
          → IsOver (elim o [
            | none ↦ none
            | some t ↦ some (record { state = t.state; actions = t.actions })
          ])
      settled none e = e
      settled (some t) e = e

  finish_exchange-done :
      (outcome : ExchangeOutcome) (s : SetupCall Session Inv) (st : SetupState)
      → is_running st ≡ true
      → is_lost outcome ≡ true
      → IsOver (finish_exchange engine stores (outcome, s) st)
  unfolding finish_exchange is_pending
  finish_exchange-done ExchangeOutcome.rolled_back s st h k = process-done _ _ h k
  finish_exchange-done ExchangeOutcome.failed s st h k = process-done _ _ h k
  finish_exchange-done ExchangeOutcome.pending s st h k = ground arith
  finish_exchange-done ExchangeOutcome.committed s st h k = ground arith

  -- An operation that every waiting exchange answers with its end.
  abbrev Ending : ExchangeOp → Type 0
  Ending op =
      (y : Exchange (Answering Session Inv))
      → is_waiting y.state ≡ true
      → is_lost
          (perform (offer_answer_actions engine) (λ t. t.offer_sent) (λ t. t.answer_sent) op y).0
        ≡ true

  on_exchange-lost :
      (op : ExchangeOp) (s : SetupCall Session Inv) (x : Exchange (Answering Session Inv))
      → Ending op
      → s.exchange ≡ some x
      → is_waiting x.state ≡ true
      → is_lost (on_exchange engine stores op s).0 ≡ true
  unfolding on_exchange
  on_exchange-lost op s x l h k =
      rw h (l (record x { actions = record x.actions { call = s.call } }) k)

  there :
      (o : Option (Exchange (Answering Session Inv))) (x : Exchange (Answering Session Inv))
      (absent present : Option (SetupRun Session Inv))
      → o ≡ some x
      → IsOver present
      → IsOver (elim o [ none ↦ absent | some _ ↦ present ])
  there none x absent present k h = ground arith
  there (some y) x absent present k h = h

  either :
      (b : Bool) (p q : Option (SetupRun Session Inv))
      → IsOver p
      → IsOver q
      → IsOver (if b then p else q)
  either true p q h k = h
  either false p q h k = k

  otherwise :
      (b : Bool) (p q : Option (SetupRun Session Inv))
      → b ≡ false
      → IsOver q
      → IsOver (if b then p else q)
  otherwise b p q h k = rw h k

  finish_op-done :
      (op : ExchangeOp) (r : SetupRun Session Inv) (x : Exchange (Answering Session Inv))
      → Ending op
      → is_running r.state ≡ true
      → r.actions.exchange ≡ some x
      → is_waiting x.state ≡ true
      → IsOver (finish_op engine stores op r)
  unfolding finish_op
  finish_op-done op r x l h k m = there r.actions.exchange x _ _ k (
      finish_exchange-done (on_exchange engine stores op r.actions).0
        (on_exchange engine stores op r.actions).1 r.state h
        (on_exchange-lost op r.actions x l k m))

  noting-exchange :
      (reason : String) (r : SetupRun Session Inv)
      → (noting engine stores reason r).actions.exchange ≡ r.actions.exchange
  unfolding note_failure
  noting-exchange reason r = ground arith

  handle_disconnect-done :
      (cause : ℕ) (r : SetupRun Session Inv) (x : Exchange (Answering Session Inv))
      → is_running r.state ≡ true
      → r.actions.exchange ≡ some x
      → is_waiting x.state ≡ true
      → IsOver (handle_disconnect engine stores callee cause r)
  unfolding handle_disconnect awaiting_confirmation
  handle_disconnect-done cause r x h k m =
      let late : String = "callee did not answer in time" in
      let refused : String =
        concat "callee rejected the call with " (engine.print_int (pos cause)) in
      otherwise (is_cancelling r.state) _ _ (ground arith) (
        otherwise (is_confirming engine stores r) _ _ (ground arith) (
          either (cause == 408) _ _
            (finish_op-done times_out (noting engine stores late r) x
              (times_out-lost (offer_answer_actions engine) (λ t. t.offer_sent)
                (λ t. t.answer_sent))
              h (noting-exchange late r ∙ k) m)
            (either (leb 300 cause) _ _
              (finish_op-done (rejects cause) (noting engine stores refused r) x
                (rejects-lost (offer_answer_actions engine) (λ t. t.offer_sent) (λ t. t.answer_sent)
                  cause)
                h (noting-exchange refused r ∙ k) m)
              (process-done ExchangeOutcome.failed r h refl))))

  -- A call that negotiates or rings while its exchange waits for the answer is over when the
  -- callee's leg goes, whatever the cause: the setup is done.
  pub callee_gone_finishes_setup :
      (cause : ℕ) (rdata : Received) (r : SetupRun Session Inv)
      (x : Exchange (Answering Session Inv))
      → is_running r.state ≡ true
      → r.actions.exchange ≡ some x
      → is_waiting x.state ≡ true
      → Ends
          (λ t. t.state ≡ SetupState.done)
          (on_leg_state_changed engine stores false callee disconnected cause rdata r)
  unfolding on_leg_state_changed
  callee_gone_finishes_setup cause rdata r x h k m =
      ground (arith, handle_disconnect-done cause r x h k m)
