-- ===== src/Call/SetupCall/Callbacks.antt =====
-- What a callback of PJSIP means for a call in setup: `on_leg_state_changed`, `handle_early` and
-- `handle_disconnect` of engine/src/sip/call/setup_actions.cpp. The leg's state, its cause and what
-- the message says are PJSIP's; `none` is a setup machine that runs out of its queue's fuel.
use sbc.Base.{
  ℕ, String, concat, Bool, true, false, not, ◌&&◌, if◌then◌else◌, ◌==◌, leb, Option, none, some,
  str_eq,
}
use sbc.Base.Int.{pos}
use sbc.Sm.Types.{ExchangeOutcome, is_pending, Leg, caller, callee}
use sbc.Sm.Setup.{
  SetupState, SetupEvent, cancelling, done, exchange_finished, progress_received, cancel_requested,
  cancellation_completed, setup_process,
}
use sbc.Routing.Resolve.{Stores}
use sbc.Call.Exchange.{
  ExchangeOp, awaiting_confirmation, receives_answer, receives_early_answer, rejects, times_out,
  confirms, confirmation_times_out,
}
use sbc.Call.Invite.{InvState, early, connecting, confirmed, disconnected}
use sbc.Call.Legs.{Engine}
use sbc.Call.SetupCall.{SetupCall, setup_actions, on_exchange, held_answer, fail_setup, is_some}

-- The setup machine with the state of its actions.
pub record SetupRun (Session Inv : Type 0) : Type 0 where
  pub state : SetupState
  pub actions : SetupCall Session Inv

-- What the callback reads of the received message.
pub record Received : Type 0 where
  pub sdp : String
  pub status_code : ℕ

abbrev pub is_cancelling : SetupState → Bool
is_cancelling cancelling = true
is_cancelling _ = false

abbrev pub is_done : SetupState → Bool
is_done done = true
is_done _ = false

abbrev is_callee : Leg → Bool
is_callee callee = true
is_callee caller = false

module _ {Session Inv Tx Dlg : Type 0} (engine : Engine Session Inv Tx Dlg) (stores : Stores) where
  unfoldable pub process : SetupEvent → SetupRun Session Inv → Option (SetupRun Session Inv)
  unfolding setup_process setup_actions
  process e r = elim (setup_process (setup_actions engine stores) r.state e r.actions) [
    | none ↦ none
    | some t ↦ some (record { state = t.state; actions = t.actions })
  ]

  -- An outcome that is not pending releases the exchange and drives the machine.
  unfoldable pub finish_exchange :
      ExchangeOutcome × SetupCall Session Inv → SetupState → Option (SetupRun Session Inv)
  unfolding process is_pending
  finish_exchange (outcome, s) st =
      if is_pending outcome
      then some (record { state = st; actions = s })
      else process (exchange_finished outcome)
          (record { state = st; actions = record s { exchange = none } })

  -- The exchange's operation, where there is an exchange.
  unfoldable pub finish_op : ExchangeOp → SetupRun Session Inv → Option (SetupRun Session Inv)
  unfolding finish_exchange on_exchange
  finish_op op r = elim r.actions.exchange [
    | none ↦ some r
    | some _ ↦ finish_exchange (on_exchange engine stores op r.actions) r.state
  ]

  unfoldable handle_early : Received → SetupRun Session Inv → Option (SetupRun Session Inv)
  unfolding process finish_op held_answer
  handle_early rdata r =
      if is_some r.actions.exchange && not (str_eq rdata.sdp "")
      then (elim (finish_op (receives_early_answer rdata.sdp) r) [
        | none ↦ none
        | some r' ↦
            process (progress_received rdata.status_code (is_some (held_answer r'.actions))) r'
      ])
      else process (progress_received rdata.status_code false) r

  abbrev pub noting : String → SetupRun Session Inv → SetupRun Session Inv
  noting reason r = record r { actions = fail_setup reason r.actions }

  abbrev pub is_confirming : SetupRun Session Inv → Bool
  is_confirming r = elim r.actions.exchange [ none ↦ false | some x ↦ awaiting_confirmation x ]

  unfoldable pub handle_disconnect : Leg → ℕ → SetupRun Session Inv → Option (SetupRun Session Inv)
  unfolding process finish_op awaiting_confirmation
  handle_disconnect leg cause r =
      let timed_out = cause == 408 in
      if is_cancelling r.state
      then (if is_callee leg then process cancellation_completed r else some r)
      else if is_confirming r
      then (if not (is_callee leg) && timed_out
          then finish_op confirmation_times_out (noting "caller never acknowledged the answer" r)
          else process (exchange_finished ExchangeOutcome.failed) r)
      else if not (is_callee leg)
      then process cancel_requested r
      else if timed_out
      then finish_op times_out (noting "callee did not answer in time" r)
      else if leb 300 cause
      then finish_op (rejects cause)
          (noting (concat "callee rejected the call with " (engine.print_int (pos cause))) r)
      else process (exchange_finished ExchangeOutcome.failed) r

  -- `is_processing`: the machine or the exchange is in the middle of an operation.
  unfoldable pub on_leg_state_changed :
      Bool → Leg → InvState → ℕ → Received → SetupRun Session Inv → Option (SetupRun Session Inv)
  unfolding handle_early handle_disconnect finish_op process
  on_leg_state_changed is_processing leg state cause rdata r =
      if is_processing then some r else (elim state [
        | early ↦ if is_callee leg then handle_early rdata r else some r
        | connecting ↦
            if is_callee leg
            then (if is_cancelling r.state
                then process cancel_requested r
                else finish_op (receives_answer rdata.sdp) r)
            else some r
        | confirmed ↦ if is_callee leg then some r else finish_op confirms r
        | disconnected ↦ if is_done r.state then some r else handle_disconnect leg cause r
        | _ ↦ some r
      ])
