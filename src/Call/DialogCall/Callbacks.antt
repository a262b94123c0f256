-- ===== src/Call/DialogCall/Callbacks.antt =====
-- What a callback of PJSIP means for an answered call: `on_leg_state_changed` of
-- engine/src/sip/call/dialog_actions.cpp, `on_media_update` of handlers/reinvite_handler.cpp, and
-- `abort` and `finish` of handlers/refer_handler.cpp. `none` is a dialog machine that runs out of
-- its queue's fuel.
use sbc.Base.{ℕ, String, Bool, true, false, ◌&&◌, if◌then◌else◌, ◌==◌, Option, none, some}
use sbc.Sdp.{names_equal_ci}
use sbc.Sm.Types.{ExchangeOutcome, ReferOutcome, Leg, engine_requested}
use sbc.Sm.Dialog.{
  DialogState, DialogEvent, active, reinviting, referring, referring_while_terminating, terminating,
  bye_received, exchange_finished, call_ended, dialog_process,
}
use sbc.Call.Session.{CallLeg, report_call_terminated, success}
use sbc.Call.Invite.{InvState, disconnected}
use sbc.Call.Legs.{Engine, with_leg}
use sbc.Call.MidDialog.{inv_of, apply_answered_media}
use sbc.Call.DialogCall.{DialogCall, ReferHandler, dialog_actions, put_offerless, is_offerless}

-- The dialog machine with the state of its actions.
pub record DialogRun (Session Inv : Type 0) : Type 0 where
  pub state : DialogState
  pub actions : DialogCall Session Inv

abbrev pub bind : {A B : Type 0} → Option A → (A → Option B) → Option B
bind none f = none
bind (some a) f = f a

module _ {Session Inv : Type 0} where
  -- The leg is marked, and a session timer that ran out is the call's end.
  unfoldable pub mark_disconnected :
      ℕ → Leg → ℕ → String → DialogCall Session Inv → DialogCall Session Inv
  unfolding names_equal_ci report_call_terminated
  mark_disconnected now leg cause cause_text s =
      let c = with_leg leg (λ (l : CallLeg). record l { disconnected = true }) s.call in
      if cause == 408 && names_equal_ci cause_text "No session refresh received."
      then record s {
        call = record c {
          session = report_call_terminated now success (some "session timer expired") c.session;
        };
      }
      else record s { call = c }

  unfoldable both_disconnected : DialogCall Session Inv → Bool
  both_disconnected s =
      s.call.session.caller_leg.disconnected && s.call.session.callee_leg.disconnected

module _ {Session Inv Tx Dlg : Type 0} (engine : Engine Session Inv Tx Dlg)
    (refer : ReferHandler (DialogCall Session Inv)) where
  unfoldable pub process : DialogEvent → DialogRun Session Inv → Option (DialogRun Session Inv)
  unfolding dialog_process dialog_actions
  process e r = elim (dialog_process (dialog_actions engine refer) r.state e r.actions) [
    | none ↦ none
    | some t ↦ some (record { state = t.state; actions = t.actions })
  ]

  -- A REFER delivers one outcome.
  unfoldable pub finish : ReferOutcome → DialogRun Session Inv → Option (DialogRun Session Inv)
  unfolding process
  finish outcome r =
      if r.actions.result_delivered
      then some r
      else process (DialogEvent.refer_completed outcome)
          (record r { actions = record r.actions { result_delivered = true } })

  unfoldable pub abort : DialogRun Session Inv → Option (DialogRun Session Inv)
  unfolding finish
  abort r = finish ReferOutcome.failed (record r { actions = refer.stop_subscriptions r.actions })

  -- The event that a leg's end is, in each state of the dialog.
  unfoldable pub handle_disconnect : Leg → DialogRun Session Inv → Option (DialogRun Session Inv)
  unfolding process abort both_disconnected
  handle_disconnect leg r = elim r.state [
    | reinviting ↦ process (exchange_finished ExchangeOutcome.failed) r
    | active ↦ process (bye_received leg) r
    | referring ↦ process (bye_received leg) r
    | referring_while_terminating ↦
        if both_disconnected r.actions
        then bind (abort r) (process (call_ended engine_requested))
        else some r
    | terminating ↦ process (call_ended engine_requested) r
    | _ ↦ some r
  ]

  unfoldable pub on_leg_state_changed :
      Leg → InvState → ℕ → String → DialogRun Session Inv → Option (DialogRun Session Inv)
  unfolding handle_disconnect mark_disconnected
  on_leg_state_changed leg state cause cause_text r = elim state [
    | disconnected ↦
        handle_disconnect leg
          (record r { actions = mark_disconnected engine.now leg cause cause_text r.actions })
    | _ ↦ some r
  ]

  -- The answer to an offerless re-INVITE, or its failure.
  unfoldable on_media_update : Leg → Bool → DialogRun Session Inv → Option (DialogRun Session Inv)
  unfolding process apply_answered_media
  on_media_update leg ok r =
      if is_offerless leg r.actions
      then (let s = put_offerless leg false r.actions in
          let failed : Option (DialogRun Session Inv) =
            process (exchange_finished ExchangeOutcome.failed) (record r { actions = s }) in
          elim (inv_of leg s.call) [
            | none ↦ failed
            | some l ↦
                if ok && engine.pjsip.has_neg l.inv
                then (elim (engine.pjsip.active_remote l.inv) [
                  | none ↦ failed
                  | some sdp ↦
                      let (applied, c) = apply_answered_media engine s.established leg sdp s.call in
                      process
                        (exchange_finished
                          (if applied then ExchangeOutcome.committed else ExchangeOutcome.failed))
                        (record r { actions = record s { call = c } })
                ])
                else failed
          ])
      else some r
