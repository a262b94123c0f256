-- ===== src/Router/Callbacks.antt =====
-- Offers within a dialog, as PJSIP reports them: `on_rx_reinvite` and `on_rx_offer` of
-- engine/src/sip/router/message_router.cpp, for a request whose leg has a call.
-- `none` is a machine that runs out of its queue's fuel. An offer is the text that PJMEDIA prints.
pub mod Updates
use sbc.Base.{ℕ, String, Bool, true, false, not, ◌&&◌, if◌then◌else◌, Option, none, some, str_eq}
use sbc.Sm.Types.{ExchangeOutcome, Leg}
use sbc.Sm.Dialog.{DialogState, terminating, reinvite_received, update_received, dialog_process}
use sbc.Sm.Setup.{SetupState, SetupEvent, established}
use sbc.Routing.Resolve.{Stores}
use sbc.Call.Invite.{answer_request}
use sbc.Call.Legs.{Engine}
use sbc.Call.MidDialog.{inv_of, put_inv}
use sbc.Call.SetupCall.Callbacks as SetupCallbacks
use sbc.Call.SetupCall.Callbacks.{SetupRun}
use sbc.Call.DialogCall.{DialogCall, ReferHandler, dialog_actions}
use sbc.Call.DialogCall.Callbacks.{DialogRun, bind, process}

-- A call with its two machines, which work on the same call.
pub record CallRun (Session Inv : Type 0) : Type 0 where
  pub setup : SetupRun Session Inv
  pub dialog : DialogRun Session Inv

abbrev pub is_established : SetupState → Bool
is_established established = true
is_established _ = false

abbrev pub is_terminating : DialogState → Bool
is_terminating terminating = true
is_terminating _ = false

abbrev pub text_of : Option String → String
text_of none = ""
text_of (some sdp) = sdp

abbrev is_offer : Option String → Bool
is_offer none = false
is_offer (some _) = true

module _ {Session Inv : Type 0} where
  -- The setup's call and state, as the dialog's actions see them.
  abbrev pub to_dialog : CallRun Session Inv → DialogRun Session Inv
  to_dialog r = record r.dialog {
    actions = record r.dialog.actions {
      call = r.setup.actions.call;
      established = is_established r.setup.state;
    };
  }

  abbrev pub from_dialog : CallRun Session Inv → DialogRun Session Inv → CallRun Session Inv
  from_dialog r d = record {
    setup = record r.setup { actions = record r.setup.actions { call = d.actions.call } };
    dialog = d;
  }

  abbrev pub early_media_active : CallRun Session Inv → Bool
  early_media_active r = elim r.setup.actions.exchange [
    | none ↦ false
    | some x ↦ x.actions.early_media_relayed
  ]

module _ {Session Inv Tx Dlg : Type 0} (engine : Engine Session Inv Tx Dlg)
    (refer : ReferHandler (DialogCall Session Inv)) (stores : Stores) where
  -- A reply to the re-INVITE at hand.
  unfoldable reject_reinvite : Leg → ℕ → DialogRun Session Inv → DialogRun Session Inv
  unfolding answer_request
  reject_reinvite leg code d =
      let inv = (answer_request engine.pjsip true code none (inv_of leg d.actions.call)).1 in
      record d { actions = record d.actions { call = put_inv leg inv d.actions.call } }

  -- Whether PJSIP takes the offer as dealt with, and the call.
  unfoldable pub on_rx_reinvite :
      Leg → Option String → CallRun Session Inv → Option (Bool × CallRun Session Inv)
  unfolding reject_reinvite dialog_process dialog_actions
  on_rx_reinvite leg offer r =
      let d = to_dialog r in
      if not d.actions.established
      then some (true, from_dialog r (reject_reinvite leg 481 d))
      else (elim (dialog_process (dialog_actions engine refer) d.state
          (reinvite_received (text_of offer) leg)
          (record d.actions { has_pending_request = true })) [
            | none ↦ none
            | some t ↦
                let d' : DialogRun Session Inv = record {
                  state = t.state;
                  actions = record t.actions { has_pending_request = false };
                } in
                some (
                  if t.handled
                  then (is_offer offer, from_dialog r d')
                  else (true, from_dialog r (reject_reinvite leg 500 d')))
          ])

  -- An UPDATE. A dialog that fails before setup is established is handed back to setup.
  unfoldable pub on_rx_offer :
      String → Leg → Option String → CallRun Session Inv → Option (CallRun Session Inv)
  unfolding process SetupCallbacks.process
  on_rx_offer method leg offer r =
      if not (str_eq method "UPDATE")
      then some r
      else if not (is_established r.setup.state) && not (early_media_active r)
      then some r
      else bind (process engine refer (update_received (text_of offer) leg) (to_dialog r)) (λ d.
        let r' = from_dialog r d in
        if not (is_established r'.setup.state) && is_terminating d.state
        then bind
            (SetupCallbacks.process engine stores
              (SetupEvent.exchange_finished ExchangeOutcome.failed) r'.setup)
            (λ s. some (record { setup = s; dialog = (to_dialog (record r' { setup = s })) }))
        else some r')
