-- ===== src/Router/Callbacks/Updates.antt =====
-- When an UPDATE before the final answer fails: engine/src/sip/router/message_router.cpp.
use sbc.Base.{
  String, Bool, true, false, not, ◌&&◌, ◌||◌, if◌then◌else◌, Option, none, some, ◌≡◌, refl, arith,
  Bool-cases, inl, inr,
}
use sbc.Sm.Types.{ExchangeOutcome, Leg}
use sbc.Sm.Machine.{Ends, Ends-bind, drain, process_event}
use sbc.Sm.Dialog.{DialogActions, active, update_received, dialog_process, dialog_table}
use sbc.Sm.Setup.{SetupState, SetupEvent}
use sbc.Routing.Resolve.{Stores}
use sbc.Call.Legs.{Engine}
use sbc.Call.SetupCall.Callbacks.{SetupRun}
use sbc.Call.SetupCall.Callbacks as SetupCallbacks
use sbc.Call.SetupCall.Ending.{is_running, process-done}
use sbc.Call.DialogCall.{DialogCall, ReferHandler, dialog_actions}
use sbc.Call.DialogCall.Callbacks.{DialogRun, bind, process}
use sbc.Router.Callbacks.{
  CallRun, is_established, is_terminating, from_dialog, to_dialog, on_rx_offer, text_of,
}

-- The dialog goes on, or setup is done.
abbrev pub is_unwedged : {Session Inv : Type 0} → CallRun Session Inv → Bool
is_unwedged r = not (is_terminating r.dialog.state) || SetupCallbacks.is_done r.setup.state

update_some :
    {S : Type 0}
    → (a : DialogActions S) (sdp : String) (leg : Leg) (s : S)
    → Ends (λ t. t.handled ≡ true) (dialog_process a active (update_received sdp leg) s)
unfolding dialog_process dialog_table drain process_event
update_some a sdp leg s = ground arith

running_unestablished : (st : SetupState) → is_running st ≡ true → is_established st ≡ false
running_unestablished st h = ground arith

-- `Ends-bind` for the callbacks' bind.
Ends-then :
    {A B : Type 0} (P : A → Type 0) (Q : B → Type 0) (o : Option A) (f : A → Option B)
    → Ends P o
    → ((a : A) → P a → Ends Q (f a))
    → Ends Q (bind o f)
Ends-then P Q none f h k = h
Ends-then P Q (some a) f h k = k a h

module _ {Session Inv Tx Dlg : Type 0} (engine : Engine Session Inv Tx Dlg)
    (refer : ReferHandler (DialogCall Session Inv)) (stores : Stores) where
  process_update_some :
      (sdp : String) (leg : Leg) (d : DialogRun Session Inv)
      → d.state ≡ active
      → Ends (λ _. true ≡ true) (process engine refer (update_received sdp leg) d)
  unfolding process
  process_update_some sdp leg d h =
      Ends-bind (λ t. t.handled ≡ true) (λ _. true ≡ true)
        (dialog_process (dialog_actions engine refer) d.state (update_received sdp leg) d.actions)
        (λ t. some (record { state = t.state; actions = t.actions }))
        (rw h (update_some (dialog_actions engine refer) sdp leg d.actions)) (λ _ _. refl)

  -- What `on_rx_offer` does after the dialog.
  abbrev handed_back : CallRun Session Inv → DialogRun Session Inv → Option (CallRun Session Inv)
  handed_back r d =
      let r' = from_dialog r d in
      if not (is_established r'.setup.state) && is_terminating d.state
      then bind
          (SetupCallbacks.process engine stores
            (SetupEvent.exchange_finished ExchangeOutcome.failed) r'.setup)
          (λ s. some (record { setup = s; dialog = (to_dialog (record r' { setup = s })) }))
      else some r'

  handed_back_unwedged :
      (r : CallRun Session Inv) (d : DialogRun Session Inv)
      → is_running r.setup.state ≡ true
      → Ends (λ t. is_unwedged t ≡ true) (handed_back r d)
  handed_back_unwedged r d h = elim (Bool-cases (is_terminating d.state)) [
    | inl e ↦
        rw (running_unestablished r.setup.state h, e)
          (Ends-then (λ s. s.state ≡ SetupState.done) (λ t. is_unwedged t ≡ true)
            (SetupCallbacks.process engine stores
              (SetupEvent.exchange_finished ExchangeOutcome.failed) (from_dialog r d).setup)
            (λ s.
              some
                (record { setup = s; dialog = to_dialog (record (from_dialog r d) { setup = s }) }))
            (process-done engine stores ExchangeOutcome.failed (from_dialog r d).setup h refl)
            (λ s k. ground arith))
    | inr e ↦ ground arith
  ]

  -- An offer that comes within an active dialog while setup still waits for the final answer has a
  -- result, and never leaves a dialog that is terminating beside a setup that waits on: the setup
  -- is then done.
  pub on_rx_offer_unwedged :
      (method : String) (leg : Leg) (offer : Option String) (r : CallRun Session Inv)
      → is_running r.setup.state ≡ true
      → r.dialog.state ≡ active
      → Ends (λ t. is_unwedged t ≡ true) (on_rx_offer engine refer stores method leg offer r)
  unfolding on_rx_offer
  on_rx_offer_unwedged method leg offer r h k =
      let sdp = text_of offer in
      ground (
        arith,
        Ends-then (λ _. true ≡ true) (λ t. is_unwedged t ≡ true)
            (process engine refer (update_received sdp leg) (to_dialog r)) (handed_back r)
            (process_update_some sdp leg (to_dialog r) k) (λ d _. handed_back_unwedged r d h),
      )
