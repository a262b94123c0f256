-- ===== src/Call/DialogCall/Hangup.antt =====
-- A call whose legs hang up.
use sbc.Base.{ℕ, String, Bool, true, false, Option, none, some, [], ◌∷◌, ◌++◌, ◌≡◌, refl, arith}
use sbc.Sm.Types.{Leg, caller, callee, TerminationReason, media_negotiation_failed}
use sbc.Sm.Machine.{Ends, drain, process_event}
use sbc.Sm.Dialog.{
  DialogEvent, is_ending, call_error, call_ended, referring, DialogState, active, reinviting,
  terminating, dialog_done, dialog_process, dialog_table,
}
use sbc.Call.Session.{CallSession, report_call_terminated, success}
use sbc.Call.Invite.{disconnected}
use sbc.Call.Legs.{Engine}
use sbc.Call.DialogCall.{
  DialogCall, ReferHandler, dialog_actions, forward_bye, terminate_call, cleanup,
}
use sbc.Call.DialogCall.Callbacks.{
  DialogRun, bind, mark_disconnected, process, handle_disconnect, on_leg_state_changed,
}

abbrev can_terminate : DialogState → Bool
can_terminate active = true
can_terminate reinviting = true
can_terminate referring = true
can_terminate _ = false

-- An answered call that is not transferring.
abbrev is_up : DialogState → Bool
is_up active = true
is_up reinviting = true
is_up _ = false

report_call_terminated-facts :
    {Session : Type 0}
    → (now : ℕ) (status : String) (reason : Option String) (s : CallSession Session)
    → ((report_call_terminated now status reason s).terminated_reported ≡ true)
      × ((report_call_terminated now status reason s).call_id ≡ s.call_id)
unfolding report_call_terminated
report_call_terminated-facts now status reason s = ground arith

module _ {Session Inv Tx Dlg : Type 0} (engine : Engine Session Inv Tx Dlg)
    (refer : ReferHandler (DialogCall Session Inv)) where
  -- What a hang-up must not change before the cleanup.
  abbrev Same : DialogCall Session Inv → DialogCall Session Inv → Type 0
  Same s t = (t.removed ≡ s.removed) × (t.call.session.call_id ≡ s.call.session.call_id)

  mark_disconnected-Same :
      (leg : Leg) (cause : ℕ) (text : String) (s : DialogCall Session Inv)
      → Same s (mark_disconnected engine.now leg cause text s)
  unfolding mark_disconnected report_call_terminated
  mark_disconnected-Same caller cause text s = ground arith
  mark_disconnected-Same callee cause text s = ground arith

  forward_bye-Same : (leg : Leg) (s : DialogCall Session Inv) → Same s (forward_bye engine leg s)
  unfolding forward_bye
  forward_bye-Same caller s = (refl, refl)
  forward_bye-Same callee s = (refl, refl)

  terminate_call-Same :
      (reason : TerminationReason) (s : DialogCall Session Inv)
      → Same s (terminate_call engine reason s)
  unfolding terminate_call report_call_terminated
  terminate_call-Same reason s = ground arith

  -- A dialog that can terminate and is told to end only goes on to terminating: the call's removal
  -- is not asked for yet.
  told_to_end :
      (st : DialogState) (e : DialogEvent) (s : DialogCall Session Inv)
      → is_ending e ≡ true
      → can_terminate st ≡ true
      → Ends
          (λ t. (t.state ≡ terminating) × (t.actions.removed ≡ s.removed))
          (dialog_process (dialog_actions engine refer) st e s)
  unfolding dialog_process dialog_table drain process_event dialog_actions
  told_to_end st (call_error reason) s i h = ground (arith, terminate_call-Same reason s)
  told_to_end st (call_ended reason) s i h = ground (arith, terminate_call-Same reason s)
  told_to_end st e s i h = ground arith

  -- The first leg that goes leaves the dialog terminating.
  abbrev first : DialogState → Leg → DialogCall Session Inv → DialogCall Session Inv
  first active leg s = forward_bye engine leg s
  first _ leg s = terminate_call engine media_negotiation_failed s

  first-Same : (st : DialogState) (leg : Leg) (s : DialogCall Session Inv) → Same s (first st leg s)
  first-Same active leg s = forward_bye-Same leg s
  first-Same _ leg s = terminate_call-Same media_negotiation_failed s

  first_gone :
      (st : DialogState) (leg : Leg) (s : DialogCall Session Inv)
      → is_up st ≡ true
      → handle_disconnect engine refer leg (record { state = st; actions = s })
        ≡ some (record { state = terminating; actions = first st leg s })
  unfolding handle_disconnect process dialog_process dialog_table drain process_event dialog_actions
  first_gone active leg s h = refl
  first_gone reinviting leg s h = refl
  first_gone _ leg s h = ground arith

  second_gone :
      (leg : Leg) (s : DialogCall Session Inv)
      → handle_disconnect engine refer leg (record { state = terminating; actions = s })
        ≡ some (record { state = dialog_done; actions = cleanup engine s })
  unfolding handle_disconnect process dialog_process dialog_table drain process_event dialog_actions
  second_gone leg s = refl

  cleanup-once :
      (s : DialogCall Session Inv)
      → ((cleanup engine s).removed ≡ s.removed ++ s.call.session.call_id ∷ [])
        × ((cleanup engine s).call.session.terminated_reported ≡ true)
  unfolding cleanup
  cleanup-once s = (refl, (report_call_terminated-facts engine.now success none s.call.session).0)

  -- An answered call that is not transferring is over when its two legs have gone, for whatever
  -- causes: its dialog is done, its end is reported, and it is removed once.
  pub both_legs_gone_finishes_call :
      (leg leg' : Leg) (cause cause' : ℕ) (text text' : String) (r : DialogRun Session Inv)
      → is_up r.state ≡ true
      → Ends
          (λ t.
            (t.state ≡ dialog_done)
            × (t.actions.removed ≡ r.actions.removed ++ r.actions.call.session.call_id ∷ [])
            × (t.actions.call.session.terminated_reported ≡ true))
          (bind
            (on_leg_state_changed engine refer leg disconnected cause text r)
            (on_leg_state_changed engine refer leg' disconnected cause' text'))
  unfolding on_leg_state_changed
  both_legs_gone_finishes_call leg leg' cause cause' text text' r h =
      let m = mark_disconnected engine.now leg cause text r.actions in
      let f = first r.state leg m in
      let n = mark_disconnected engine.now leg' cause' text' f in
      let p = mark_disconnected-Same leg cause text r.actions in
      let q = first-Same r.state leg m in
      let u = mark_disconnected-Same leg' cause' text' f in
      rw (first_gone r.state leg m h, second_gone leg' n)
        (refl, ground (arith, cleanup-once n), (cleanup-once n).1)
