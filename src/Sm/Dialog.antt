-- ===== src/Sm/Dialog.antt =====
-- The dialog machine: engine/src/sip/sm/dialog_sm.hpp over the interface of i_dialog_actions.hpp.
pub mod Trace
use sbc.Base.{String, Bool, true, false, if◌then◌else◌, Option, none, some, List, [], ◌∷◌}
use sbc.Sm.Types.{Leg, ExchangeOutcome, ReferOutcome, TerminationReason, is_pending}
use sbc.Sm.Machine.{Taken, Table, Settled, process_event}

pub record DialogActions (S : Type 0) : Type 0 where
  pub forward_bye_to_other_leg : Leg → S → S
  pub answer_reinvite : String → Leg → S → ExchangeOutcome × S
  pub reject_reinvite_491_request_pending : Leg → S → S
  pub answer_update : String → Leg → S → ExchangeOutcome × S
  pub reject_update_collision : Leg → S → S
  pub refer_started : Leg → S → Bool × S
  pub refer_completed : ReferOutcome → S → S
  pub refer_busy : Leg → S → S
  pub terminate_call : TerminationReason → S → S
  pub cleanup : S → S

pub data DialogState : Type 0 where
  active reinviting referring referring_while_terminating terminating terminated dialog_done :
      DialogState

pub data DialogEvent : Type 0 where
  bye_received : Leg → DialogEvent
  reinvite_received : String → Leg → DialogEvent
  update_received : String → Leg → DialogEvent
  refer_received : Leg → DialogEvent
  refer_completed : ReferOutcome → DialogEvent
  exchange_finished : ExchangeOutcome → DialogEvent
  call_replaced : DialogEvent
  call_error : TerminationReason → DialogEvent
  call_ended : TerminationReason → DialogEvent
  cleanup : DialogEvent

-- The engine tells the dialog to end.
abbrev pub is_ending : DialogEvent → Bool
is_ending (call_error reason) = true
is_ending (call_ended reason) = true
is_ending _ = false

module _ {S : Type 0} (a : DialogActions S) where
  abbrev go : DialogState → S → List DialogEvent → Option (Taken DialogState DialogEvent S)
  go st s posted = some (record { state = st; actions = s; posted = posted })

  -- `publish_outcome` of an exchange that was answered at once.
  unfoldable publish_outcome : ExchangeOutcome × S → Option (Taken DialogState DialogEvent S)
  unfolding is_pending
  publish_outcome (outcome, s) =
      go reinviting s (if is_pending outcome then [] else exchange_finished outcome ∷ [])

  unfoldable handle_refer : Leg → S → Option (Taken DialogState DialogEvent S)
  handle_refer leg s =
      let (started, s') = a.refer_started leg s in
      go referring s' (if started then [] else DialogEvent.refer_completed ReferOutcome.failed ∷ [])

  -- The guards `committed`, `rolled_back` and `failed` of Reinviting.
  unfoldable pub finish_exchange : ExchangeOutcome → S → Option (Taken DialogState DialogEvent S)
  finish_exchange ExchangeOutcome.pending s = none
  finish_exchange ExchangeOutcome.committed s = go active s []
  finish_exchange ExchangeOutcome.rolled_back s = go active s []
  finish_exchange ExchangeOutcome.failed s =
      go terminating (a.terminate_call TerminationReason.media_negotiation_failed s) []

  -- CallReplaced, CallError and CallEnded while the call is up.
  unfoldable terminate : TerminationReason → S → Option (Taken DialogState DialogEvent S)
  terminate reason s = go terminating (a.terminate_call reason s) []

  -- The transition table, a clause to a row.
  unfoldable pub dialog_table : Table DialogState DialogEvent S
  unfolding publish_outcome handle_refer finish_exchange terminate
  dialog_table active (bye_received leg) s = go terminating (a.forward_bye_to_other_leg leg s) []
  dialog_table active (reinvite_received sdp leg) s = publish_outcome (a.answer_reinvite sdp leg s)
  dialog_table active (update_received sdp leg) s = publish_outcome (a.answer_update sdp leg s)
  dialog_table active (refer_received leg) s = handle_refer leg s
  dialog_table active call_replaced s = terminate TerminationReason.replaced s
  dialog_table active (call_error reason) s = terminate reason s
  dialog_table active (call_ended reason) s = terminate reason s
  dialog_table reinviting (reinvite_received sdp leg) s =
      go reinviting (a.reject_reinvite_491_request_pending leg s) []
  dialog_table reinviting (update_received sdp leg) s =
      go reinviting (a.reject_update_collision leg s) []
  dialog_table reinviting (refer_received leg) s = go reinviting (a.refer_busy leg s) []
  dialog_table reinviting (exchange_finished outcome) s = finish_exchange outcome s
  dialog_table reinviting call_replaced s = terminate TerminationReason.replaced s
  dialog_table reinviting (call_error reason) s = terminate reason s
  dialog_table reinviting (call_ended reason) s = terminate reason s
  dialog_table referring (refer_received leg) s = go referring (a.refer_busy leg s) []
  dialog_table referring (DialogEvent.refer_completed outcome) s =
      go active (a.refer_completed outcome s) []
  dialog_table referring (bye_received leg) s =
      go referring_while_terminating (a.forward_bye_to_other_leg leg s) []
  dialog_table referring call_replaced s = terminate TerminationReason.replaced s
  dialog_table referring (call_error reason) s = terminate reason s
  dialog_table referring (call_ended reason) s = terminate reason s
  dialog_table referring_while_terminating (DialogEvent.refer_completed outcome) s =
      go terminating (a.refer_completed outcome s) []
  dialog_table terminating (call_ended reason) s = go terminated s (DialogEvent.cleanup ∷ [])
  dialog_table terminated DialogEvent.cleanup s = go dialog_done (a.cleanup s) []
  dialog_table _ _ s = none

  -- An event fires at most one other: an outcome, a failed REFER or the cleanup.
  unfoldable pub dialog_process : DialogState → DialogEvent → S → Option (Settled DialogState S)
  unfolding dialog_table process_event
  dialog_process st e s = process_event dialog_table 1 st e s
