-- ===== src/Router/Dispatch.antt =====
-- The callbacks of PJSIP and the turn of its loop: engine/src/sip/router/message_router.cpp. Whom a
-- request or a change of a leg's state is for is a value.
pub mod Turn
use sbc.Base.{
  ℕ, String, Bool, true, false, not, ◌&&◌, ◌||◌, if◌then◌else◌, Option, none, some, str_eq,
}
use sbc.Base.Int.{ℤ, leb_ℤ, pos}
use sbc.Sm.Setup.{SetupState, established, done}
use sbc.Call.Manager.{
  CallOps, CallManager, process_pending_rtp_inactivity, process_pending_hold_timeouts,
  process_pending_replacements, purge_scheduled,
}

pub data Routed : Type 0 where
  unmatched_ack unmatched_dialog_request bad_request : Routed
  invite options register out_of_dialog_refer unsupported_method : Routed
  dialog_usage : Routed

-- Whether the module claims the request, and where it goes.
unfoldable on_rx_request : String → Bool → Bool → Bool × Routed
on_rx_request method has_replaces in_dialog =
    if str_eq method "ACK"
    then (true, unmatched_ack)
    else if str_eq method "CANCEL"
    then (true, unmatched_dialog_request)
    else if has_replaces && (not (str_eq method "INVITE") || in_dialog)
    then (true, bad_request)
    else if in_dialog
    then (str_eq method "REFER", dialog_usage)
    else if str_eq method "INVITE"
    then (true, invite)
    else if str_eq method "OPTIONS"
    then (true, options)
    else if str_eq method "REGISTER"
    then (true, register)
    else if str_eq method "BYE"
    then (true, unmatched_dialog_request)
    else if str_eq method "REFER"
    then (true, out_of_dialog_refer)
    else (true, unsupported_method)

-- The actions that a leg's new state is for.
pub data Owner : Type 0 where
  nobody setup dialog : Owner

unfoldable on_inv_state_changed : Option SetupState → Owner
on_inv_state_changed none = nobody
on_inv_state_changed (some established) = dialog
on_inv_state_changed (some done) = nobody
on_inv_state_changed (some _) = setup

-- The turn after PJSIP's events, `sweep` being the registrar's; `none` where the scan for inactive
-- calls is undefined.
unfoldable pub process_pending_media_events :
    {C R : Type 0} → CallOps C → (R → R) → ℕ → ℤ → CallManager C × R → Option (CallManager C × R)
unfolding process_pending_rtp_inactivity process_pending_hold_timeouts process_pending_replacements
    purge_scheduled
process_pending_media_events ops sweep now max_hold_duration_s (m, r) =
    elim (process_pending_rtp_inactivity ops now m) [
      | none ↦ none
      | some inactive ↦
          let held =
            if leb_ℤ (pos 1) max_hold_duration_s
            then process_pending_hold_timeouts ops inactive
            else inactive in
          some (purge_scheduled (process_pending_replacements ops held), sweep r)
    ]
