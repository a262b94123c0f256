-- ===== src/Call/SetupCall/Progress.antt =====
-- Which provisional responses reach the caller.
use sbc.Base.{if◌then◌else◌, ℕ, true, false, ◌==◌, some, ◌≡◌, arith}
use sbc.Sdp.{SdpSession}
use sbc.Sm.Machine.{Ends, drain, process_event}
use sbc.Sm.Setup.{negotiating, ringing, progress_received, setup_process, setup_table}
use sbc.Routing.Resolve.{Stores}
use sbc.Call.Invite.{answer}
use sbc.Call.Legs.{Engine}
use sbc.Call.Answering.{mark_early_media_relayed}
use sbc.Call.SetupCall.{
  SetupCall, setup_actions, is_new_progress, report_progress, mirrored_progress_code, held_answer,
}

module _ {Session Inv Tx Dlg : Type 0} (engine : Engine Session Inv Tx Dlg) (stores : Stores) where
  -- A provisional response that was reported without an early answer is not reported again when the
  -- callee repeats it.
  is_new_progress-report_progress :
      (status_code : ℕ) (s : SetupCall Session Inv)
      → is_new_progress status_code false (report_progress engine stores status_code false s)
        ≡ false
  unfolding is_new_progress report_progress mirrored_progress_code
  is_new_progress-report_progress status_code s = ground arith

  -- An early answer that PJSIP took is handed to PJSIP a second time when the callee repeats its
  -- provisional response, unless that response is a 183: setup goes on to ringing with the first
  -- response, stays there with the second, and then answers the caller with 183 and the same
  -- description again, whatever PJSIP makes of it.
  pub early_answer_relayed_again :
      (status_code : ℕ) (sdp : SdpSession) (s : SetupCall Session Inv)
      → held_answer s ≡ some sdp
      → (answer engine.pjsip 183 (some sdp) s.call.inv_caller).0 ≡ true
      → let first = report_progress engine stores status_code true s in
        let again = answer engine.pjsip 183 (some sdp) first.call.inv_caller in
        Ends
          (λ t. (t.state ≡ ringing) × (t.actions ≡ first))
          (setup_process
            (setup_actions engine stores)
            negotiating
            (progress_received status_code true)
            s)
        × Ends
            (λ t.
              (t.state ≡ ringing)
              × (t.actions.call.inv_caller
                  ≡ (if status_code == 183 then first.call.inv_caller else again.1)))
            (setup_process
              (setup_actions engine stores)
              ringing
              (progress_received status_code true)
              first)
  unfolding is_new_progress report_progress mirrored_progress_code held_answer
      mark_early_media_relayed setup_process setup_table drain process_event setup_actions
  early_answer_relayed_again status_code sdp s h k = ground arith
