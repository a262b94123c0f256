-- ===== src/Call/DialogCall.antt =====
-- An answered call: engine/src/sip/call/dialog_actions.cpp with reinvite_handler.cpp,
-- update_handler.cpp and bye_handler.cpp of engine/src/sip/call/handlers, as an implementation of
-- the dialog machine's interface. The REFER handler is a parameter.
pub mod Callbacks
pub mod Hangup
pub mod Renegotiation
use sbc.Base.{
  ℕ, String, Bool, true, false, not, ◌&&◌, ◌||◌, if◌then◌else◌, Option, none, some, List, [], ◌∷◌,
  ◌++◌, str_eq, ◌⊎◌, inl, inr,
}
use sbc.Sdp.{SdpSession}
use sbc.Sdp.Direction.{set_audio_direction}
use sbc.Sm.Types.{
  ExchangeOutcome, ReferOutcome, Leg, caller, callee, other, TerminationReason, engine_requested,
  replaced, hold_timeout, rtp_inactivity, media_negotiation_failed,
}
use sbc.Sm.Dialog.{DialogActions}
use sbc.Media.Bridge.{close}
use sbc.Call.Session.{send_recv, report_call_terminated, success}
use sbc.Call.Invite.{answer_request, end_session}
use sbc.Call.Legs.{Call, Engine, end_both, with_bridge}
use sbc.Call.MidDialog.{
  NegotiatedOffer, negotiate_mid_dialog_offer, commit_negotiated_media, inv_of, put_inv, has_neg,
}
use sbc.Call.SetupCall.{failed_status}

-- The members of DialogActions: the re-INVITE in hand, the legs whose offerless re-INVITE waits for
-- its ACK, whether the outcome of a REFER was delivered and setup established, and the removals asked of the manager.
pub record DialogCall (Session Inv : Type 0) : Type 0 where
  pub call : Call Session Inv
  pub has_pending_request : Bool
  pub offerless_caller : Bool
  pub offerless_callee : Bool
  pub result_delivered : Bool
  pub established : Bool
  pub removed : List String

-- What the dialog's actions call of the REFER handler.
pub record ReferHandler (S : Type 0) : Type 0 where
  pub start : Leg → S → Bool × S
  pub busy : S → S
  pub stop_subscriptions : S → S

unfoldable termination_reason_text : TerminationReason → String
termination_reason_text engine_requested = "call ended by the engine"
termination_reason_text replaced = "call replaced by a new dialog"
termination_reason_text hold_timeout = "hold timeout expired"
termination_reason_text rtp_inactivity = "RTP inactivity timeout expired"
termination_reason_text media_negotiation_failed = "media negotiation failed"

module _ {Session Inv : Type 0} where
  abbrev pub put_offerless : Leg → Bool → DialogCall Session Inv → DialogCall Session Inv
  put_offerless caller b s = record s { offerless_caller = b }
  put_offerless callee b s = record s { offerless_callee = b }

  abbrev pub is_offerless : Leg → DialogCall Session Inv → Bool
  is_offerless caller s = s.offerless_caller
  is_offerless callee s = s.offerless_callee

module _ {Session Inv Tx Dlg : Type 0} (engine : Engine Session Inv Tx Dlg) where
  -- `respond`: a reply to the re-INVITE in hand.
  unfoldable pub respond :
      Leg → ℕ → Option SdpSession → DialogCall Session Inv → Bool × DialogCall Session Inv
  unfolding answer_request
  respond leg code sdp s =
      let (ok, inv) =
        answer_request engine.pjsip s.has_pending_request code sdp (inv_of leg s.call) in
      (ok, record s { call = put_inv leg inv s.call })

  abbrev pub commit : Leg → NegotiatedOffer → DialogCall Session Inv → DialogCall Session Inv
  commit leg n s = record s { call = commit_negotiated_media engine s.established leg n s.call }

  -- A negotiation that was rolled back is answered 488, one that failed 500.
  abbrev pub refuse :
      Leg → ExchangeOutcome → DialogCall Session Inv → ExchangeOutcome × DialogCall Session Inv
  refuse leg ExchangeOutcome.rolled_back s =
      let (ok, s') = respond leg 488 none s in
      (if ok then ExchangeOutcome.rolled_back else ExchangeOutcome.failed, s')
  refuse leg _ s = (ExchangeOutcome.failed, (respond leg 500 none s).1)

  -- The reply to what a negotiation gave, and the commit of what was answered.
  abbrev pub answered :
      Leg
      → (ExchangeOutcome ⊎ NegotiatedOffer)
      → DialogCall Session Inv
      → ExchangeOutcome × DialogCall Session Inv
  answered leg (inl outcome) s = refuse leg outcome s
  answered leg (inr n) s =
      let (ok, s') = respond leg 200 n.answer_sdp s in
      if ok then (ExchangeOutcome.committed, commit leg n s') else (ExchangeOutcome.failed, s')

  unfoldable pub answer_reinvite :
      String → Leg → DialogCall Session Inv → ExchangeOutcome × DialogCall Session Inv
  unfolding respond negotiate_mid_dialog_offer commit_negotiated_media
  answer_reinvite offer leg s =
      if not (has_neg engine leg s.call)
      then (ExchangeOutcome.failed, s)
      else if str_eq offer ""
      then (ExchangeOutcome.pending, put_offerless leg true s)
      else (let (negotiated, c) = negotiate_mid_dialog_offer engine offer leg s.call in
          answered leg negotiated (record s { call = c }))

  abbrev set_answer : Leg → Option SdpSession → Call Session Inv → Bool × Call Session Inv
  set_answer leg none c = (false, c)
  set_answer leg (some sdp) c = elim (inv_of leg c) [
    | none ↦ (false, c)
    | some l ↦
        let (ok, inv) = engine.pjsip.set_sdp_answer sdp l.inv in
        (ok, put_inv leg (some (record l { inv = inv })) c)
  ]

  -- PJSIP answers an UPDATE itself, with the description that is set here or with 488.
  unfoldable pub answer_update :
      String → Leg → DialogCall Session Inv → ExchangeOutcome × DialogCall Session Inv
  unfolding negotiate_mid_dialog_offer commit_negotiated_media
  answer_update offer leg s =
      if not (has_neg engine leg s.call)
      then (ExchangeOutcome.failed, s)
      else (let (negotiated, c) = negotiate_mid_dialog_offer engine offer leg s.call in
          elim negotiated [
            | inl outcome ↦ (outcome, record s { call = c })
            | inr n ↦
                let (ok, c') = set_answer leg n.answer_sdp c in
                if ok
                then (ExchangeOutcome.committed, commit leg n (record s { call = c' }))
                else (ExchangeOutcome.failed, record s { call = c' })
          ])

  -- The offer for an offerless re-INVITE: what was agreed last, without its hold.
  unfoldable on_create_offer : Leg → DialogCall Session Inv → Option SdpSession
  unfolding set_audio_direction
  on_create_offer leg s =
      if is_offerless leg s && has_neg engine leg s.call
      then (elim (inv_of leg s.call) [
        | none ↦ none
        | some l ↦ elim (engine.pjsip.active_local l.inv) [
          | none ↦ none
          | some sdp ↦
              let (ok, offer) = set_audio_direction engine.pjmedia send_recv sdp in
              if ok then some offer else none
        ]
      ])
      else none

  unfoldable reject_reinvite_491 : Leg → DialogCall Session Inv → DialogCall Session Inv
  unfolding respond
  reject_reinvite_491 leg s = (respond leg 491 none s).1

  -- The other leg is ended with the code that stands for a BYE on a confirmed one.
  unfoldable pub forward_bye : Leg → DialogCall Session Inv → DialogCall Session Inv
  unfolding end_session other
  forward_bye leg s =
      let to = other leg in
      record s { call = put_inv to (end_session engine.pjsip 200 (inv_of to s.call)) s.call }

  unfoldable pub terminate_call :
      TerminationReason → DialogCall Session Inv → DialogCall Session Inv
  unfolding report_call_terminated termination_reason_text end_session
  terminate_call reason s =
      let session =
        report_call_terminated engine.now (if s.established then success else failed_status)
          (some (termination_reason_text reason)) s.call.session in
      record s {
        call = end_both engine 408 (record s.call { session = session });
        offerless_caller = false;
        offerless_callee = false;
      }

  unfoldable pub cleanup : DialogCall Session Inv → DialogCall Session Inv
  unfolding report_call_terminated close
  cleanup s = record s {
    call =
        with_bridge close (record s.call {
          session = report_call_terminated engine.now success none s.call.session;
        });
    removed = s.removed ++ s.call.session.call_id ∷ [];
  }

  -- The interface, filled; PJSIP rejects a colliding UPDATE by itself.
  unfoldable pub dialog_actions :
      ReferHandler (DialogCall Session Inv) → DialogActions (DialogCall Session Inv)
  unfolding answer_reinvite answer_update reject_reinvite_491 forward_bye terminate_call cleanup
  dialog_actions refer = record {
    forward_bye_to_other_leg = forward_bye;
    answer_reinvite = answer_reinvite;
    reject_reinvite_491_request_pending = reject_reinvite_491;
    answer_update = answer_update;
    reject_update_collision = λ _ s. s;
    refer_started = refer.start;
    refer_completed = λ _ s. s;
    refer_busy = λ _ s. refer.busy s;
    terminate_call = terminate_call;
    cleanup = cleanup;
  }
