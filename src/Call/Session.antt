-- ===== src/Call/Session.antt =====
-- The bookkeeping of one call: engine/src/sip/call/call_session.hpp and .cpp, with the media
-- directions of engine/src/sip/stack/sdp.cpp. `sent` are the events handed to the call-history sink
-- (engine/src/protocols/call_event.hpp), without their wall-clock texts. The steady clock counts
-- nanoseconds.
pub mod Hold
pub mod History
use mathlib.Core.Option
use sbc.Base.{
  ℕ, zero, suc, ◌+◌, ◌-◌, ◌*◌, ◌/◌, String, Bool, true, false, ◌&&◌, ◌||◌, not, if◌then◌else◌, leb,
  Option, none, some, List, [], ◌∷◌, ◌++◌, str_eq,
}
use sbc.Base.Int.{ℤ, pos, negsuc, to_int32}
use sbc.Sdp.Codecs.{AudioCodecInfo}
use sbc.Sm.Types.{Leg, caller, callee}
use sbc.Media.Bridge.{
  RelayLeg, leg_a, leg_b, LegFlow, MediaBridge, set_leg_media_flow, reset_inactivity_baseline,
}

pub data MediaDirection : Type 0 where
  send_recv send_only recv_only inactive : MediaDirection

unfoldable pub can_send : MediaDirection → Bool
can_send send_recv = true
can_send send_only = true
can_send _ = false

unfoldable pub can_receive : MediaDirection → Bool
can_receive send_recv = true
can_receive recv_only = true
can_receive _ = false

-- RFC 3264: the answer's direction for an offer's.
unfoldable pub answer_direction : MediaDirection → MediaDirection
answer_direction send_recv = send_recv
answer_direction send_only = recv_only
answer_direction recv_only = send_only
answer_direction inactive = inactive

pub record CallLeg : Type 0 where
  pub disconnected : Bool
  pub codec : Option AudioCodecInfo
  pub dtmf_pt : Option ℕ
  pub media_direction : MediaDirection

abbrev pub codec_name : CallLeg → Option String
codec_name leg = Option.map (λ (c : AudioCodecInfo). c.name) leg.codec

pub data CallEvent : Type 0 where
  call_started : String → String → String → CallEvent
  call_updated : String → String → Option String → CallEvent
  call_terminated : String → String → Option String → Option ℤ → CallEvent

pub record CallSession (Session : Type 0) : Type 0 where
  pub call_id : String
  pub caller_uri : String
  pub request_uri : String
  pub outbound_destination : String
  pub max_hold_duration_s : ℤ
  pub has_sink : Bool
  pub caller_leg : CallLeg
  pub callee_leg : CallLeg
  pub media_bridge : MediaBridge Session
  pub negotiated_offer : String
  pub negotiated_answer : String
  pub answered_at : Option ℕ
  pub terminated_reported : Bool
  pub hold_started_at : Option ℕ
  pub sent : List CallEvent

abbrev nanoseconds : ℕ
nanoseconds = 1000000000

-- `CallStatus::kSuccess`.
abbrev pub success : String
success = "Success"

abbrev requests_hold : MediaDirection → Bool
requests_hold send_only = true
requests_hold inactive = true
requests_hold _ = false

abbrev is_recv_only : MediaDirection → Bool
is_recv_only recv_only = true
is_recv_only _ = false

abbrev pub is_some {ℓ} : {A : Type ℓ} → Option A → Bool
is_some none = false
is_some (some _) = true

abbrev relay_leg : Leg → RelayLeg
relay_leg caller = leg_a
relay_leg callee = leg_b

pub data SessionOp : Type 0 where
  starts updates : SessionOp
  commits : String → String → SessionOp
  answers : ℕ → SessionOp
  terminates : ℕ → String → Option String → SessionOp
  redirects : Bool → ℕ → Leg → MediaDirection → SessionOp

unfoldable pub flow_of : MediaDirection → LegFlow
unfolding can_send can_receive
flow_of direction = record { can_send = can_send direction; can_receive = can_receive direction }

module _ {Session : Type 0} where
  -- A sink that is not wired takes nothing.
  unfoldable emit : CallEvent → CallSession Session → CallSession Session
  emit e s = if s.has_sink then record s { sent = s.sent ++ e ∷ [] } else s

  unfoldable pub commit_offer_answer : String → String → CallSession Session → CallSession Session
  commit_offer_answer offer answer s = record s {
    negotiated_offer = offer;
    negotiated_answer = answer;
  }

  unfoldable pub report_call_started : CallSession Session → CallSession Session
  unfolding emit
  report_call_started s = emit (call_started s.call_id s.caller_uri s.request_uri) s

  unfoldable send_call_updated : CallSession Session → CallSession Session
  unfolding emit
  send_call_updated s =
      emit (call_updated s.call_id s.outbound_destination (codec_name s.caller_leg)) s

  unfoldable pub report_call_answered : ℕ → CallSession Session → CallSession Session
  unfolding send_call_updated
  report_call_answered now s = send_call_updated (record s { answered_at = some now })

  unfoldable pub report_call_updated : CallSession Session → CallSession Session
  unfolding send_call_updated
  report_call_updated s = elim s.answered_at [ none ↦ s | some _ ↦ send_call_updated s ]

  unfoldable pub established_duration : ℕ → CallSession Session → Option ℕ
  established_duration now s = elim s.answered_at [
    | none ↦ none
    | some t ↦ some ((now - t) / nanoseconds)
  ]

  unfoldable pub report_call_terminated :
      ℕ → String → Option String → CallSession Session → CallSession Session
  unfolding emit established_duration
  report_call_terminated now status failure_reason s =
      if s.terminated_reported
      then s
      else emit
          (call_terminated s.call_id status failure_reason (
            if str_eq status success
            then Option.map to_int32 (established_duration now s)
            else none))
          (record s { terminated_reported = true; hold_started_at = none })

  abbrev leg_direction : Leg → CallSession Session → MediaDirection
  leg_direction caller s = s.caller_leg.media_direction
  leg_direction callee s = s.callee_leg.media_direction

  unfoldable pub media_is_held : CallSession Session → Bool
  media_is_held s =
      let caller_direction = leg_direction caller s in
      let callee_direction = leg_direction callee s in
      requests_hold caller_direction
      || requests_hold callee_direction
      || (is_recv_only caller_direction && is_recv_only callee_direction)

  abbrev set_direction : Leg → MediaDirection → CallSession Session → CallSession Session
  set_direction caller d s = record s { caller_leg = record s.caller_leg { media_direction = d } }
  set_direction callee d s = record s { callee_leg = record s.callee_leg { media_direction = d } }

  -- `established` is the setup machine's state; `now` is read once, when one of the branches does.
  unfoldable pub record_media_direction :
      Bool → ℕ → Leg → MediaDirection → CallSession Session → CallSession Session
  unfolding media_is_held reset_inactivity_baseline
  record_media_direction established now which direction s =
      let was_held = media_is_held s in
      let s' = set_direction which direction s in
      let is_held = media_is_held s' in
      if not (is_some s.hold_started_at) && is_held && established
      then record s' { hold_started_at = some now }
      else if was_held && not is_held
      then record s' {
        hold_started_at = none;
        media_bridge = reset_inactivity_baseline now s'.media_bridge;
      }
      else s'

  unfoldable pub apply_media_direction :
      Bool → ℕ → Leg → MediaDirection → CallSession Session → CallSession Session
  unfolding record_media_direction set_leg_media_flow flow_of
  apply_media_direction established now leg direction s =
      record_media_direction established now leg direction (record s {
        media_bridge = set_leg_media_flow (relay_leg leg) (flow_of direction) s.media_bridge;
      })

  unfoldable pub rtp_inactivity_expired : ℕ → ℕ → CallSession Session → Bool
  unfolding media_is_held
  rtp_inactivity_expired now timeout s =
      not (media_is_held s) && leb (s.media_bridge.last_packet_time + timeout) now

  unfoldable pub hold_timeout_expired : ℕ → CallSession Session → Bool
  hold_timeout_expired now s = elim s.max_hold_duration_s [
    | negsuc _ ↦ false
    | pos zero ↦ false
    | pos (suc n) ↦ elim s.hold_started_at [
      | none ↦ false
      | some started ↦ leb (started + suc n * nanoseconds) now
    ]
  ]

  -- The calls that change the bookkeeping.
  unfoldable pub session_step : SessionOp → CallSession Session → CallSession Session
  unfolding report_call_started report_call_updated commit_offer_answer report_call_answered
      report_call_terminated apply_media_direction
  session_step starts s = report_call_started s
  session_step updates s = report_call_updated s
  session_step (commits offer answer) s = commit_offer_answer offer answer s
  session_step (answers now) s = report_call_answered now s
  session_step (terminates now status reason) s = report_call_terminated now status reason s
  session_step (redirects established now leg d) s = apply_media_direction established now leg d s

  abbrev pub session_run : List SessionOp → CallSession Session → CallSession Session
  session_run [] s = s
  session_run (op ∷ ops) s = session_run ops (session_step op s)
