-- ===== src/Call/Answering.antt =====
-- The actions of one initial INVITE exchange: engine/src/sip/call/offer_answer_actions.cpp, as an
-- implementation of the offer/answer machine's interface. The body `held_caller_answer` is the one
-- that `hold_answer` leaves for the final response.
pub mod Replies
pub mod Once
use sbc.Base.{ℕ, String, Bool, true, false, not, ◌&&◌, if◌then◌else◌, Option, none, some, [], ◌∷◌}
use sbc.Protocols.{SupportedCodec, find_supported_codec_by_name}
use sbc.Sdp.{SdpSession, parse, rewrite_connection_and_port}
use sbc.Sdp.Validity.{is_valid_sdp}
use sbc.Sdp.Codecs.{
  extract_active_audio_codec, extract_all_audio_codecs, extract_telephone_event_pt,
  pick_answer_codec, restrict_audio_codecs,
}
use sbc.Sm.Types.{caller, callee}
use sbc.Sm.OfferAnswer.{OfferAnswerActions, Reason, unusable_offer, unusable_answer}
use sbc.Media.Bridge.{leg_b, configure_legs, start_bridge_loop}
use sbc.Call.Session.{CallLeg, commit_offer_answer}
use sbc.Call.Invite.{answer, answer_with_active_local, is_gone}
use sbc.Call.Legs.{Call, Engine, answer_caller, with_bridge, with_leg}
use sbc.Call.Outbound.{aim, create_outbound_leg, send_outbound_invite}

-- The members of OfferAnswerActions, and the call that they work on.
pub record Answering (Session Inv : Type 0) : Type 0 where
  pub destination : String
  pub required_codec : Option SupportedCodec
  pub offer : String
  pub answer : String
  pub held_caller_answer : Option SdpSession
  pub offer_sent : Bool
  pub answer_sent : Bool
  pub early_media_relayed : Bool
  pub call : Call Session Inv

abbrev pub is_some {ℓ} : {A : Type ℓ} → Option A → Bool
is_some none = false
is_some (some _) = true

abbrev or_zero : Option ℕ → ℕ
or_zero none = 0
or_zero (some n) = n

-- The reply for an exchange that ends before an answer was relayed.
unfoldable rejection_code : Reason → ℕ
rejection_code unusable_offer = 488
rejection_code Reason.answer_timeout = 408
rejection_code _ = 500

unfoldable pub failure_code : Reason → ℕ
failure_code unusable_answer = 488
failure_code _ = 500

module _ {Session Inv : Type 0} where
  unfoldable pub new_answering :
      String → Option SupportedCodec → Call Session Inv → Answering Session Inv
  new_answering destination required_codec c = record {
    destination = destination;
    required_codec = required_codec;
    offer = "";
    answer = "";
    held_caller_answer = none;
    offer_sent = false;
    answer_sent = false;
    early_media_relayed = false;
    call = c;
  }

  -- Nothing is sent; the pending descriptions go.
  unfoldable pub cleanup : Answering Session Inv → Answering Session Inv
  cleanup s = record s { offer = ""; answer = "" }

  unfoldable pub commit : Answering Session Inv → Answering Session Inv
  unfolding commit_offer_answer
  commit s = record s {
    offer = "";
    answer = "";
    call = record s.call { session = commit_offer_answer s.offer s.answer s.call.session };
  }

module _ {Session Inv Tx Dlg : Type 0} (engine : Engine Session Inv Tx Dlg) where
  unfoldable pub relay_offer : String → Answering Session Inv → Answering Session Inv
  unfolding is_gone create_outbound_leg send_outbound_invite
  relay_offer sdp s =
      if is_gone engine.pjsip s.call.inv_caller
      then record s { offer = sdp; offer_sent = false }
      else (let (created, c) =
            create_outbound_leg engine s.destination s.required_codec sdp s.call in
          if created
          then (let (sent, c') = send_outbound_invite engine c in
              record s { offer = sdp; offer_sent = sent; call = c' })
          else record s { offer = sdp; offer_sent = false; call = c })

  -- `capture_callee_media`: where the callee's media goes, and its codec.
  unfoldable pub capture_callee_media : SdpSession → Call Session Inv → Call Session Inv
  unfolding extract_active_audio_codec extract_telephone_event_pt
  capture_callee_media callee_answer c =
      with_leg callee
        (λ l. record l {
          codec = extract_active_audio_codec engine.pjmedia callee_answer;
          dtmf_pt = extract_telephone_event_pt engine.pjmedia callee_answer;
        })
        (with_bridge (aim leg_b (some callee_answer)) c)

  -- `build_caller_answer`: from the caller's own offer, with one codec.
  unfoldable pub build_caller_answer :
      String → Call Session Inv → Option SdpSession × Call Session Inv
  unfolding extract_active_audio_codec extract_telephone_event_pt extract_all_audio_codecs
      pick_answer_codec restrict_audio_codecs parse
  build_caller_answer offer c = elim (parse engine.pjmedia offer) [
    | none ↦ (none, c)
    | some sdp ↦
        elim (pick_answer_codec c.session.callee_leg.codec
          (extract_all_audio_codecs engine.pjmedia sdp)) [
            | none ↦ (none, c)
            | some chosen ↦
                let caller_answer = restrict_audio_codecs engine.pjmedia (chosen ∷ []) sdp in
                (
                  some caller_answer,
                  with_leg caller
                      (λ l. record l {
                        codec = extract_active_audio_codec engine.pjmedia caller_answer;
                        dtmf_pt = extract_telephone_event_pt engine.pjmedia caller_answer;
                      })
                      c,
                )
          ]
  ]

  -- The codec of a leg, where one was negotiated and this build supports it.
  abbrev supported_of : CallLeg → Option SupportedCodec
  supported_of l = elim l.codec [ none ↦ none | some info ↦ find_supported_codec_by_name info.name ]

  unfoldable pub configure_media_bridge : Call Session Inv → Bool × Call Session Inv
  unfolding find_supported_codec_by_name configure_legs
  configure_media_bridge c = elim (supported_of c.session.caller_leg) [
    | none ↦ (false, c)
    | some a ↦ elim (supported_of c.session.callee_leg) [
      | none ↦ (false, c)
      | some b ↦
          if engine.has_pjmedia_endpoint
          then (elim (configure_legs engine.open_session
              (record { audio = a; dtmf_pt = c.session.caller_leg.dtmf_pt })
              (record { audio = b; dtmf_pt = c.session.callee_leg.dtmf_pt })
              c.session.media_bridge) [
                | none ↦ (false, c)
                | some bridge ↦ (true, with_bridge (λ _. bridge) c)
              ])
          else (false, c)
    ]
  ]

  unfoldable pub prepare_answer :
      String → Answering Session Inv → Option SdpSession × Answering Session Inv
  unfolding capture_callee_media build_caller_answer configure_media_bridge parse
      rewrite_connection_and_port
  prepare_answer sdp s = elim (parse engine.pjmedia sdp) [
    | none ↦ (none, record s { answer = sdp })
    | some callee_answer ↦
        let captured = capture_callee_media callee_answer s.call in
        let (built, c) = build_caller_answer s.offer captured in
        elim built [
          | none ↦ (none, record s { answer = sdp; call = c })
          | some caller_answer ↦
              let (ok, c') = configure_media_bridge c in
              (
                if ok
                    then some (
                        rewrite_connection_and_port engine.config.local_ip (or_zero c'.leg_a_port)
                          caller_answer)
                    else none,
                record s { answer = sdp; call = c' },
              )
        ]
  ]

  -- A 200 with the answer, or with the negotiator's own where an early answer went out already.
  unfoldable pub send_answer : Option SdpSession → Answering Session Inv → Answering Session Inv
  unfolding answer answer_with_active_local start_bridge_loop
  send_answer caller_answer s =
      if not (is_some caller_answer) && not s.early_media_relayed
      then s
      else (let (sent, leg) =
            if s.early_media_relayed
            then answer_with_active_local engine.pjsip 200 s.call.inv_caller
            else answer engine.pjsip 200 caller_answer s.call.inv_caller in
          let c : Call Session Inv = record s.call { inv_caller = leg } in
          record s {
            answer_sent = sent;
            call = if sent then with_bridge (start_bridge_loop engine.now) c else c;
          })

  unfoldable pub relay_answer : String → Answering Session Inv → Answering Session Inv
  unfolding prepare_answer send_answer
  relay_answer sdp s =
      let (caller_answer, s') = prepare_answer sdp s in send_answer caller_answer s'

  unfoldable pub hold_answer : String → Answering Session Inv → Answering Session Inv
  unfolding prepare_answer
  hold_answer sdp s =
      let (caller_answer, s') = prepare_answer sdp s in
      record s' { held_caller_answer = caller_answer }

  unfoldable pub release_answer : Answering Session Inv → Answering Session Inv
  unfolding send_answer
  release_answer s = record (send_answer s.held_caller_answer s) { held_caller_answer = none }

  unfoldable pub mark_early_media_relayed : Answering Session Inv → Answering Session Inv
  unfolding start_bridge_loop
  mark_early_media_relayed s = record s {
    early_media_relayed = true;
    call = with_bridge (start_bridge_loop engine.now) s.call;
  }

  abbrev reply : ℕ → Answering Session Inv → Answering Session Inv
  reply code s = record s { call = (answer_caller engine code none s.call).1 }

  unfoldable pub reject_offer : Reason → Answering Session Inv → Answering Session Inv
  unfolding answer rejection_code
  reject_offer reason s = reply (rejection_code reason) s

  unfoldable pub relay_rejection : ℕ → Answering Session Inv → Answering Session Inv
  unfolding answer
  relay_rejection code s = reply code s

  unfoldable pub fail : Reason → Answering Session Inv → Answering Session Inv
  unfolding answer failure_code
  fail reason s = if s.answer_sent then s else reply (failure_code reason) s

  -- The interface, filled.
  unfoldable pub offer_answer_actions : OfferAnswerActions (Answering Session Inv)
  unfolding relay_offer relay_answer hold_answer release_answer reject_offer relay_rejection fail
      commit cleanup is_valid_sdp
  offer_answer_actions = record {
    offer_usable = λ sdp _. is_valid_sdp engine.pjmedia sdp;
    answer_usable = λ sdp _. is_valid_sdp engine.pjmedia sdp;
    needs_ack = λ _. true;
    relay_offer = relay_offer;
    relay_answer = relay_answer;
    reject_offer = reject_offer;
    relay_rejection = relay_rejection;
    hold_answer = hold_answer;
    release_answer = release_answer;
    commit = commit;
    rollback = λ _ s. s;
    fail = fail;
    cleanup = cleanup;
  }
