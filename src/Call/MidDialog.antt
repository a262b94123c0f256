-- ===== src/Call/MidDialog.antt =====
-- Offers within a dialog: engine/src/sip/call/handlers/mid_dialog_offer.cpp. `established` tells
-- whether the setup machine is. The warnings about a transfer through another call are not modelled.
use sbc.Base.{
  ℕ, String, Bool, true, false, not, ◌&&◌, ◌||◌, if◌then◌else◌, ◌==◌, Option, none, some, [], ◌∷◌,
  str_eq, ◌⊎◌, inl, inr,
}
use sbc.Protocols.{SupportedCodec, find_supported_codec_by_name}
use sbc.Sdp.{SdpSession, RtpEndpoint, parse, extract_rtp_endpoint, rewrite_connection_and_port}
use sbc.Sdp.Validity.{is_valid_sdp}
use sbc.Sdp.Direction.{is_hold_address, extract_audio_direction, set_audio_direction}
use sbc.Sdp.Codecs.{
  AudioCodecInfo, extract_active_audio_codec, extract_all_audio_codecs, extract_telephone_event_pt,
  pick_answer_codec, restrict_audio_codecs,
}
use sbc.Sm.Types.{ExchangeOutcome, Leg, caller, callee, other}
use sbc.Media.Bridge.{RelayLeg, leg_a, leg_b, LegCodec, configure_legs, retarget_remote_leg}
use sbc.Call.Session.{
  MediaDirection, inactive, answer_direction, CallLeg, apply_media_direction, report_call_updated,
}
use sbc.Call.Invite.{InviteSession}
use sbc.Call.Legs.{Call, Engine, with_bridge, with_leg}

pub record NegotiatedOffer : Type 0 where
  pub answer_sdp : Option SdpSession
  pub codec : Option AudioCodecInfo
  pub dtmf_pt : Option ℕ
  pub offer_direction : MediaDirection

abbrev is_caller : Leg → Bool
is_caller caller = true
is_caller callee = false

abbrev same_pt : Option ℕ → Option ℕ → Bool
same_pt none none = true
same_pt none (some _) = false
same_pt (some _) none = false
same_pt (some a) (some b) = a == b

unfoldable media_changed : Option AudioCodecInfo → Option ℕ → String → Option ℕ → Bool
media_changed none current_pt chosen dtmf_pt = true
media_changed (some c) current_pt chosen dtmf_pt =
    not (str_eq c.name chosen) || not (same_pt current_pt dtmf_pt)

unfoldable caller_codec_changed : Leg → Option AudioCodecInfo → Option AudioCodecInfo → Bool
caller_codec_changed callee before after = false
caller_codec_changed caller none none = false
caller_codec_changed caller none (some _) = true
caller_codec_changed caller (some _) none = true
caller_codec_changed caller (some a) (some b) = not (str_eq a.name b.name)

abbrev relay_leg : Leg → RelayLeg
relay_leg caller = leg_a
relay_leg callee = leg_b

module _ {Session Inv : Type 0} where
  abbrev pub leg_of : Leg → Call Session Inv → CallLeg
  leg_of caller c = c.session.caller_leg
  leg_of callee c = c.session.callee_leg

  abbrev pub inv_of : Leg → Call Session Inv → Option (InviteSession Inv)
  inv_of caller c = c.inv_caller
  inv_of callee c = c.inv_callee

  abbrev pub put_inv : Leg → Option (InviteSession Inv) → Call Session Inv → Call Session Inv
  put_inv caller inv c = record c { inv_caller = inv }
  put_inv callee inv c = record c { inv_callee = inv }

  abbrev relay_port : Leg → Call Session Inv → Option ℕ
  relay_port caller c = c.leg_a_port
  relay_port callee c = c.leg_b_port

  unfoldable retarget_leg : Leg → RtpEndpoint → Call Session Inv → Call Session Inv
  unfolding retarget_remote_leg
  retarget_leg leg ep c =
      with_bridge (retarget_remote_leg (relay_leg leg) (record { address = ep.ip; port = ep.port }))
        c

module _ {Session Inv Tx Dlg : Type 0} (engine : Engine Session Inv Tx Dlg) where
  -- `none` where the bridge cannot be reconfigured.
  unfoldable reconfigure_media_bridge :
      Leg → SupportedCodec → Option ℕ → Call Session Inv → Option (Call Session Inv)
  unfolding other find_supported_codec_by_name configure_legs
  reconfigure_media_bridge leg codec dtmf_pt c =
      let other_leg = leg_of (other leg) c in
      let other_codec : Option SupportedCodec = elim other_leg.codec [
        | none ↦ none
        | some info ↦ find_supported_codec_by_name info.name
      ] in
      elim other_codec [
        | none ↦ none
        | some kept ↦
            let changed : LegCodec = record { audio = codec; dtmf_pt = dtmf_pt } in
            let unchanged : LegCodec = record { audio = kept; dtmf_pt = other_leg.dtmf_pt } in
            if engine.has_pjmedia_endpoint
            then (elim (configure_legs engine.open_session
                (if is_caller leg then changed else unchanged)
                (if is_caller leg then unchanged else changed) c.session.media_bridge) [
                  | none ↦ none
                  | some bridge ↦ some (with_bridge (λ _. bridge) c)
                ])
            else none
      ]

  -- The negotiated media, once it was answered.
  unfoldable pub commit_negotiated_media :
      Bool → Leg → NegotiatedOffer → Call Session Inv → Call Session Inv
  unfolding caller_codec_changed apply_media_direction report_call_updated
  commit_negotiated_media established leg n c =
      let codec_changed = caller_codec_changed leg (leg_of leg c).codec n.codec in
      let c' = with_leg leg (λ l. record l { codec = n.codec; dtmf_pt = n.dtmf_pt }) c in
      let s = apply_media_direction established engine.now leg n.offer_direction c'.session in
      record c' { session = if codec_changed then report_call_updated s else s }

  -- The leg has an invite session with a negotiator.
  abbrev pub has_neg : Leg → Call Session Inv → Bool
  has_neg leg c = elim (inv_of leg c) [ none ↦ false | some l ↦ engine.pjsip.has_neg l.inv ]

  -- The bridge, where the chosen codec or the DTMF payload type is another one.
  abbrev reconfigured :
      Leg → SupportedCodec → Option ℕ → Call Session Inv → Option (Call Session Inv)
  reconfigured leg chosen dtmf_pt c =
      if media_changed (leg_of leg c).codec (leg_of leg c).dtmf_pt chosen.name dtmf_pt
      then reconfigure_media_bridge leg chosen dtmf_pt c
      else some c

  -- The answer to an offer with a usable codec.
  unfoldable pub answer_offer :
      SdpSession
      → RtpEndpoint
      → SupportedCodec
      → Leg
      → Call Session Inv
      → (ExchangeOutcome ⊎ NegotiatedOffer) × Call Session Inv
  unfolding reconfigure_media_bridge media_changed extract_telephone_event_pt retarget_leg
      is_hold_address extract_audio_direction set_audio_direction answer_direction
      extract_active_audio_codec rewrite_connection_and_port restrict_audio_codecs
  answer_offer offer_sdp ep chosen leg c =
      let direction = extract_audio_direction engine.pjmedia (some offer_sdp) ep in
      let dtmf_pt = extract_telephone_event_pt engine.pjmedia offer_sdp in
      elim (reconfigured leg chosen dtmf_pt c) [
        | none ↦ (inl ExchangeOutcome.rolled_back, c)
        | some c' ↦
            let narrowed = restrict_audio_codecs engine.pjmedia (chosen ∷ []) offer_sdp in
            let (ok, directed) =
              set_audio_direction engine.pjmedia (answer_direction direction) narrowed in
            if ok
            then (elim (relay_port leg c') [
              | none ↦ (inl ExchangeOutcome.failed, c')
              | some port ↦
                  let answer = rewrite_connection_and_port engine.config.local_ip port directed in
                  (
                    inr (record {
                      answer_sdp = some answer;
                      codec = extract_active_audio_codec engine.pjmedia answer;
                      dtmf_pt = dtmf_pt;
                      offer_direction = direction;
                    }),
                    if is_hold_address engine.pjmedia ep.ip then c' else retarget_leg leg ep c',
                  )
            ])
            else (inl ExchangeOutcome.failed, c')
      ]

  unfoldable pub negotiate_mid_dialog_offer :
      String → Leg → Call Session Inv → (ExchangeOutcome ⊎ NegotiatedOffer) × Call Session Inv
  unfolding is_valid_sdp parse extract_rtp_endpoint pick_answer_codec extract_all_audio_codecs
      answer_offer other
  negotiate_mid_dialog_offer offer leg c =
      if not (has_neg leg c)
      then (inl ExchangeOutcome.failed, c)
      else if is_valid_sdp engine.pjmedia offer
      then (elim (parse engine.pjmedia offer) [
        | none ↦ (inl ExchangeOutcome.rolled_back, c)
        | some offer_sdp ↦
            let ep = extract_rtp_endpoint offer_sdp in
            if str_eq ep.ip ""
            then (inl ExchangeOutcome.rolled_back, c)
            else (elim (pick_answer_codec (leg_of (other leg) c).codec
                (extract_all_audio_codecs engine.pjmedia offer_sdp)) [
                  | none ↦ (inl ExchangeOutcome.rolled_back, c)
                  | some chosen ↦ answer_offer offer_sdp ep chosen leg c
                ])
      ])
      else (inl ExchangeOutcome.rolled_back, c)

  abbrev usable_endpoint : RtpEndpoint → Bool
  usable_endpoint ep = not (str_eq ep.ip "") && not (is_hold_address engine.pjmedia ep.ip)

  -- The answer that came in an ACK; the result is false where it cannot be applied.
  unfoldable pub apply_answered_media :
      Bool → Leg → SdpSession → Call Session Inv → Bool × Call Session Inv
  unfolding extract_rtp_endpoint commit_negotiated_media pick_answer_codec media_changed
      extract_all_audio_codecs extract_telephone_event_pt reconfigure_media_bridge retarget_leg
      extract_active_audio_codec extract_audio_direction is_hold_address
  apply_answered_media established leg answer c =
      let ep = extract_rtp_endpoint answer in
      let current = leg_of leg c in
      if ep.port == 0
      then (
        true,
        commit_negotiated_media established leg
            (record {
              answer_sdp = none;
              codec = current.codec;
              dtmf_pt = current.dtmf_pt;
              offer_direction = inactive;
            })
            c,
      )
      else (elim (pick_answer_codec current.codec
          (extract_all_audio_codecs engine.pjmedia answer)) [
            | none ↦ (false, c)
            | some chosen ↦
                let dtmf_pt = extract_telephone_event_pt engine.pjmedia answer in
                elim (reconfigured leg chosen dtmf_pt c) [
                  | none ↦ (false, c)
                  | some c' ↦
                      let aimed = if usable_endpoint ep then retarget_leg leg ep c' else c' in
                      (
                        true,
                        commit_negotiated_media established leg
                            (record {
                              answer_sdp = none;
                              codec =
                                  if media_changed current.codec current.dtmf_pt chosen.name dtmf_pt
                                  then extract_active_audio_codec engine.pjmedia answer
                                  else current.codec;
                              dtmf_pt = dtmf_pt;
                              offer_direction =
                                  extract_audio_direction engine.pjmedia (some answer) ep;
                            })
                            aimed,
                      )
                ]
          ])
