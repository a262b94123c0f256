-- ===== src/Call/Answering/Once.antt =====
-- The exchange with its real actions: engine/src/sip/call/offer_answer_actions.cpp under
-- engine/src/sip/call/offer_answer_exchange.cpp.
use sbc.Base.{ℕ, ◌+◌, ◌≤◌, ◌≡◌, refl, String, Bool, false, if◌then◌else◌, Option, none, List, arith}
use sbc.Protocols.{SupportedCodec}
use sbc.Sdp.{SdpSession}
use sbc.Sm.OfferAnswer.{Reason}
use sbc.Call.Exchange.{new_exchange}
use sbc.Call.Invite.{is_gone}
use sbc.Call.Invite.Replied.{sent_count, answer-Replied, answer_with_active_local-Replied}
use sbc.Call.Legs.{Call, Engine}
use sbc.Call.Outbound.{create_outbound_leg, send_outbound_invite}
use sbc.Call.Answering.{
  Answering, new_answering, mark_early_media_relayed, offer_answer_actions, relay_offer,
  relay_answer, release_answer, reply, hold_answer, reject_offer, relay_rejection, fail, commit,
  cleanup, failure_code, send_answer, prepare_answer, capture_callee_media, build_caller_answer,
  configure_media_bridge,
}
use sbc.Call.Answering.Replies.{ExchangeUse, RepliesOnce, perform_all, perform_all-once}

module _ {Session Inv Tx Dlg : Type 0} (engine : Engine Session Inv Tx Dlg) where
  -- The messages that went out to the caller.
  abbrev pub replies : Answering Session Inv → ℕ
  replies s = sent_count s.call.inv_caller

  abbrev caller_gone : Answering Session Inv → Bool
  caller_gone s = is_gone engine.pjsip s.call.inv_caller

  prepare_answer-silent :
      (sdp : String) (s : Answering Session Inv)
      → (replies (prepare_answer engine sdp s).1 ≡ replies s)
        × ((prepare_answer engine sdp s).1.answer_sent ≡ s.answer_sent)
  unfolding prepare_answer capture_callee_media build_caller_answer configure_media_bridge
  prepare_answer-silent sdp s = ground arith

  create_outbound_leg-silent :
      (d : String) (r : Option SupportedCodec) (o : String) (c : Call Session Inv)
      → (create_outbound_leg engine d r o c).1.inv_caller ≡ c.inv_caller
  unfolding create_outbound_leg
  create_outbound_leg-silent d r o c = ground arith

  send_outbound_invite-silent :
      (c : Call Session Inv) → (send_outbound_invite engine c).1.inv_caller ≡ c.inv_caller
  unfolding send_outbound_invite
  send_outbound_invite-silent c = ground arith

  relay_offer-silent :
      (sdp : String) (s : Answering Session Inv)
      → (replies (relay_offer engine sdp s) ≡ replies s)
        × ((relay_offer engine sdp s).answer_sent ≡ s.answer_sent)
  unfolding relay_offer
  relay_offer-silent sdp s =
      let c = (create_outbound_leg engine s.destination s.required_codec sdp s.call).1 in
      ground (
        arith,
        create_outbound_leg-silent s.destination s.required_codec sdp s.call,
        send_outbound_invite-silent c,
      )

  send_answer-relays :
      (body : Option SdpSession) (s : Answering Session Inv)
      → s.answer_sent ≡ false
      → (replies (send_answer engine body s) ≤ replies s + 1)
        × ((if (send_answer engine body s).answer_sent
              then 0
              else if caller_gone (send_answer engine body s)
              then 0
              else replies (send_answer engine body s))
            ≤ replies s)
  unfolding send_answer
  send_answer-relays body s h = ground (
    arith,
    answer-Replied engine.pjsip 200 body s.call.inv_caller,
    answer_with_active_local-Replied engine.pjsip 200 s.call.inv_caller,
  )

  reply-once :
      (code : ℕ) (s : Answering Session Inv) → replies (reply engine code s) ≤ replies s + 1
  reply-once code s = (answer-Replied engine.pjsip code none s.call.inv_caller).most

  fail-once :
      (r : Reason) (s : Answering Session Inv)
      → (replies (fail engine r s) ≤ replies s + 1)
        × ((if s.answer_sent then replies (fail engine r s) else 0) ≤ replies s)
        × ((if caller_gone s then replies (fail engine r s) else 0) ≤ replies s)
  unfolding fail
  fail-once r s =
      ground (arith, answer-Replied engine.pjsip (failure_code r) none s.call.inv_caller)

  relays-once :
      (s t : Answering Session Inv) (body : Option SdpSession)
      → s.answer_sent ≡ false
      → (replies t ≡ replies s) × (t.answer_sent ≡ s.answer_sent)
      → (replies (send_answer engine body t) ≤ replies s + 1)
        × ((if (send_answer engine body t).answer_sent
              then 0
              else if caller_gone (send_answer engine body t)
              then 0
              else replies (send_answer engine body t))
            ≤ replies s)
  relays-once s t body h k = ground (arith, send_answer-relays body t)

  actions-RepliesOnce :
      RepliesOnce (offer_answer_actions engine) replies (λ s. s.answer_sent) caller_gone
  unfolding offer_answer_actions relay_answer hold_answer release_answer reject_offer
      relay_rejection fail commit cleanup
  actions-RepliesOnce = record {
    relay_offer = relay_offer-silent;
    hold_answer = prepare_answer-silent;
    commit = λ s. (refl, refl);
    rollback = λ r s. (refl, refl);
    cleanup = λ s. (refl, refl);
    relay_answer = λ sdp s h.
        relays-once s (prepare_answer engine sdp s).1 (prepare_answer engine sdp s).0 h
          (prepare_answer-silent sdp s);
    release_answer = λ s h. send_answer-relays s.held_caller_answer s h;
    reject_offer = λ r s. reply-once _ s;
    relay_rejection = λ code s. reply-once code s;
    fail = λ r s. (fail-once r s).0;
    fail_answered = λ r s. (fail-once r s).1;
    fail_gone = λ r s. (fail-once r s).2;
  }

  mark_early_media_relayed-silent :
      (s : Answering Session Inv)
      → (replies (mark_early_media_relayed engine s) ≡ replies s)
        × ((mark_early_media_relayed engine s).answer_sent ≡ s.answer_sent)
        × (caller_gone (mark_early_media_relayed engine s) ≡ caller_gone s)
  unfolding mark_early_media_relayed
  mark_early_media_relayed-silent s = (refl, refl, refl)

  -- Whatever public operations an exchange gets from its start, the marking of a relayed early answer
  -- included, and whatever PJSIP and PJMEDIA do, the exchange sends at most one message to the
  -- caller: an answer or an error, never both and none twice.
  pub exchange_replies_once :
      (destination : String) (codec : Option SupportedCodec) (c : Call Session Inv)
      (ops : List ExchangeUse)
      → sent_count
          (perform_all
            (offer_answer_actions engine)
            (λ s. s.offer_sent)
            (λ s. s.answer_sent)
            (mark_early_media_relayed engine)
            ops
            (new_exchange (new_answering destination codec c))).actions.call.inv_caller
        ≤ sent_count c.inv_caller + 1
  unfolding new_answering
  exchange_replies_once destination codec c ops =
      perform_all-once (offer_answer_actions engine) replies (λ s. s.offer_sent)
        (λ s. s.answer_sent) caller_gone actions-RepliesOnce (sent_count c.inv_caller)
        (mark_early_media_relayed engine) mark_early_media_relayed-silent
        (new_answering destination codec c) ops refl (omega arith)
