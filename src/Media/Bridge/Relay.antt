-- ===== src/Media/Bridge/Relay.antt =====
-- The relay loop of engine/src/net/rtp/media_bridge.cpp: what a completion does.
use sbc.Base.{ℕ, suc, if◌then◌else◌, Option, none, some, List, [], ◌∷◌}
use sbc.Media.Dtmf.{RtpPacket, DtmfRelayOutcome, not_dtmf, drop_unmapped, relay, relay_dtmf_pt}
use sbc.Media.Bridge.{
  RelayLeg, opposite, receive, send, Endpoint, Output, raw_packet, dtmf_packet, audio_packet,
  reported, Completion, done, aborted, failed, MediaBridge, side, put, relay_allowed, listen,
}

pub data Received : Type 0 where
  packet : RtpPacket → Received
  receive_aborted receive_failed : Received

module _ {Session : Type 0} where
  abbrev pub sent : RelayLeg → MediaBridge Session → MediaBridge Session
  sent leg s = put leg (record (side leg s) { sending = suc (side leg s).sending }) s

  abbrev rearmed : RelayLeg → MediaBridge Session → MediaBridge Session × List Output
  rearmed leg s = (listen leg s, [])

module _ {Session : Type 0} (transcode : Session → RelayLeg → List ℕ → Option (List ℕ × ℕ)) where
  -- What leaves for `ep`; `none` for a payload that does not transcode.
  unfoldable pub outgoing :
      RelayLeg → DtmfRelayOutcome → RtpPacket → Endpoint → Option Session → Option Output
  outgoing src_leg drop_unmapped pkt ep session = none
  outgoing src_leg not_dtmf pkt ep none = some (raw_packet pkt ep)
  outgoing src_leg (relay _) pkt ep none = some (raw_packet pkt ep)
  outgoing src_leg (relay pt) pkt ep (some _) = some (dtmf_packet pt pkt.payload pkt.is_marked ep)
  outgoing src_leg not_dtmf pkt ep (some session) = elim (transcode session src_leg pkt.payload) [
    | none ↦ none
    | some (encoded, timestamp_delta) ↦ some (audio_packet encoded timestamp_delta ep)
  ]

  -- A loop listens only while the other leg has an endpoint, so the case without one never runs.
  unfoldable pub process_packet :
      RelayLeg → ℕ → RtpPacket → MediaBridge Session → MediaBridge Session × List Output
  unfolding relay_allowed relay_dtmf_pt opposite listen
  process_packet src_leg now pkt s =
      if relay_allowed src_leg s
      then (let (outcome, out_pkt) =
            relay_dtmf_pt pkt (side src_leg s).dtmf_pt (side (opposite src_leg) s).dtmf_pt in
          let s' = record s { last_packet_time = now } in
          elim (side (opposite src_leg) s).dest [
            | none ↦ rearmed src_leg s'
            | some ep ↦ elim (outgoing src_leg outcome out_pkt ep s.transcode_session) [
              | none ↦ rearmed src_leg s'
              | some out ↦ (sent src_leg s', out ∷ [])
            ]
          ])
      else rearmed src_leg s

  -- The handler of `async_receive_pkt`; the receive is no longer outstanding.
  unfoldable pub on_received :
      RelayLeg → ℕ → Received → MediaBridge Session → MediaBridge Session × List Output
  unfolding process_packet listen
  on_received src_leg now r s = if s.closing then (s, []) else handled r
    where
      handled : Received → MediaBridge Session × List Output
      handled (packet pkt) = process_packet src_leg now pkt s
      handled receive_aborted = (s, [])
      handled receive_failed = (listen src_leg s, reported src_leg receive ∷ [])

  -- The handler of a send.
  unfoldable pub on_sent :
      RelayLeg → Completion → MediaBridge Session → MediaBridge Session × List Output
  unfolding listen opposite
  on_sent src_leg c s = if s.closing then (s, []) else handled c
    where
      handled : Completion → MediaBridge Session × List Output
      handled done = (listen src_leg s, [])
      handled aborted = (s, [])
      handled failed = (listen src_leg s, reported (opposite src_leg) send ∷ [])
