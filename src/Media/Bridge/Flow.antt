-- ===== src/Media/Bridge/Flow.antt =====
-- Which packets the relay of engine/src/net/rtp/media_bridge.cpp lets through, and its shutdown.
use sbc.Base.{
  Bool-cases, ℕ, ◌≡◌, refl, true, Option, none, some, List, [], ◌∷◌, arith, ◌⊎◌, inl, inr,
}
use sbc.Media.Dtmf.{RtpPacket}
use sbc.Media.Bridge.{
  relay_allowed, reported, RelayLeg, opposite, Endpoint, Output, raw_packet, dtmf_packet,
  audio_packet, MediaBridge, side,
}
use sbc.Media.Bridge.Relay.{process_packet, outgoing}

module _ {Session : Type 0} (transcode : Session → RelayLeg → List ℕ → Option (List ℕ × ℕ)) where
  -- What `out` carries of a packet that came from `leg`, and where it goes.
  abbrev pub Carries : RelayLeg → RtpPacket → MediaBridge Session → Output → Type 0
  Carries leg pkt s (raw_packet p ep) =
      (s.transcode_session ≡ none)
      × ((side (opposite leg) s).dest ≡ some ep)
      × (p.payload ≡ pkt.payload)
      × (p.is_marked ≡ pkt.is_marked)
  Carries leg pkt s (dtmf_packet pt payload marked ep) =
      ((side (opposite leg) s).dtmf_pt ≡ some pt)
      × ((side (opposite leg) s).dest ≡ some ep)
      × (payload ≡ pkt.payload)
      × (marked ≡ pkt.is_marked)
  Carries leg pkt s (audio_packet encoded delta ep) =
      (session : Session) × (s.transcode_session ≡ some session)
      × ((side (opposite leg) s).dest ≡ some ep)
      × (transcode session leg pkt.payload ≡ some (encoded, delta))
  Carries leg pkt s (reported _ _) = ⊥

  -- A packet is forwarded only if its source leg may send and the other leg may receive; it counts as
  -- media at that time, and goes to the other leg's endpoint: with its payload and marker where there
  -- is no transcoding session, as a telephone event under the other leg's payload type, or as what the
  -- session makes of its payload.
  pub process_packet_allowed :
      (leg : RelayLeg) (now : ℕ) (pkt : RtpPacket) (s s' : MediaBridge Session) (out : Output)
      → process_packet transcode leg now pkt s ≡ (s', out ∷ [])
      → ((side leg s).flow.can_send ≡ true)
        × ((side (opposite leg) s).flow.can_receive ≡ true)
        × (s'.last_packet_time ≡ now)
        × Carries leg pkt s out
  unfolding process_packet outgoing
  process_packet_allowed leg now pkt s s' (raw_packet p ep) h = by_session s.transcode_session refl
    where
      by_session :
          (session : Option Session)
          → s.transcode_session ≡ session
          → ((side leg s).flow.can_send ≡ true)
            × ((side (opposite leg) s).flow.can_receive ≡ true)
            × (s'.last_packet_time ≡ now)
            × Carries leg pkt s (raw_packet p ep)
      by_session none q = ground arith
      by_session (some session) q = absurd (ground arith)
  process_packet_allowed leg now pkt s s' (dtmf_packet pt payload marked ep) h = ground arith
  process_packet_allowed leg now pkt s s' (audio_packet encoded delta ep) h =
      by_session s.transcode_session refl
    where
      by_session :
          (session : Option Session)
          → s.transcode_session ≡ session
          → ((side leg s).flow.can_send ≡ true)
            × ((side (opposite leg) s).flow.can_receive ≡ true)
            × (s'.last_packet_time ≡ now)
            × Carries leg pkt s (audio_packet encoded delta ep)
      by_session none q = absurd (ground arith)
      by_session (some session) q =
          (ground arith, ground arith, ground arith, (session, q, ground arith, ground arith))
  process_packet_allowed leg now pkt s s' (reported _ _) h = absurd (ground arith)

  -- A telephone event of one leg, where the other has an endpoint, never leaves under a payload
  -- type that the other leg did not negotiate: it leaves under that leg's type, or not at all.
  process_packet_dtmf :
      (leg : RelayLeg) (now : ℕ) (pkt : RtpPacket) (s s' : MediaBridge Session) (outs : List Output)
      (ep : Endpoint)
      → (side leg s).dtmf_pt ≡ some pkt.payload_type
      → (side (opposite leg) s).dest ≡ some ep
      → process_packet transcode leg now pkt s ≡ (s', outs)
      → (outs ≡ [])
        ⊎ (pt : ℕ) × ((side (opposite leg) s).dtmf_pt ≡ some pt)
          × ((outs ≡ raw_packet (record pkt { payload_type = pt }) ep ∷ [])
              ⊎ (outs ≡ dtmf_packet pt pkt.payload pkt.is_marked ep ∷ []))
  unfolding process_packet outgoing
  process_packet_dtmf leg now pkt s s' outs ep d e h =
      by_pt (side (opposite leg) s).dtmf_pt refl s.transcode_session refl
    where
      by_pt :
          (pt : Option ℕ)
          → (side (opposite leg) s).dtmf_pt ≡ pt
          → (session : Option Session) → s.transcode_session ≡ session
          → (outs ≡ [])
            ⊎ (pt : ℕ) × ((side (opposite leg) s).dtmf_pt ≡ some pt)
              × ((outs ≡ raw_packet (record pkt { payload_type = pt }) ep ∷ [])
                  ⊎ (outs ≡ dtmf_packet pt pkt.payload pkt.is_marked ep ∷ []))
      by_pt none p session q = inl (ground arith)
      by_pt (some pt) p none q = elim (Bool-cases (relay_allowed leg s)) [
        | inl r ↦ inr (pt, p, inl (ground arith))
        | inr r ↦ inl (ground arith)
      ]
      by_pt (some pt) p (some session) q = elim (Bool-cases (relay_allowed leg s)) [
        | inl r ↦ inr (pt, p, inr (ground arith))
        | inr r ↦ inl (ground arith)
      ]
