-- ===== src/Media/Dtmf.antt =====
-- Rewriting of a telephone event's payload type: engine/src/net/rtp/dtmf_pt_relay.hpp. The packet
-- view of rtp_cpp.hpp is the header fields and the payload that the relay reads.
use sbc.Base.{ℕ, Bool, if◌then◌else◌, ◌==◌, Option, none, some, List}

pub record RtpPacket : Type 0 where
  pub payload_type : ℕ
  pub is_marked : Bool
  pub payload : List ℕ

pub data DtmfRelayOutcome : Type 0 where
  not_dtmf drop_unmapped : DtmfRelayOutcome
  relay : ℕ → DtmfRelayOutcome

-- The outcome with its payload type, and what the packet's bytes say afterwards.
unfoldable pub relay_dtmf_pt : RtpPacket → Option ℕ → Option ℕ → DtmfRelayOutcome × RtpPacket
relay_dtmf_pt pkt none _ = (not_dtmf, pkt)
relay_dtmf_pt pkt (some src_dtmf_pt) none =
    (if pkt.payload_type == src_dtmf_pt then drop_unmapped else not_dtmf, pkt)
relay_dtmf_pt pkt (some src_dtmf_pt) (some out_pt) =
    if pkt.payload_type == src_dtmf_pt
    then (relay out_pt, record pkt { payload_type = out_pt })
    else (not_dtmf, pkt)
