-- ===== src/Tests/Relays.antt =====
-- A bridge of engine/src/net/rtp/media_bridge.cpp between two phones.
use sbc.Base.{ℕ, ◌≡◌, refl, true, false, Option, none, some, List, [], ◌∷◌}
use sbc.Protocols.{SupportedCodec}
use sbc.Media.Dtmf.{RtpPacket}
use sbc.Media.Bridge.{
  Output, RelayLeg, leg_a, leg_b, Endpoint, Side, raw_packet, MediaBridge, new_bridge, opposite,
}
use sbc.Media.Bridge.Relay.{outgoing, process_packet, packet}
use sbc.Media.Bridge.Loop.{
  BridgeEvent, bridge_step, bridge_run, sets_remote, retargets, starts, runs_task, receives,
}
use sbc.Media.Bridge.Chains.{IsWell, bridge_run-IsWell}
use sbc.Media.Bridge.Flow.{Carries, process_packet_allowed}

-- A session that opens for any two codecs, and keeps a payload's first byte.
abbrev no_session : SupportedCodec → SupportedCodec → Option ℕ
no_session a b = some 0

abbrev halve : ℕ → RelayLeg → List ℕ → Option (List ℕ × ℕ)
halve session leg [] = none
halve session leg (x ∷ xs) = some (x ∷ [], 160)

abbrev phone_a : Endpoint
phone_a = record { address = "192.0.2.1"; port = 4000 }

abbrev phone_b : Endpoint
phone_b = record { address = "192.0.2.2"; port = 4002 }

abbrev tone : RtpPacket
tone = record { payload_type = 101; is_marked = true; payload = 5 ∷ 10 ∷ [] }

abbrev side_of : Endpoint → ℕ → Side
side_of ep pt = record {
  dest = some ep;
  flow = record { can_send = true; can_receive = true };
  dtmf_pt = some pt;
  rx_armed = true;
  receiving = 1;
  sending = 0;
}

abbrev running : MediaBridge ℕ
running = record {
  a = side_of phone_a 101;
  b = side_of phone_b 96;
  last_packet_time = 3;
  transcode_session = none;
  closing = false;
  loop_start_requested = true;
  loop_started = true;
  posted = [];
}

abbrev relayed : RtpPacket
relayed = record tone { payload_type = 96 }

abbrev busy : MediaBridge ℕ
busy = record running { a = record (side_of phone_a 101) { sending = 1 }; last_packet_time = 7 }

-- The tone leaves under the other leg's payload type.
relays_tone : process_packet halve leg_a 7 tone running ≡ (busy, raw_packet relayed phone_b ∷ [])
unfolding process_packet outgoing
relays_tone = refl

process_packet_allowed_example :
    (running.a.flow.can_send ≡ true)
    × (running.b.flow.can_receive ≡ true)
    × (busy.last_packet_time ≡ 7)
    × Carries halve leg_a tone running (raw_packet relayed phone_b)
unfolding opposite
process_packet_allowed_example =
    process_packet_allowed halve leg_a 7 tone running busy (raw_packet relayed phone_b) relays_tone

abbrev closing_bridge : MediaBridge ℕ
closing_bridge = record running { closing = true }

abbrev closed_bridge : MediaBridge ℕ
closed_bridge = record closing_bridge { a = record (side_of phone_a 101) { receiving = 0 } }

abbrev no_output : List Output
no_output = []

-- The loop is asked for before the second phone's endpoint is known, and a packet is relayed.
abbrev early_start : List BridgeEvent
early_start =
    sets_remote leg_a phone_a
    ∷ starts 1
    ∷ runs_task
    ∷ retargets leg_b phone_b
    ∷ runs_task
    ∷ receives leg_a 2 (packet tone)
    ∷ []

abbrev started_bridge : MediaBridge ℕ
started_bridge = record {
  a = record {
    dest = some phone_a;
    flow = record { can_send = true; can_receive = true };
    dtmf_pt = none;
    rx_armed = true;
    receiving = 0;
    sending = 1;
  };
  b = record {
    dest = some phone_b;
    flow = record { can_send = true; can_receive = true };
    dtmf_pt = none;
    rx_armed = true;
    receiving = 1;
    sending = 0;
  };
  last_packet_time = 2;
  transcode_session = none;
  closing = false;
  loop_start_requested = true;
  loop_started = true;
  posted = [];
}

early_start_runs :
    bridge_run no_session halve early_start (new_bridge 0)
    ≡ some (started_bridge, raw_packet tone phone_b ∷ [])
unfolding bridge_step new_bridge outgoing
early_start_runs = refl

new_bridge-IsWell : IsWell {Session = ℕ} (new_bridge 0)
unfolding new_bridge
new_bridge-IsWell = (refl, refl, refl)

bridge_run-IsWell_example : IsWell started_bridge
bridge_run-IsWell_example =
    bridge_run-IsWell no_session halve early_start (new_bridge 0) started_bridge
      (raw_packet tone phone_b ∷ []) new_bridge-IsWell early_start_runs
