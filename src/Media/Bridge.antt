-- ===== src/Media/Bridge.antt =====
-- The relay of one call's packets: engine/src/net/rtp/media_bridge.hpp and .cpp. What the SIP
-- thread asks for is posted to the executor, which runs it in order; a completion of asio is an
-- event. `receiving` and `sending` count what is outstanding at a leg's receiver, and of the sends
-- of the packets it received. `open_session` and `transcode` are the transcoding session's.
pub mod Relay
pub mod Loop
pub mod Chains
pub mod Flow
use sbc.Base.{
  ℕ, suc, ◌+◌, ◌-◌, String, Bool, true, false, ◌&&◌, ◌||◌, not, if◌then◌else◌, ltb, Option, none,
  some, List, [], ◌∷◌, ◌++◌, str_eq,
}
use sbc.Protocols.{SupportedCodec}
use sbc.Media.Dtmf.{RtpPacket, DtmfRelayOutcome, not_dtmf, drop_unmapped, relay, relay_dtmf_pt}

pub data RelayLeg : Type 0 where
  leg_a leg_b : RelayLeg

unfoldable pub opposite : RelayLeg → RelayLeg
opposite leg_a = leg_b
opposite leg_b = leg_a

pub data RelayOp : Type 0 where
  receive send : RelayOp

pub record Endpoint : Type 0 where
  pub address : String
  pub port : ℕ

pub record LegFlow : Type 0 where
  pub can_send : Bool
  pub can_receive : Bool

pub record LegCodec : Type 0 where
  pub audio : SupportedCodec
  pub dtmf_pt : Option ℕ

pub record Side : Type 0 where
  pub dest : Option Endpoint
  pub flow : LegFlow
  pub dtmf_pt : Option ℕ
  pub rx_armed : Bool
  pub receiving : ℕ
  pub sending : ℕ

pub data Task (Session : Type 0) : Type 0 where
  retarget : RelayLeg → Endpoint → Task Session
  set_flow : RelayLeg → LegFlow → Task Session
  swap_legs : Option ℕ → Option ℕ → Option Session → Task Session
  start_loop shut : Task Session

-- What the bridge does to the outside: a send to an endpoint, a call of the error handler.
pub data Output : Type 0 where
  raw_packet : RtpPacket → Endpoint → Output
  dtmf_packet : ℕ → List ℕ → Bool → Endpoint → Output
  audio_packet : List ℕ → ℕ → Endpoint → Output
  reported : RelayLeg → RelayOp → Output

pub data Completion : Type 0 where
  done aborted failed : Completion

pub record MediaBridge (Session : Type 0) : Type 0 where
  pub a : Side
  pub b : Side
  pub last_packet_time : ℕ
  pub transcode_session : Option Session
  pub closing : Bool
  pub loop_start_requested : Bool
  pub loop_started : Bool
  pub posted : List (Task Session)

module _ {Session : Type 0} where
  abbrev pub side : RelayLeg → MediaBridge Session → Side
  side leg_a s = s.a
  side leg_b s = s.b

  abbrev pub put : RelayLeg → Side → MediaBridge Session → MediaBridge Session
  put leg_a x s = record s { a = x }
  put leg_b x s = record s { b = x }

  unfoldable pub new_bridge : ℕ → MediaBridge Session
  new_bridge now =
      let new : Side = record {
        dest = none;
        flow = record { can_send = true; can_receive = true };
        dtmf_pt = none;
        rx_armed = false;
        receiving = 0;
        sending = 0;
      } in
      record {
        a = new;
        b = new;
        last_packet_time = now;
        transcode_session = none;
        closing = false;
        loop_start_requested = false;
        loop_started = false;
        posted = [];
      }

  unfoldable pub relay_allowed : RelayLeg → MediaBridge Session → Bool
  unfolding opposite
  relay_allowed src_leg s =
      (side src_leg s).flow.can_send && (side (opposite src_leg) s).flow.can_receive

  -- One more `async_receive_pkt` on the leg's socket.
  unfoldable pub listen : RelayLeg → MediaBridge Session → MediaBridge Session
  listen leg s = put leg (record (side leg s) { receiving = suc (side leg s).receiving }) s

  abbrev arm_leg : RelayLeg → MediaBridge Session → MediaBridge Session
  arm_leg leg s = elim (side (opposite leg) s).dest [
    | none ↦ s
    | some _ ↦
        if (side leg s).rx_armed
        then s
        else listen leg (put leg (record (side leg s) { rx_armed = true }) s)
  ]

  unfoldable arm_pending_legs : MediaBridge Session → MediaBridge Session
  unfolding opposite listen
  arm_pending_legs s =
      if not s.loop_started || s.closing then s else arm_leg leg_b (arm_leg leg_a s)

  -- The calls of the SIP thread. `set_remote_leg` asserts that the loop was not asked for.
  abbrev post : Task Session → MediaBridge Session → MediaBridge Session
  post task s = record s { posted = s.posted ++ task ∷ [] }

  unfoldable pub set_remote_leg :
      RelayLeg → Endpoint → MediaBridge Session → Option (MediaBridge Session)
  set_remote_leg leg ep s =
      if s.loop_start_requested
      then none
      else some (put leg (record (side leg s) { dest = some ep }) s)

  unfoldable pub retarget_remote_leg :
      RelayLeg → Endpoint → MediaBridge Session → MediaBridge Session
  retarget_remote_leg leg ep s = post (retarget leg ep) s

  unfoldable pub set_leg_media_flow : RelayLeg → LegFlow → MediaBridge Session → MediaBridge Session
  set_leg_media_flow leg flow s = post (set_flow leg flow) s

  unfoldable pub reset_inactivity_baseline : ℕ → MediaBridge Session → MediaBridge Session
  reset_inactivity_baseline now s = record s { last_packet_time = now }

  unfoldable pub start_bridge_loop : ℕ → MediaBridge Session → MediaBridge Session
  start_bridge_loop now s =
      post start_loop (record s { last_packet_time = now; loop_start_requested = true })

  unfoldable pub close : MediaBridge Session → MediaBridge Session
  close s = post shut s

  -- `none` is the error of a session that does not open; nothing is posted then.
  unfoldable pub configure_legs :
      (SupportedCodec → SupportedCodec → Option Session)
      → LegCodec
      → LegCodec
      → MediaBridge Session
      → Option (MediaBridge Session)
  configure_legs open_session a b s =
      if str_eq a.audio.name b.audio.name
      then some (post (swap_legs a.dtmf_pt b.dtmf_pt none) s)
      else elim (open_session a.audio b.audio) [
        | none ↦ none
        | some session ↦ some (post (swap_legs a.dtmf_pt b.dtmf_pt (some session)) s)
      ]

  -- A posted task, on the executor.
  unfoldable pub run_task : Task Session → MediaBridge Session → MediaBridge Session
  unfolding arm_pending_legs
  run_task (retarget leg ep) s =
      arm_pending_legs (put leg (record (side leg s) { dest = some ep }) s)
  run_task (set_flow leg flow) s = put leg (record (side leg s) { flow = flow }) s
  run_task (swap_legs a_pt b_pt session) s = record s {
    a = record s.a { dtmf_pt = a_pt };
    b = record s.b { dtmf_pt = b_pt };
    transcode_session = session;
  }
  run_task start_loop s =
      if s.loop_started || s.closing then s else arm_pending_legs (record s { loop_started = true })
  run_task shut s = record s { closing = true }
