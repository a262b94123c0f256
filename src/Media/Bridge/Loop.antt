-- ===== src/Media/Bridge/Loop.antt =====
-- A run of the bridge of engine/src/net/rtp/media_bridge.cpp: calls of the SIP thread, posted tasks
-- and completions, in any order.
use sbc.Base.{ℕ, zero, suc, Option, none, some, List, [], ◌∷◌, ◌++◌}
use sbc.Protocols.{SupportedCodec}
use sbc.Media.Bridge.{
  RelayLeg, Endpoint, LegFlow, LegCodec, Output, Completion, MediaBridge, side, put, set_remote_leg,
  retarget_remote_leg, set_leg_media_flow, reset_inactivity_baseline, start_bridge_loop, close,
  configure_legs, run_task,
}
use sbc.Media.Bridge.Relay.{Received, on_received, on_sent}

pub data BridgeEvent : Type 0 where
  sets_remote retargets : RelayLeg → Endpoint → BridgeEvent
  sets_flow : RelayLeg → LegFlow → BridgeEvent
  configures : LegCodec → LegCodec → BridgeEvent
  starts resets : ℕ → BridgeEvent
  closes runs_task : BridgeEvent
  receives : RelayLeg → ℕ → Received → BridgeEvent
  sends : RelayLeg → Completion → BridgeEvent

module _ {Session : Type 0} (open_session : SupportedCodec → SupportedCodec → Option Session)
    (transcode : Session → RelayLeg → List ℕ → Option (List ℕ × ℕ)) where
  -- `none` for an event that cannot happen: a failed assertion, no posted task, nothing outstanding.
  unfoldable pub bridge_step :
      BridgeEvent → MediaBridge Session → Option (MediaBridge Session × List Output)
  unfolding set_remote_leg retarget_remote_leg set_leg_media_flow configure_legs start_bridge_loop
      reset_inactivity_baseline close run_task on_received on_sent
  bridge_step (sets_remote leg ep) s = elim (set_remote_leg leg ep s) [
    | none ↦ none
    | some s' ↦ some (s', [])
  ]
  bridge_step (retargets leg ep) s = some (retarget_remote_leg leg ep s, [])
  bridge_step (sets_flow leg flow) s = some (set_leg_media_flow leg flow s, [])
  bridge_step (configures a b) s = elim (configure_legs open_session a b s) [
    | none ↦ some (s, [])
    | some s' ↦ some (s', [])
  ]
  bridge_step (starts now) s = some (start_bridge_loop now s, [])
  bridge_step (resets now) s = some (reset_inactivity_baseline now s, [])
  bridge_step closes s = some (close s, [])
  bridge_step runs_task s = elim s.posted [
    | [] ↦ none
    | task ∷ rest ↦ some (run_task task (record s { posted = rest }), [])
  ]
  bridge_step (receives leg now r) s = elim (side leg s).receiving [
    | zero ↦ none
    | suc n ↦
        some (on_received transcode leg now r (put leg (record (side leg s) { receiving = n }) s))
  ]
  bridge_step (sends leg c) s = elim (side leg s).sending [
    | zero ↦ none
    | suc n ↦ some (on_sent transcode leg c (put leg (record (side leg s) { sending = n }) s))
  ]

  abbrev pub bridge_run :
      List BridgeEvent → MediaBridge Session → Option (MediaBridge Session × List Output)
  bridge_run [] s = some (s, [])
  bridge_run (e ∷ es) s = elim (bridge_step e s) [
    | none ↦ none
    | some (s', out) ↦ elim (bridge_run es s') [
      | none ↦ none
      | some (last, outs) ↦ some (last, out ++ outs)
    ]
  ]
