-- ===== src/Call/Session/Hold.antt =====
-- The hold clock of engine/src/sip/call/call_session.cpp.
use sbc.Base.{refl, ℕ, ◌≡◌, ◌⊎◌, true, false, none, List, [], ◌∷◌, arith, not, ◌||◌}
use sbc.Sm.Types.{caller, callee}
use sbc.Media.Bridge.{leg_a, leg_b, opposite, relay_allowed}
use sbc.Call.Session.{
  send_recv, send_only, recv_only, inactive, MediaDirection, can_receive, can_send,
  answer_direction, flow_of, CallSession, media_is_held, is_some, SessionOp, session_step,
  session_run, hold_timeout_expired, rtp_inactivity_expired, starts, updates, commits, answers,
  terminates, redirects,
}

module _ {Session : Type 0} where
  -- The hold clock runs only while the media is held.
  abbrev IsClocked : CallSession Session → Type 0
  IsClocked s = not (is_some s.hold_started_at) || media_is_held s ≡ true

  session_step-IsClocked :
      (op : SessionOp) (s : CallSession Session) → IsClocked s → IsClocked (session_step op s)
  unfolding session_step
  session_step-IsClocked starts s w = ground arith
  session_step-IsClocked updates s w = ground arith
  session_step-IsClocked (commits offer answer) s w = ground arith
  session_step-IsClocked (answers now) s w = ground arith
  session_step-IsClocked (terminates now status reason) s w = ground arith
  session_step-IsClocked (redirects established now caller d) s w = ground arith
  session_step-IsClocked (redirects established now callee d) s w = ground arith

  session_run-IsClocked :
      (ops : List SessionOp) (s : CallSession Session) → IsClocked s → IsClocked (session_run ops s)
  session_run-IsClocked [] s w = w
  session_run-IsClocked (op ∷ ops) s w =
      session_run-IsClocked ops (session_step op s) (session_step-IsClocked op s w)

  -- After any run of the calls from a call whose hold clock does not run, the hold timeout is due only
  -- while the media is held, and then the inactivity timeout is not.
  pub one_timeout_at_most :
      (ops : List SessionOp) (s : CallSession Session) (now timeout : ℕ)
      → s.hold_started_at ≡ none
      → let s' = session_run ops s in
        (hold_timeout_expired now s' ≡ false)
        ⊎ (media_is_held s' ≡ true) × (rtp_inactivity_expired now timeout s' ≡ false)
  unfolding hold_timeout_expired rtp_inactivity_expired
  one_timeout_at_most ops s now timeout e =
      ground (arith, session_run-IsClocked ops s (ground arith))

  -- Media that is not held flows in at least one direction, where the bridge has the flows of the two
  -- legs' directions.
  unheld_media_flows :
      (s : CallSession Session)
      → s.media_bridge.a.flow ≡ flow_of s.caller_leg.media_direction
      → s.media_bridge.b.flow ≡ flow_of s.callee_leg.media_direction
      → media_is_held s ≡ false
      → relay_allowed leg_a s.media_bridge || relay_allowed leg_b s.media_bridge ≡ true
  unfolding media_is_held relay_allowed opposite flow_of can_send can_receive
  unheld_media_flows s a b h = ground arith

-- An answer's direction lets a side send exactly what the offer's lets the other side receive.
pub answer_direction_mirrors :
    (d : MediaDirection)
    → (can_send (answer_direction d) ≡ can_receive d)
      × (can_receive (answer_direction d) ≡ can_send d)
      × (answer_direction (answer_direction d) ≡ d)
unfolding answer_direction can_send can_receive
answer_direction_mirrors send_recv = (refl, refl, refl)
answer_direction_mirrors send_only = (refl, refl, refl)
answer_direction_mirrors recv_only = (refl, refl, refl)
answer_direction_mirrors inactive = (refl, refl, refl)
