-- ===== src/Media/Bridge/Chains.antt =====
-- The receive loops of engine/src/net/rtp/media_bridge.cpp: when a direction is armed, and how many
-- operations it has outstanding.
use mathlib.Core.Path.{subst}
use sbc.Base.{
  any-snoc, Bool-cases, sym, ℕ, zero, suc, ◌+◌, ◌≡◌, ◌⊎◌, inl, inr, refl, Bool, true, false, ◌&&◌,
  ◌||◌, not, if◌then◌else◌, leb, ◌==◌, Option, none, some, List, [], ◌∷◌, any, arith,
}
use sbc.Protocols.{SupportedCodec}
use sbc.Media.Dtmf.{RtpPacket}
use sbc.Media.Bridge.{
  RelayLeg, leg_a, leg_b, Endpoint, Side, Task, retarget, set_flow, swap_legs, shut, start_loop,
  Output, Completion, done, aborted, failed, MediaBridge, side, put, listen, run_task,
}
use sbc.Media.Bridge.Relay.{
  Received, packet, receive_aborted, receive_failed, on_received, on_sent, sent, process_packet,
}
use sbc.Media.Bridge.Loop.{
  BridgeEvent, sets_remote, retargets, sets_flow, configures, starts, resets, closes, runs_task,
  receives, sends, bridge_step, bridge_run,
}

abbrev pub is_start : {Session : Type 0} → Task Session → Bool
is_start start_loop = true
is_start _ = false

abbrev known : Option Endpoint → Bool
known none = false
known (some _) = true

-- One direction: it is armed as soon as the loop runs and its destination is known, and has at most
-- one receive or send outstanding.
abbrev one_chain : Bool → Bool → Side → Side → Bool
one_chain started closing src dst =
    if src.rx_armed
    then leb (src.receiving + src.sending) 1 && started && known dst.dest
    else (src.receiving + src.sending) == 0 && (not started || closing || not (known dst.dest))

module _ {Session : Type 0} where
  abbrev pub IsWell : MediaBridge Session → Type 0
  IsWell s =
      (one_chain s.loop_started s.closing s.a s.b ≡ true)
      × (one_chain s.loop_started s.closing s.b s.a ≡ true)
      × (s.loop_start_requested || not (s.loop_started || any is_start s.posted) ≡ true)

-- A packet ends in one operation of the same direction: the next receive or a send.
abbrev Continued :
    {Session : Type 0} → RelayLeg → MediaBridge Session → MediaBridge Session → Type 0
Continued leg s s' =
    (now : ℕ) × ((s' ≡ listen leg (record s { last_packet_time = now }))
      ⊎ (s' ≡ sent leg (record s { last_packet_time = now })))

module _ {Session : Type 0} (open_session : SupportedCodec → SupportedCodec → Option Session)
    (transcode : Session → RelayLeg → List ℕ → Option (List ℕ × ℕ)) where
  run_task-IsWell :
      (task : Task Session) (rest : List (Task Session)) (s : MediaBridge Session)
      → s.posted ≡ task ∷ rest
      → IsWell s
      → IsWell (run_task task (record s { posted = rest }))
  unfolding run_task
  run_task-IsWell (retarget leg_a ep) rest s e w = ground arith
  run_task-IsWell (retarget leg_b ep) rest s e w = ground arith
  run_task-IsWell (set_flow leg_a f) rest s e w = ground arith
  run_task-IsWell (set_flow leg_b f) rest s e w = ground arith
  run_task-IsWell (swap_legs p q t) rest s e w = ground arith
  run_task-IsWell start_loop rest s e w = ground arith
  run_task-IsWell shut rest s e w = ground arith

  process_packet_ends :
      (leg : RelayLeg) (now : ℕ) (pkt : RtpPacket) (s : MediaBridge Session)
      → (s' : MediaBridge Session) → (process_packet transcode leg now pkt s).0 ≡ s'
      → (s' ≡ listen leg s)
        ⊎ (s' ≡ listen leg (record s { last_packet_time = now }))
        ⊎ (s' ≡ sent leg (record s { last_packet_time = now }))
  unfolding process_packet
  process_packet_ends leg now pkt s s' e = ground arith

  process_packet_continues :
      (leg : RelayLeg) (now : ℕ) (pkt : RtpPacket) (s : MediaBridge Session)
      → Continued leg s (process_packet transcode leg now pkt s).0
  process_packet_continues leg now pkt s =
      elim (process_packet_ends leg now pkt s (process_packet transcode leg now pkt s).0 refl) [
        | inl e ↦ (s.last_packet_time, inl e)
        | inr e ↦ (now, e)
      ]

  continue_keeps :
      (leg : RelayLeg) (n m : ℕ) (s s' : MediaBridge Session)
      → IsWell s
      → (side leg s).receiving + (side leg s).sending ≡ suc (n + m)
      → Continued leg (put leg (record (side leg s) { receiving = n; sending = m }) s) s'
      → IsWell s'
  unfolding listen
  continue_keeps leg_a n m s s' w e (now, inl c) = ground arith
  continue_keeps leg_a n m s s' w e (now, inr c) = ground arith
  continue_keeps leg_b n m s s' w e (now, inl c) = ground arith
  continue_keeps leg_b n m s s' w e (now, inr c) = ground arith

  stopped-IsWell :
      (leg : RelayLeg) (n m : ℕ) (s : MediaBridge Session)
      → IsWell s
      → (side leg s).receiving + (side leg s).sending ≡ suc (n + m)
      → IsWell (put leg (record (side leg s) { receiving = n; sending = m }) s)
  stopped-IsWell leg_a n m s w e = ground arith
  stopped-IsWell leg_b n m s w e = ground arith

  on_received_ends :
      (leg : RelayLeg) (now : ℕ) (r : Received) (s s' : MediaBridge Session)
      → (on_received transcode leg now r s).0 ≡ s'
      → (s' ≡ s) ⊎ Continued leg s s'
  unfolding on_received
  on_received_ends leg now (packet pkt) s s' h = by_closing (Bool-cases s.closing)
    where
      by_closing : (s.closing ≡ true) ⊎ (s.closing ≡ false) → (s' ≡ s) ⊎ Continued leg s s'
      by_closing (inl c) = inl (ground arith)
      by_closing (inr c) =
          inr (subst (Continued leg s) (ground arith) (process_packet_continues leg now pkt s))
  on_received_ends leg now receive_aborted s s' h = inl (ground arith)
  on_received_ends leg now receive_failed s s' h = elim (Bool-cases s.closing) [
    | inl c ↦ inl (ground arith)
    | inr c ↦ inr (s.last_packet_time, inl (ground arith))
  ]

  on_sent_ends :
      (leg : RelayLeg) (c : Completion) (s s' : MediaBridge Session)
      → (on_sent transcode leg c s).0 ≡ s'
      → (s' ≡ s) ⊎ Continued leg s s'
  unfolding on_sent
  on_sent_ends leg c s s' h = elim (Bool-cases s.closing) [
    | inl d ↦ inl (ground arith)
    | inr d ↦ by_result c h
  ]
    where
      by_result :
          (c : Completion) → (on_sent transcode leg c s).0 ≡ s' → (s' ≡ s) ⊎ Continued leg s s'
      by_result aborted h = inl (ground arith)
      by_result done h = elim (Bool-cases s.closing) [
        | inl d ↦ inl (ground arith)
        | inr d ↦ inr (s.last_packet_time, inl (ground arith))
      ]
      by_result failed h = elim (Bool-cases s.closing) [
        | inl d ↦ inl (ground arith)
        | inr d ↦ inr (s.last_packet_time, inl (ground arith))
      ]

  completed-IsWell :
      (leg : RelayLeg) (n m : ℕ) (s s' : MediaBridge Session)
      → IsWell s
      → (side leg s).receiving + (side leg s).sending ≡ suc (n + m)
      → let s1 = put leg (record (side leg s) { receiving = n; sending = m }) s in
        (s' ≡ s1) ⊎ Continued leg s1 s' → IsWell s'
  completed-IsWell leg n m s s' w e (inl same) =
      subst IsWell (sym same) (stopped-IsWell leg n m s w e)
  completed-IsWell leg n m s s' w e (inr c) = continue_keeps leg n m s s' w e c

  -- In one step each direction stays as it should be.
  bridge_step-IsWell :
      (e : BridgeEvent) (s s' : MediaBridge Session) (out : List Output)
      → IsWell s
      → bridge_step open_session transcode e s ≡ some (s', out)
      → IsWell s'
  unfolding bridge_step
  bridge_step-IsWell (sets_remote leg_a ep) s s' out w h = ground arith
  bridge_step-IsWell (sets_remote leg_b ep) s s' out w h = ground arith
  bridge_step-IsWell (retargets leg ep) s s' out w h =
      ground (arith, any-snoc is_start s.posted (retarget leg ep))
  bridge_step-IsWell (sets_flow leg flow) s s' out w h =
      ground (arith, any-snoc is_start s.posted (set_flow leg flow))
  bridge_step-IsWell (configures p q) s s' out w h = by_session (open_session p.audio q.audio) refl
    where
      by_session : (session : Option Session) → open_session p.audio q.audio ≡ session → IsWell s'
      by_session session o = ground (
        arith,
        any-snoc is_start s.posted (swap_legs p.dtmf_pt q.dtmf_pt none),
        any-snoc is_start s.posted (swap_legs p.dtmf_pt q.dtmf_pt session),
      )
  bridge_step-IsWell (starts now) s s' out w h =
      ground (arith, any-snoc is_start s.posted start_loop)
  bridge_step-IsWell (resets now) s s' out w h = ground arith
  bridge_step-IsWell closes s s' out w h = ground (arith, any-snoc is_start s.posted shut)
  bridge_step-IsWell runs_task s s' out w h = by_task s.posted refl
    where
      by_task : (ts : List (Task Session)) → s.posted ≡ ts → IsWell s'
      by_task [] p = absurd (ground arith)
      by_task (task ∷ rest) p =
          let same : run_task task (record s { posted = rest }) ≡ s' = ground arith in
          subst IsWell same (run_task-IsWell task rest s p w)
  bridge_step-IsWell (receives leg now r) s s' out w h = by_count (side leg s).receiving refl
    where
      by_count : (n : ℕ) → (side leg s).receiving ≡ n → IsWell s'
      by_count zero p = absurd (ground arith)
      by_count (suc n) p = completed-IsWell leg n (side leg s).sending s s' w (omega arith) (
          on_received_ends leg now r (put leg (record (side leg s) { receiving = n }) s) s'
            (ground arith))
  bridge_step-IsWell (sends leg c) s s' out w h = by_count (side leg s).sending refl
    where
      by_count : (n : ℕ) → (side leg s).sending ≡ n → IsWell s'
      by_count zero p = absurd (ground arith)
      by_count (suc n) p =
          completed-IsWell leg (side leg s).receiving n s s' w (omega arith)
            (on_sent_ends leg c (put leg (record (side leg s) { sending = n }) s) s' (ground arith))

  -- From a bridge where it holds, and whatever the order of calls, tasks and completions that can
  -- happen: a direction that is armed has a started loop, a known destination and at most one
  -- receive or send outstanding; one that is not armed has none outstanding, and its loop has not
  -- started, is closing or has no destination for it.
  pub bridge_run-IsWell :
      (es : List BridgeEvent) (s s' : MediaBridge Session) (out : List Output)
      → IsWell s
      → bridge_run open_session transcode es s ≡ some (s', out)
      → IsWell s'
  bridge_run-IsWell [] s s' out w h = let same : s ≡ s' = ground arith in subst IsWell same w
  bridge_run-IsWell (e ∷ es) s s' out w h =
      by_step (bridge_step open_session transcode e s) refl
        (λ s1 out1 p outs q. bridge_run-IsWell es s1 s' outs (bridge_step-IsWell e s s1 out1 w p) q)
    where
      by_step :
          (r : Option (MediaBridge Session × List Output))
          → bridge_step open_session transcode e s ≡ r
          → ((s1 : MediaBridge Session) (out1 : List Output)
              → bridge_step open_session transcode e s ≡ some (s1, out1)
              → (outs : List Output) → bridge_run open_session transcode es s1 ≡ some (s', outs)
              → IsWell s')
          → IsWell s'
      by_step none p rest = absurd (ground arith)
      by_step (some (s1, out1)) p rest = by_rest (bridge_run open_session transcode es s1) refl
        where
          by_rest :
              (r : Option (MediaBridge Session × List Output))
              → bridge_run open_session transcode es s1 ≡ r
              → IsWell s'
          by_rest none q = absurd (ground arith)
          by_rest (some (last, outs)) q = rest s1 out1 p outs (ground arith)
