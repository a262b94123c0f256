-- ===== src/Call/Manager.antt =====
-- The calls of the engine: engine/src/sip/call/call_manager.cpp. A call is what its interface
-- `CallOps` shows: its two machines and its timeouts. A call that asks for its removal while an
-- event is processed has `wants_removal`. The table is visited in its own order.
pub mod Existing
pub mod Removal
pub mod Scan
use sbc.Base.{
  ℕ, String, Bool, true, false, not, ◌&&◌, ◌||◌, if◌then◌else◌, ◌==◌, Option, none, some, List, [],
  ◌∷◌, ◌++◌, str_eq,
}
use sbc.Base.Assoc.{lookup, insert, erase}
use sbc.Sm.Types.{TerminationReason, engine_requested, hold_timeout, rtp_inactivity}
use sbc.Sm.Dialog.{DialogEvent, call_replaced, call_error, call_ended}
use sbc.Call.InactivityTimer.{RtpInactivityTimer, run_pending_scan}

-- What the manager calls of a call; `now` and the timeout are the arguments of the inactivity test.
pub record CallOps (C : Type 0) : Type 0 where
  pub is_established : C → Bool
  pub can_terminate : C → Bool
  pub rtp_inactivity_expired : ℕ → ℕ → C → Bool
  pub hold_timeout_expired : C → Bool
  pub leg_a_port : C → Option ℕ
  pub leg_b_port : C → Option ℕ
  pub cancel_setup : C → C
  pub end_dialog : DialogEvent → C → C
  pub wants_removal : C → Bool

pub record CallManager (C : Type 0) : Type 0 where
  pub sessions : List (String × C)
  pub retired_sessions : List C
  pub pending_replacements : List (String × Bool)
  pub rtp_inactivity_timer : Option RtpInactivityTimer

-- The manager's operations that change its state; `start_rtp_inactivity_timer` sets the timer first.
pub data ManagerOp (C : Type 0) : Type 0 where
  creates : String → C → ManagerOp C
  queues : String → Bool → ManagerOp C
  removes : String → ManagerOp C
  ends_inactive : ℕ → ManagerOp C
  replaces ends_held terminates purges : ManagerOp C

abbrev pub keys : {C : Type 0} → List (String × C) → List String
keys [] = []
keys ((id, _) ∷ m) = id ∷ keys m

abbrev port_is : ℕ → Option ℕ → Bool
port_is port none = port == 0
port_is port (some p) = p == port

abbrev pub bind : {A B : Type 0} → Option A → (A → Option B) → Option B
bind none f = none
bind (some a) f = f a

module _ {C : Type 0} where
  unfoldable pub create_session : String → C → CallManager C → C × CallManager C
  create_session call_id new m = elim (lookup call_id m.sessions) [
    | some c ↦ (c, m)
    | none ↦ (new, record m { sessions = insert call_id new m.sessions })
  ]

  unfoldable pub find_by_call_id : String → CallManager C → Option C
  find_by_call_id call_id m = lookup call_id m.sessions

  unfoldable pub queue_replaced_session : String → Bool → CallManager C → CallManager C
  queue_replaced_session call_id matched_dialog_is_uac m = record m {
    pending_replacements = m.pending_replacements ++ (call_id, matched_dialog_is_uac) ∷ [];
  }

  unfoldable pub schedule_remove : String → CallManager C → CallManager C
  schedule_remove call_id m = elim (lookup call_id m.sessions) [
    | none ↦ m
    | some c ↦ record m {
      retired_sessions = m.retired_sessions ++ c ∷ [];
      sessions = erase call_id m.sessions;
    }
  ]

  unfoldable pub purge_scheduled : CallManager C → CallManager C
  purge_scheduled m = record m { retired_sessions = [] }

module _ {C : Type 0} (ops : CallOps C) where
  -- The first session, other than `except`, with a relay socket on the port.
  unfoldable find_by_relay_port : ℕ → String → List (String × C) → Option (String × C)
  find_by_relay_port port except [] = none
  find_by_relay_port port except ((id, c) ∷ m) =
      if not (str_eq id except)
        && (port_is port (ops.leg_a_port c) || port_is port (ops.leg_b_port c))
      then some (id, c)
      else find_by_relay_port port except m

  -- The call after an event, in the table or retired.
  unfoldable pub update : String → C → CallManager C → CallManager C
  unfolding schedule_remove
  update call_id c m =
      let m' : CallManager C = record m { sessions = insert call_id c m.sessions } in
      if ops.wants_removal c then schedule_remove call_id m' else m'

  unfoldable pub terminate_replaced_session : String → Bool → CallManager C → CallManager C
  unfolding update
  terminate_replaced_session call_id matched_dialog_is_uac m = elim (lookup call_id m.sessions) [
    | none ↦ m
    | some c ↦
        if not (ops.is_established c)
        then (if matched_dialog_is_uac then update call_id (ops.cancel_setup c) m else m)
        else if ops.can_terminate c
        then update call_id (ops.end_dialog call_replaced c) m
        else m
  ]

  abbrev pub terminate_each : List (String × Bool) → CallManager C → CallManager C
  terminate_each [] m = m
  terminate_each ((id, is_uac) ∷ q) m = terminate_each q (terminate_replaced_session id is_uac m)

  unfoldable pub process_pending_replacements : CallManager C → CallManager C
  unfolding terminate_replaced_session
  process_pending_replacements m =
      terminate_each m.pending_replacements (record m { pending_replacements = [] })

  -- One call of a scan: it gets the event where it is due.
  unfoldable pub visit : (C → Bool) → DialogEvent → String → CallManager C → CallManager C
  unfolding update
  visit is_due e call_id m = elim (lookup call_id m.sessions) [
    | none ↦ m
    | some c ↦ if is_due c then update call_id (ops.end_dialog e c) m else m
  ]

  abbrev pub visit_each : (C → Bool) → DialogEvent → List String → CallManager C → CallManager C
  visit_each is_due e [] m = m
  visit_each is_due e (id ∷ ids) m = visit_each is_due e ids (visit is_due e id m)

  unfoldable pub scan : (C → Bool) → DialogEvent → CallManager C → CallManager C
  unfolding visit
  scan is_due e m = visit_each is_due e (keys m.sessions) m

  -- One turn of a range-for over the table, for a call at the iterator: where the call is erased the
  -- iterator is invalid, and the loop's behaviour undefined: `none`.
  unfoldable pub visit_at :
      (C → Bool) → DialogEvent → String → CallManager C → Option (CallManager C)
  unfolding update
  visit_at is_due e call_id m = elim (lookup call_id m.sessions) [
    | none ↦ some m
    | some c ↦
        if is_due c
        then (let c' = ops.end_dialog e c in
            if ops.wants_removal c' then none else some (update call_id c' m))
        else some m
  ]

  abbrev pub visit_all :
      (C → Bool) → DialogEvent → List String → CallManager C → Option (CallManager C)
  visit_all is_due e [] m = some m
  visit_all is_due e (id ∷ ids) m = bind (visit_at is_due e id m) (visit_all is_due e ids)

  unfoldable pub range_for : (C → Bool) → DialogEvent → CallManager C → Option (CallManager C)
  unfolding visit_at
  range_for is_due e m = visit_all is_due e (keys m.sessions) m

  abbrev pub is_inactive : ℕ → ℕ → C → Bool
  is_inactive now interval c =
      ops.is_established c && ops.rtp_inactivity_expired now interval c && ops.can_terminate c

  abbrev pub is_held_too_long : C → Bool
  is_held_too_long c = ops.is_established c && ops.hold_timeout_expired c && ops.can_terminate c

  unfoldable pub process_pending_rtp_inactivity : ℕ → CallManager C → Option (CallManager C)
  unfolding range_for run_pending_scan
  process_pending_rtp_inactivity now m = elim m.rtp_inactivity_timer [
    | none ↦ some m
    | some t ↦
        let (due, t') = run_pending_scan t in
        let m' : CallManager C = record m { rtp_inactivity_timer = some t' } in
        if due
        then range_for (is_inactive now t.interval) (call_ended rtp_inactivity) m'
        else some m'
  ]

  unfoldable pub process_pending_hold_timeouts : CallManager C → CallManager C
  unfolding scan
  process_pending_hold_timeouts m = scan is_held_too_long (call_ended hold_timeout) m

  -- The timer is stopped and let go.
  unfoldable pub terminate_established_calls : CallManager C → Option (CallManager C)
  unfolding range_for
  terminate_established_calls m =
      bind (range_for ops.can_terminate (call_error engine_requested) m)
        (λ m'. some (record m' { rtp_inactivity_timer = none }))

  unfoldable pub manager_step : ManagerOp C → CallManager C → Option (CallManager C)
  unfolding create_session queue_replaced_session process_pending_replacements schedule_remove
      process_pending_rtp_inactivity process_pending_hold_timeouts terminate_established_calls
      purge_scheduled
  manager_step (creates id new) m = some (create_session id new m).1
  manager_step (queues id is_uac) m = some (queue_replaced_session id is_uac m)
  manager_step replaces m = some (process_pending_replacements m)
  manager_step (removes id) m = some (schedule_remove id m)
  manager_step (ends_inactive now) m = process_pending_rtp_inactivity now m
  manager_step ends_held m = some (process_pending_hold_timeouts m)
  manager_step terminates m = terminate_established_calls m
  manager_step purges m = some (purge_scheduled m)

  abbrev pub manager_run : List (ManagerOp C) → CallManager C → Option (CallManager C)
  manager_run [] m = some m
  manager_run (op ∷ ops') m = bind (manager_step op m) (manager_run ops')
