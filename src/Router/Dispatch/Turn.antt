-- ===== src/Router/Dispatch/Turn.antt =====
-- What a turn of the loop leaves.
use sbc.Base.{
  some, ℕ, String, Bool, if◌then◌else◌, List, [], ◌∷◌, ◌≡◌, ◌∙◌, refl, arith, Option-cases, inl,
  inr,
}
use sbc.Base.Assoc.{lookup, insert}
use sbc.Base.Int.{ℤ, pos, leb_ℤ}
use sbc.Sm.Machine.{Ends}
use sbc.Sm.Dialog.{call_replaced}
use sbc.Call.Manager.{
  CallOps, CallManager, schedule_remove, update, terminate_replaced_session, terminate_each,
  process_pending_replacements, purge_scheduled, process_pending_rtp_inactivity,
  process_pending_hold_timeouts,
}
use sbc.Router.Dispatch.{process_pending_media_events}

module _ {C : Type 0} (ops : CallOps C) where
  schedule_remove-pending :
      (id : String) (m : CallManager C)
      → (schedule_remove id m).pending_replacements ≡ m.pending_replacements
  unfolding schedule_remove
  schedule_remove-pending id m = ground arith

  update-pending :
      (id : String) (c : C) (m : CallManager C)
      → (update ops id c m).pending_replacements ≡ m.pending_replacements
  unfolding update
  update-pending id c m =
      ground (arith, schedule_remove-pending id (record m { sessions = insert id c m.sessions }))

  terminate_replaced_session-pending :
      (id : String) (is_uac : Bool) (m : CallManager C)
      → (terminate_replaced_session ops id is_uac m).pending_replacements ≡ m.pending_replacements
  unfolding terminate_replaced_session
  terminate_replaced_session-pending id is_uac m = elim (Option-cases (lookup id m.sessions)) [
    | inl e ↦ ground arith
    | inr (c, e) ↦ ground (
      arith,
      update-pending id (ops.cancel_setup c) m,
      update-pending id (ops.end_dialog call_replaced c) m,
    )
  ]

  terminate_each-pending :
      (q : List (String × Bool)) (m : CallManager C)
      → (terminate_each ops q m).pending_replacements ≡ m.pending_replacements
  terminate_each-pending [] m = refl
  terminate_each-pending ((id, is_uac) ∷ q) m =
      terminate_each-pending q (terminate_replaced_session ops id is_uac m)
      ∙ terminate_replaced_session-pending id is_uac m

  replacements-pending :
      (m : CallManager C) → (process_pending_replacements ops m).pending_replacements ≡ []
  unfolding process_pending_replacements
  replacements-pending m =
      terminate_each-pending m.pending_replacements (record m { pending_replacements = [] })

-- After a turn of the loop whose scan for inactive calls is defined, no replaced call waits for its
-- end and no removed call for its purge.
turn_leaves_nothing :
    {C R : Type 0}
    → (ops : CallOps C) (sweep : R → R) (now : ℕ) (max_hold_duration_s : ℤ)
      (m inactive : CallManager C) (r : R)
    → process_pending_rtp_inactivity ops now m ≡ some inactive
    → Ends
        (λ x. (x.0.pending_replacements ≡ []) × (x.0.retired_sessions ≡ []))
        (process_pending_media_events ops sweep now max_hold_duration_s (m, r))
unfolding process_pending_media_events purge_scheduled
turn_leaves_nothing ops sweep now max_hold_duration_s m inactive r h = ground (
  arith,
  replacements-pending ops (
      if leb_ℤ (pos 1) max_hold_duration_s
      then process_pending_hold_timeouts ops inactive
      else inactive),
)
