-- ===== src/Call/Manager/Removal.antt =====
-- Between the removal of a call and the next purge.
use sbc.Base.{
  ℕ, ◌+◌, String, Bool, true, false, none, some, List, [], ◌∷◌, Option, ◌≡◌, ◌∙◌, refl, arith, any,
  Option-cases, inl, inr,
}
use sbc.Base.Assoc.{lookup, insert, IsMap, insert-IsMap}
use sbc.Sm.Types.{engine_requested, hold_timeout, rtp_inactivity}
use sbc.Sm.Dialog.{is_ending, DialogEvent, call_replaced, call_error, call_ended}
use sbc.Call.InactivityTimer.{run_pending_scan}
use sbc.Sm.Machine.{Ends, Ends-map}
use sbc.Call.Manager.Existing.{
  existing, weight, Keeps, schedule_remove-Keeps, count-insert_new, count-insert_same,
}
use sbc.Call.Manager.{
  CallOps, CallManager, keys, create_session, queue_replaced_session, schedule_remove, update,
  visit, scan, visit_each, visit_at, visit_all, range_for, bind, terminate_replaced_session,
  terminate_each, is_inactive, is_held_too_long, process_pending_rtp_inactivity,
  process_pending_replacements, process_pending_hold_timeouts, terminate_established_calls,
  ManagerOp, creates, queues, replaces, removes, ends_inactive, ends_held, terminates, purges,
  manager_step, manager_run,
}

Ends-then :
    {A B : Type 0} (P : A → Type 0) (Q : B → Type 0) (o : Option A) (f : A → Option B)
    → Ends P o
    → ((a : A) → P a → Ends Q (f a))
    → Ends Q (bind o f)
Ends-then P Q none f h k = h
Ends-then P Q (some a) f h k = k a h

module _ {C : Type 0} (p : C → Bool) where
  -- How many calls with the trait an operation adds.
  abbrev pub born : ManagerOp C → CallManager C → ℕ
  born (creates id new) m = elim (lookup id m.sessions) [ none ↦ weight p new | some _ ↦ 0 ]
  born _ m = 0

  abbrev pub is_purge : ManagerOp C → Bool
  is_purge purges = true
  is_purge _ = false

  abbrev pub Grows : ℕ → CallManager C → CallManager C → Type 0
  Grows n m m' = IsMap m'.sessions × (existing p m' ≡ existing p m + n)

module _ {C : Type 0} (ops : CallOps C) (p : C → Bool) where
  -- How many a run adds.
  abbrev pub born_in : List (ManagerOp C) → CallManager C → ℕ
  born_in [] m = 0
  born_in (op ∷ es) m =
      born p op m + elim (manager_step ops op m) [ none ↦ 0 | some m' ↦ born_in es m' ]

-- A trait that the events of the two machines leave alone; and a dialog that can terminate does not
-- ask for its call's removal as soon as it is told to end, which is `told_to_end` of
-- DialogCall.Hangup.
module _ {C : Type 0} (ops : CallOps C) (p : C → Bool)
    (ended : (e : DialogEvent) (c : C) → p (ops.end_dialog e c) ≡ p c)
    (cancelled : (c : C) → p (ops.cancel_setup c) ≡ p c)
    (stays : (e : DialogEvent) (c : C)
      → is_ending e ≡ true
      → ops.can_terminate c ≡ true
      → ops.wants_removal (ops.end_dialog e c) ≡ false) where
  update-Keeps :
      (id : String) (old c : C) (m : CallManager C)
      → IsMap m.sessions
      → lookup id m.sessions ≡ some old
      → p c ≡ p old
      → Keeps p m (update ops id c m)
  unfolding update
  update-Keeps id old c m h e s =
      let m' : CallManager C = record m { sessions = insert id c m.sessions } in
      let i = insert-IsMap id c m.sessions h in
      ground
        (arith, i, count-insert_same p id old c m.sessions e s, schedule_remove-Keeps p id m' i)

  visit-Keeps :
      (is_due : C → Bool) (e : DialogEvent) (id : String) (m : CallManager C)
      → IsMap m.sessions
      → Keeps p m (visit ops is_due e id m)
  unfolding visit
  visit-Keeps is_due e id m h = elim (Option-cases (lookup id m.sessions)) [
    | inl f ↦ ground arith
    | inr (c, f) ↦ ground (arith, update-Keeps id c (ops.end_dialog e c) m h f (ended e c))
  ]

  visit_each-Keeps :
      (is_due : C → Bool) (e : DialogEvent) (ids : List String) (m : CallManager C)
      → IsMap m.sessions
      → Keeps p m (visit_each ops is_due e ids m)
  visit_each-Keeps is_due e [] m h = (h, refl)
  visit_each-Keeps is_due e (id ∷ ids) m h =
      let k = visit-Keeps is_due e id m h in
      let q = visit_each-Keeps is_due e ids (visit ops is_due e id m) k.0 in (q.0, q.1 ∙ k.1)

  module _ (is_due : C → Bool) (able : (c : C) → is_due c ≡ true → ops.can_terminate c ≡ true) where
    visit_at-Keeps :
        (e : DialogEvent) (id : String) (m : CallManager C)
        → is_ending e ≡ true
        → IsMap m.sessions
        → Ends (Keeps p m) (visit_at ops is_due e id m)
    unfolding visit_at
    visit_at-Keeps e id m i h = elim (Option-cases (lookup id m.sessions)) [
      | inl f ↦ ground arith
      | inr (c, f) ↦ ground (
        arith,
        λ (d : is_due c ≡ true). stays e c i (able c d),
        update-Keeps id c (ops.end_dialog e c) m h f (ended e c),
      )
    ]

    visit_all-Keeps :
        (e : DialogEvent) (ids : List String) (m : CallManager C)
        → is_ending e ≡ true
        → IsMap m.sessions
        → Ends (Keeps p m) (visit_all ops is_due e ids m)
    visit_all-Keeps e [] m i h = (h, refl)
    visit_all-Keeps e (id ∷ ids) m i h =
        Ends-then (Keeps p m) (Keeps p m) (visit_at ops is_due e id m) (visit_all ops is_due e ids)
          (visit_at-Keeps e id m i h)
          (λ n k.
            Ends-map (Keeps p n) (Keeps p m) (visit_all ops is_due e ids n)
              (visit_all-Keeps e ids n i k.0) (λ o q. (q.0, q.1 ∙ k.1)))

  terminate_replaced_session-Keeps :
      (id : String) (is_uac : Bool) (m : CallManager C)
      → IsMap m.sessions
      → Keeps p m (terminate_replaced_session ops id is_uac m)
  unfolding terminate_replaced_session
  terminate_replaced_session-Keeps id is_uac m h = elim (Option-cases (lookup id m.sessions)) [
    | inl f ↦ ground arith
    | inr (c, f) ↦ ground (
      arith,
      update-Keeps id c (ops.end_dialog call_replaced c) m h f (ended call_replaced c),
      update-Keeps id c (ops.cancel_setup c) m h f (cancelled c),
    )
  ]

  terminate_each-Keeps :
      (q : List (String × Bool)) (m : CallManager C)
      → IsMap m.sessions
      → Keeps p m (terminate_each ops q m)
  terminate_each-Keeps [] m h = (h, refl)
  terminate_each-Keeps ((id, is_uac) ∷ q) m h =
      let k = terminate_replaced_session-Keeps id is_uac m h in
      let r = terminate_each-Keeps q (terminate_replaced_session ops id is_uac m) k.0 in
      (r.0, r.1 ∙ k.1)

  is_inactive-able :
      (now interval : ℕ) (c : C)
      → is_inactive ops now interval c ≡ true
      → ops.can_terminate c ≡ true
  is_inactive-able now interval c h = ground arith

  process_pending_rtp_inactivity-Keeps :
      (now : ℕ) (m : CallManager C)
      → IsMap m.sessions
      → Ends (Keeps p m) (process_pending_rtp_inactivity ops now m)
  unfolding process_pending_rtp_inactivity range_for run_pending_scan
  process_pending_rtp_inactivity-Keeps now m h = elim (Option-cases m.rtp_inactivity_timer) [
    | inl e ↦ ground arith
    | inr (t, e) ↦
        let m' : CallManager C = record m { rtp_inactivity_timer = some (run_pending_scan t).1 } in
        ground (
          arith,
          visit_all-Keeps (is_inactive ops now t.interval) (is_inactive-able now t.interval)
              (call_ended rtp_inactivity) (keys m.sessions) m' refl h,
        )
  ]

  terminate_established_calls-Keeps :
      (m : CallManager C) → IsMap m.sessions → Ends (Keeps p m) (terminate_established_calls ops m)
  unfolding terminate_established_calls range_for
  terminate_established_calls-Keeps m h =
      Ends-then (Keeps p m) (Keeps p m)
        (visit_all ops ops.can_terminate (call_error engine_requested) (keys m.sessions) m)
        (λ m'. some (record m' { rtp_inactivity_timer = none }))
        (visit_all-Keeps ops.can_terminate (λ c d. d) (call_error engine_requested)
          (keys m.sessions) m refl h)
        (λ n k. k)

  create_session-Grows :
      (id : String) (new : C) (m : CallManager C)
      → IsMap m.sessions
      → Grows p (born p (creates id new) m) m (create_session id new m).1
  unfolding create_session
  create_session-Grows id new m h = elim (Option-cases (lookup id m.sessions)) [
    | inl e ↦
        ground (arith, insert-IsMap id new m.sessions h, count-insert_new p id new m.sessions e)
    | inr (c, e) ↦ ground arith
  ]

  Keeps-Grows : (m m' : CallManager C) → Keeps p m m' → Grows p 0 m m'
  Keeps-Grows m m' k = (k.0, omega (arith, k.1))

  step-Grows :
      (op : ManagerOp C) (m : CallManager C)
      → IsMap m.sessions
      → is_purge p op ≡ false
      → Ends (Grows p (born p op m) m) (manager_step ops op m)
  unfolding manager_step queue_replaced_session process_pending_replacements
      process_pending_hold_timeouts scan
  step-Grows (creates id new) m h k = create_session-Grows id new m h
  step-Grows (queues id is_uac) m h k = ground arith
  step-Grows replaces m h k =
      Keeps-Grows m (process_pending_replacements ops m)
        (terminate_each-Keeps m.pending_replacements (record m { pending_replacements = [] }) h)
  step-Grows (removes id) m h k =
      Keeps-Grows m (schedule_remove id m) (schedule_remove-Keeps p id m h)
  step-Grows (ends_inactive now) m h k =
      Ends-map (Keeps p m) (Grows p 0 m) (process_pending_rtp_inactivity ops now m)
        (process_pending_rtp_inactivity-Keeps now m h) (Keeps-Grows m)
  step-Grows ends_held m h k =
      Keeps-Grows m (process_pending_hold_timeouts ops m)
        (visit_each-Keeps (is_held_too_long ops) (call_ended hold_timeout) (keys m.sessions) m h)
  step-Grows terminates m h k =
      Ends-map (Keeps p m) (Grows p 0 m) (terminate_established_calls ops m)
        (terminate_established_calls-Keeps m h) (Keeps-Grows m)
  step-Grows purges m h k = ground arith

  run_on :
      (es : List (ManagerOp C)) (m : CallManager C) (n : ℕ) (o : Option (CallManager C))
      → Ends (Grows p n m) o
      → ((m' : CallManager C)
          → IsMap m'.sessions
          → Ends (Grows p (born_in ops p es m') m') (manager_run ops es m'))
      → Ends
          (Grows p (n + elim o [ none ↦ 0 | some m' ↦ born_in ops p es m' ]) m)
          (bind o (manager_run ops es))
  run_on es m n none e rest = e
  run_on es m n (some m') e rest =
      Ends-map (Grows p (born_in ops p es m') m') (Grows p (n + born_in ops p es m') m)
        (manager_run ops es m') (rest m' e.0) (λ r g. (g.0, omega (arith, g.1, e.1)))

  -- Only a purge destroys a call. Take any trait of calls that the events of their machines leave
  -- alone, such as being one certain call, and let a dialog that can terminate not ask for the
  -- removal of its call as soon as it is told to end: then any run of the manager's other operations
  -- is defined, no loop's iterator being erased, the calls with the trait in the table and among the
  -- retired are as many as there were and as were created under a new id, and the table has each id
  -- once if it had.
  pub only_purge_destroys :
      (es : List (ManagerOp C)) (m : CallManager C)
      → IsMap m.sessions
      → any (is_purge p) es ≡ false
      → Ends (Grows p (born_in ops p es m) m) (manager_run ops es m)
  only_purge_destroys [] m h k = (h, omega arith)
  only_purge_destroys (op ∷ es) m h k =
      run_on es m (born p op m) (manager_step ops op m) (step-Grows op m h (ground arith))
        (λ n g. only_purge_destroys es n g (ground arith))
