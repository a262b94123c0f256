-- ===== src/Call/Manager/Scan.antt =====
-- What a scan over the calls does to each of them.
use sbc.Base.{
  String, Bool, false, if◌then◌else◌, Option, none, some, List, [], ◌∷◌, any, str_eq, eq_iff, ◌≡◌,
  refl, arith, Option-cases, inl, inr,
}
use sbc.Base.Assoc.{lookup, insert, lookup-insert, lookup-erase, IsMap}
use sbc.Sm.Dialog.{DialogEvent, call_ended}
use sbc.Sm.Types.{hold_timeout}
use sbc.Call.Manager.{
  CallOps, CallManager, keys, schedule_remove, update, visit, visit_each, scan, is_held_too_long,
  process_pending_hold_timeouts,
}

abbrev listed : String → List String → Bool
listed j ids = any (λ i. str_eq i j) ids

-- No id twice.
abbrev Distinct : List String → Type 0
Distinct [] = Unit {0}
Distinct (i ∷ ids) = (listed i ids ≡ false) × Distinct ids

module _ {C : Type 0} where
  listed-keys : (j : String) (m : List (String × C)) → lookup j m ≡ none → listed j (keys m) ≡ false
  listed-keys j [] h = refl
  listed-keys j ((i, c) ∷ m) h = ground (arith, λ (k : lookup j m ≡ none). listed-keys j m k)

  unlisted-lookup :
      (j : String) (m : List (String × C)) → listed j (keys m) ≡ false → lookup j m ≡ none
  unlisted-lookup j [] h = refl
  unlisted-lookup j ((i, c) ∷ m) h =
      ground (arith, λ (k : listed j (keys m) ≡ false). unlisted-lookup j m k)

  keys-Distinct : (m : List (String × C)) → IsMap m → Distinct (keys m)
  keys-Distinct [] h = tt
  keys-Distinct ((i, c) ∷ m) h = (listed-keys i m h.0, keys-Distinct m h.1)

  lookup-schedule_remove :
      (i j : String) (m : CallManager C)
      → lookup j (schedule_remove i m).sessions ≡ (if str_eq i j then none else lookup j m.sessions)
  unfolding schedule_remove
  lookup-schedule_remove i j m = elim (Option-cases (lookup i m.sessions)) [
    | inl f ↦ ground (arith, eq_iff i j)
    | inr (c, f) ↦ ground (arith, lookup-erase i j m.sessions)
  ]

module _ {C : Type 0} (ops : CallOps C) where
  lookup-update :
      (i j : String) (c : C) (m : CallManager C)
      → lookup j (update ops i c m).sessions ≡ (
          if str_eq i j
          then (if ops.wants_removal c then none else some c)
          else lookup j m.sessions)
  unfolding update
  lookup-update i j c m =
      let m' : CallManager C = record m { sessions = insert i c m.sessions } in
      ground (arith, lookup-insert i j c m.sessions, lookup-schedule_remove i j m')

module _ {C : Type 0} (ops : CallOps C) (is_due : C → Bool) (e : DialogEvent) where
  -- What becomes of a call that the scan meets.
  abbrev pub visited : Option C → Option C
  visited none = none
  visited (some c) =
      if is_due c
      then (if ops.wants_removal (ops.end_dialog e c) then none else some (ops.end_dialog e c))
      else some c

  lookup-visit :
      (i j : String) (m : CallManager C)
      → lookup j (visit ops is_due e i m).sessions
        ≡ (if str_eq i j then visited (lookup j m.sessions) else lookup j m.sessions)
  unfolding visit
  lookup-visit i j m = elim (Option-cases (lookup i m.sessions)) [
    | inl f ↦ ground (arith, eq_iff i j)
    | inr (c, f) ↦ ground (arith, eq_iff i j, lookup-update ops i j (ops.end_dialog e c) m)
  ]

  lookup-visit_each :
      (ids : List String) (j : String) (m : CallManager C)
      → Distinct ids
      → lookup j (visit_each ops is_due e ids m).sessions
        ≡ (if listed j ids then visited (lookup j m.sessions) else lookup j m.sessions)
  lookup-visit_each [] j m h = refl
  lookup-visit_each (i ∷ ids) j m h =
      ground (
        arith,
        eq_iff i j,
        lookup-visit i j m,
        lookup-visit_each ids j (visit ops is_due e i m) h.1,
      )

  lookup-scan :
      (j : String) (m : CallManager C)
      → IsMap m.sessions
      → lookup j (scan ops is_due e m).sessions ≡ visited (lookup j m.sessions)
  unfolding scan
  lookup-scan j m h = ground (
    arith,
    lookup-visit_each (keys m.sessions) j m (keys-Distinct m.sessions h),
    λ (k : listed j (keys m.sessions) ≡ false). unlisted-lookup j m.sessions k,
  )

-- A scan for hold timeouts meets every call once: an established call whose hold has lasted too
-- long and whose dialog can end gets one event, and is out of the table if it then asked for its
-- removal; every other call is as it was. The table has each id once.
pub lookup-process_pending_hold_timeouts :
    {C : Type 0}
    → (ops : CallOps C) (j : String) (m : CallManager C) → IsMap m.sessions
    → lookup j (process_pending_hold_timeouts ops m).sessions
      ≡ visited ops (is_held_too_long ops) (call_ended hold_timeout) (lookup j m.sessions)
unfolding process_pending_hold_timeouts
lookup-process_pending_hold_timeouts ops j m h =
    lookup-scan ops (is_held_too_long ops) (call_ended hold_timeout) j m h
