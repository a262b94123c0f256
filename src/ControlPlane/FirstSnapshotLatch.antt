-- ===== src/ControlPlane/FirstSnapshotLatch.antt =====
-- The one-shot startup gate: engine/src/control_plane/first_snapshot_latch.hpp and .cpp.
use sbc.Base.{
  ◌∙◌, String, ◌≡◌, ◌⊎◌, Bool, true, false, if◌then◌else◌, List, [], ◌∷◌, ◌++◌, arith, refl,
}

-- `VoidResult`: nothing, or an error with its text.
pub data VoidResult : Type 0 where
  success : VoidResult
  unexpected : String → VoidResult

-- `promise` holds the values that `set_value` was called with, in order.
pub record FirstSnapshotLatch : Type 0 where
  pub resolved : Bool
  pub counting : Bool
  pub promise : List VoidResult

unfoldable pub new_latch : FirstSnapshotLatch
new_latch = record { resolved = false; counting = false; promise = [] }

unfoldable pub resolve : VoidResult → FirstSnapshotLatch → FirstSnapshotLatch
resolve result l =
    if l.resolved
    then l
    else record { resolved = true; counting = false; promise = l.promise ++ result ∷ [] }

unfoldable pub arm : FirstSnapshotLatch → FirstSnapshotLatch
arm l = if l.resolved then l else record l { counting = true }

unfoldable pub disarm : FirstSnapshotLatch → FirstSnapshotLatch
disarm l = record l { counting = false }

-- The handler that `arm` leaves with the timer, when the countdown has run out.
unfoldable pub expire : FirstSnapshotLatch → FirstSnapshotLatch
unfolding resolve
expire l =
    if l.counting
    then resolve (unexpected "control plane never sent a valid snapshot")
        (record l { counting = false })
    else l

pub data LatchOp : Type 0 where
  arms disarms expires : LatchOp
  resolves : VoidResult → LatchOp

unfoldable pub apply : LatchOp → FirstSnapshotLatch → FirstSnapshotLatch
unfolding arm disarm expire resolve
apply arms l = arm l
apply disarms l = disarm l
apply expires l = expire l
apply (resolves result) l = resolve result l

abbrev pub run : List LatchOp → FirstSnapshotLatch → FirstSnapshotLatch
run [] l = l
run (op ∷ ops) l = run ops (apply op l)

-- Open with no value set, or resolved with one value and no countdown.
abbrev IsOneShot : FirstSnapshotLatch → Type 0
IsOneShot l =
    ((l.resolved ≡ false) × (l.promise ≡ []))
    ⊎ ((l.resolved ≡ true) × (l.counting ≡ false) × (r : VoidResult) × (l.promise ≡ r ∷ []))

resolved_stays :
    (op : LatchOp) (l : FirstSnapshotLatch)
    → l.resolved ≡ true
    → l.counting ≡ false
    → apply op l ≡ l
unfolding apply
resolved_stays op l h k = ground arith

resolved_run :
    (ops : List LatchOp) (l : FirstSnapshotLatch)
    → l.resolved ≡ true
    → l.counting ≡ false
    → run ops l ≡ l
resolved_run [] l h k = refl
resolved_run (op ∷ ops) l h k =
    let e : apply op l ≡ l = resolved_stays op l h k in
    resolved_run ops (apply op l) (ground arith) (ground arith) ∙ e

-- The first result wins: once the open gate is resolved with `r`, whatever follows, the value that
-- the waiting thread gets is `r`, it is set once, and no countdown runs.
pub latch_first_wins :
    (r : VoidResult) (ops : List LatchOp) (l : FirstSnapshotLatch)
    → l.resolved ≡ false
    → l.promise ≡ []
    → run (resolves r ∷ ops) l ≡ record { resolved = true; counting = false; promise = r ∷ [] }
unfolding apply
latch_first_wins r ops l h p =
    resolved_run ops (resolve r l) (ground arith) (ground arith) ∙ ground arith
