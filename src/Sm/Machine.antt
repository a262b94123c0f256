-- ===== src/Sm/Machine.antt =====
-- The event processing of engine/src/sip/sm/sm_runner.cpp over the Boost.SML policies it picks:
-- an event is dispatched once, then the events that its actions put on the process queue are
-- dispatched in turn, until the queue is empty.
use sbc.Base.{ℕ, zero, suc, Bool, true, false, Option, none, some, List, [], ◌∷◌, ◌++◌}

-- What a transition does: the next state, the state of the actions, the events put on the queue.
pub record Taken (St Ev S : Type 0) : Type 0 where
  pub state : St
  pub actions : S
  pub posted : List Ev

-- What `process_event` leaves behind, and its result.
pub record Settled (St S : Type 0) : Type 0 where
  pub state : St
  pub actions : S
  pub handled : Bool

-- A transition table; `none` where no row accepts the event.
abbrev pub Table : Type 0 → Type 0 → Type 0 → Type 0
Table St Ev S = St → Ev → S → Option (Taken St Ev S)

module _ {St Ev S : Type 0} (table : Table St Ev S) where
  -- The queue loop; `none` means that the fuel ran out.
  unfoldable pub drain : ℕ → St → S → List Ev → Bool → Option (Settled St S)
  drain fuel st s [] ok = some (record { state = st; actions = s; handled = ok })
  drain zero st s (e ∷ q) ok = none
  drain (suc fuel) st s (e ∷ q) ok = elim (table st e s) [
    | none ↦ drain fuel st s q false
    | some t ↦ drain fuel t.state t.actions (q ++ t.posted) ok
  ]

  unfoldable pub process_event : ℕ → St → Ev → S → Option (Settled St S)
  process_event fuel st e s = elim (table st e s) [
    | none ↦ some (record { state = st; actions = s; handled = false })
    | some t ↦ drain fuel t.state t.actions t.posted true
  ]

  -- Several events in turn, as the owner of a machine dispatches them.
  unfoldable pub run : ℕ → St → S → List Ev → Option (Settled St S)
  unfolding process_event
  run fuel st s [] = some (record { state = st; actions = s; handled = true })
  run fuel st s (e ∷ es) = elim (process_event fuel st e s) [
    | none ↦ none
    | some r ↦ run fuel r.state r.actions es
  ]

-- There is a result, and it satisfies `P`.
abbrev pub Ends : {A : Type 0} → (A → Type 0) → Option A → Type 0
Ends P none = ⊥
Ends P (some a) = P a

pub Ends-bind :
    {A B : Type 0} (P : A → Type 0) (Q : B → Type 0) (o : Option A) (f : A → Option B)
    → Ends P o
    → ((a : A) → P a → Ends Q (f a))
    → Ends Q (elim o [ none ↦ none | some a ↦ f a ])
Ends-bind P Q none f h k = h
Ends-bind P Q (some a) f h k = k a h

pub Ends-map :
    {A : Type 0} (P Q : A → Type 0) (o : Option A) → Ends P o → ((a : A) → P a → Q a) → Ends Q o
Ends-map P Q none h k = h
Ends-map P Q (some a) h k = k a h

module _ {St Ev S : Type 0} (table : Table St Ev S) (fuel : ℕ) (P : St → S → Type 0)
    (step : (st : St) (e : Ev) (s : S)
      → P st s
      → Ends (λ r. P r.state r.actions) (process_event table fuel st e s)) where
  -- What each event keeps, a run of events keeps, and the run has a result.
  pub run-Ends :
      (st : St) (s : S) (es : List Ev)
      → P st s
      → Ends (λ r. P r.state r.actions) (run table fuel st s es)
  unfolding run
  run-Ends st s [] h = h
  run-Ends st s (e ∷ es) h =
      Ends-bind (λ r. P r.state r.actions) _ (process_event table fuel st e s) _ (step st e s h)
        (λ r k. run-Ends r.state r.actions es k)
