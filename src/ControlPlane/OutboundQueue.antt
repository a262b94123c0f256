-- ===== src/ControlPlane/OutboundQueue.antt =====
-- The queue of unacknowledged events: engine/src/control_plane/outbound_queue.hpp and .cpp.
pub mod Fifo
use sbc.Base.{
  ℕ, String, Bool, true, false, not, ◌||◌, if◌then◌else◌, leb, Option, none, some, List, [], ◌∷◌,
  ◌++◌, length, keep,
}

pub record Message : Type 0 where
  pub payload : String
  pub best_effort : Bool

pub record OutboundQueue : Type 0 where
  pub max_size : ℕ
  pub messages : List Message
  pub in_flight : Bool

unfoldable pub new_queue : ℕ → OutboundQueue
new_queue max_size = record { max_size = max_size; messages = []; in_flight = false }

abbrev pub is_empty : {A : Type 0} → List A → Bool
is_empty [] = true
is_empty (x ∷ xs) = false

abbrev pub tail : {A : Type 0} → List A → List A
tail [] = []
tail (x ∷ xs) = xs

abbrev front : List Message → Option String
front [] = none
front (m ∷ ms) = some m.payload

unfoldable pub push : String → Bool → OutboundQueue → Bool × OutboundQueue
push payload best_effort q = if leb q.max_size (length q.messages) then (false, q) else (
  true,
  record q {
    messages = q.messages ++ record { payload = payload; best_effort = best_effort } ∷ [];
  },
)

unfoldable pub empty : OutboundQueue → Bool
empty q = is_empty q.messages

unfoldable pub start_next : OutboundQueue → Option String × OutboundQueue
start_next q =
    if q.in_flight || is_empty q.messages
    then (none, q)
    else (front q.messages, record q { in_flight = true })

-- `pop_front` is reached with a message in flight only, so the list is not empty there.
unfoldable pub complete : OutboundQueue → OutboundQueue
complete q =
    if not q.in_flight then q else record q { messages = tail q.messages; in_flight = false }

unfoldable pub abort : OutboundQueue → OutboundQueue
abort q = record q { in_flight = false }

-- The range that is purged begins behind a message in flight.
abbrev pub purge_from : Bool → List Message → List Message
purge_from in_flight [] = []
purge_from true (m ∷ ms) = m ∷ keep (λ x. not x.best_effort) ms
purge_from false (m ∷ ms) = keep (λ x. not x.best_effort) (m ∷ ms)

unfoldable pub purge_best_effort : OutboundQueue → OutboundQueue
purge_best_effort q = record q { messages = purge_from q.in_flight q.messages }
