-- ===== src/ControlPlane/OutboundQueue/Fifo.antt =====
-- What the queue of engine/src/control_plane/outbound_queue.cpp promises over any history: the
-- events that must arrive are acknowledged in order, once each, and none is lost.
use sbc.Base.{
  String, ◌≡◌, ◌⊎◌, refl, ◌≤◌, Bool, true, false, not, if◌then◌else◌, List, [], ◌∷◌, ◌++◌, length,
  length-append, keep, arith, sym, ap, ◌∙◌,
}
use mathlib.Core.List.{append-nil, append_assoc}
use sbc.ControlPlane.OutboundQueue.{
  Message, OutboundQueue, push, start_next, complete, abort, purge_best_effort, tail, is_empty,
}

pub data QueueOp : Type 0 where
  pushes : String → Bool → QueueOp
  starts : QueueOp
  completes : QueueOp
  aborts : QueueOp
  purges : QueueOp

unfoldable pub apply : QueueOp → OutboundQueue → OutboundQueue
unfolding push start_next complete abort purge_best_effort
apply (pushes payload best_effort) q = (push payload best_effort q).1
apply starts q = (start_next q).1
apply completes q = complete q
apply aborts q = abort q
apply purges q = purge_best_effort q

-- The events that must arrive: everything but the best-effort ones.
abbrev pub reliable : List Message → List Message
reliable = keep (λ m. not m.best_effort)

-- The queue never exceeds its size, and something is there while a write is in flight.
pub record IsValid (q : OutboundQueue) : Type 0 where
  pub bounded : length q.messages ≤ q.max_size
  pub backed : (q.in_flight ≡ false) ⊎ (is_empty q.messages ≡ false)

length-keep : {A : Type 0} (p : A → Bool) (xs : List A) → length (keep p xs) ≤ length xs
length-keep p [] = omega arith
length-keep p (x ∷ xs) = ground (arith, length-keep p xs)

pub is_empty-append : {A : Type 0} (xs : List A) (y : A) → is_empty (xs ++ y ∷ []) ≡ false
is_empty-append [] y = refl
is_empty-append (x ∷ xs) y = refl

apply-max_size : (op : QueueOp) (q : OutboundQueue) → (apply op q).max_size ≡ q.max_size
unfolding apply
apply-max_size op q = ground arith

tail-le : {A : Type 0} (xs : List A) → length (tail xs) ≤ length xs
tail-le [] = omega arith
tail-le (x ∷ xs) = omega arith

-- Every operation keeps the bound and the message behind a write in flight.
apply-IsValid : (op : QueueOp) (q : OutboundQueue) → IsValid q → IsValid (apply op q)
unfolding apply
apply-IsValid (pushes payload best_effort) q v =
    let m : Message = record { payload = payload; best_effort = best_effort } in
    ground (arith, length-append q.messages (m ∷ []), is_empty-append q.messages m)
apply-IsValid starts q v = ground arith
apply-IsValid completes q v = ground (arith, tail-le q.messages)
apply-IsValid aborts q v = ground arith
apply-IsValid purges q v = purged q.in_flight q.messages refl refl
  where
    purged :
        (b : Bool) (ms : List Message)
        → q.in_flight ≡ b
        → q.messages ≡ ms
        → IsValid (purge_best_effort q)
    purged b [] e f = ground arith
    purged true (m ∷ ms) e f = ground (arith, length-keep (λ x. not x.best_effort) ms)
    purged false (m ∷ ms) e f = ground (arith, length-keep (λ x. not x.best_effort) (m ∷ ms))

-- The reliable events that an operation takes in, and those that it hands over for good.
abbrev pub accepted : QueueOp → OutboundQueue → List Message
accepted (pushes payload best_effort) q =
    if (push payload best_effort q).0
    then reliable (record { payload = payload; best_effort = best_effort } ∷ [])
    else []
accepted _ q = []

abbrev head_of : List Message → List Message
head_of [] = []
head_of (m ∷ ms) = m ∷ []

abbrev pub acknowledged : QueueOp → OutboundQueue → List Message
acknowledged completes q = if q.in_flight then reliable (head_of q.messages) else []
acknowledged _ q = []

abbrev pub run : List QueueOp → OutboundQueue → OutboundQueue
run [] q = q
run (op ∷ ops) q = run ops (apply op q)

abbrev pub all_accepted : List QueueOp → OutboundQueue → List Message
all_accepted [] q = []
all_accepted (op ∷ ops) q = accepted op q ++ all_accepted ops (apply op q)

abbrev pub all_acknowledged : List QueueOp → OutboundQueue → List Message
all_acknowledged [] q = []
all_acknowledged (op ∷ ops) q = acknowledged op q ++ all_acknowledged ops (apply op q)

keep-append :
    {A : Type 0} (p : A → Bool) (xs ys : List A) → keep p (xs ++ ys) ≡ keep p xs ++ keep p ys
keep-append p [] ys = refl
keep-append p (x ∷ xs) ys = ground (arith, keep-append p xs ys)

pub keep-keep : {A : Type 0} (p : A → Bool) (xs : List A) → keep p (keep p xs) ≡ keep p xs
keep-keep p [] = refl
keep-keep p (x ∷ xs) = ground (arith, keep-keep p xs)

-- One operation: what was there and what comes in is what is handed over and what stays.
pub apply-conserves :
    (op : QueueOp) (q : OutboundQueue)
    → acknowledged op q ++ reliable (apply op q).messages ≡ reliable q.messages ++ accepted op q
unfolding apply push
apply-conserves (pushes payload best_effort) q =
    let m : Message = record { payload = payload; best_effort = best_effort } in
    ground (
      arith,
      keep-append (λ x. not x.best_effort) q.messages (m ∷ []),
      append-nil (reliable q.messages),
    )
apply-conserves starts q = ground (arith, append-nil (reliable q.messages))
apply-conserves completes q = done q.messages refl
  where
    done :
        (ms : List Message)
        → q.messages ≡ ms
        → acknowledged completes q ++ reliable (complete q).messages ≡ reliable q.messages ++ []
    done [] e = ground arith
    done (m ∷ ms) e = ground (arith, append-nil (reliable q.messages))
apply-conserves aborts q = ground (arith, append-nil (reliable q.messages))
apply-conserves purges q = purged q.in_flight q.messages refl refl
  where
    purged :
        (b : Bool) (ms : List Message)
        → q.in_flight ≡ b
        → q.messages ≡ ms
        → reliable (purge_best_effort q).messages ≡ reliable q.messages ++ []
    purged b [] e f = ground arith
    purged true (m ∷ ms) e f =
        ground (arith, append-nil (reliable q.messages), keep-keep (λ x. not x.best_effort) ms)
    purged false (m ∷ ms) e f =
        ground
          (arith, append-nil (reliable q.messages), keep-keep (λ x. not x.best_effort) (m ∷ ms))

-- Over any history, the reliable events that were held and accepted are, in order, the ones
-- acknowledged followed by the ones still queued.
run-conserves :
    (ops : List QueueOp) (q : OutboundQueue)
    → all_acknowledged ops q ++ reliable (run ops q).messages
      ≡ reliable q.messages ++ all_accepted ops q
run-conserves [] q = sym (append-nil _)
run-conserves (op ∷ ops) q =
    append_assoc (acknowledged op q) (all_acknowledged ops (apply op q)) _
    ∙ ap (λ (l : List Message). acknowledged op q ++ l) (run-conserves ops (apply op q))
    ∙ sym (append_assoc (acknowledged op q) (reliable (apply op q).messages) _)
    ∙ ap (λ (l : List Message). l ++ all_accepted ops (apply op q)) (apply-conserves op q)
    ∙ append_assoc (reliable q.messages) (accepted op q) _
