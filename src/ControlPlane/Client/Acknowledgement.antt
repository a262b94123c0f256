-- ===== src/ControlPlane/Client/Acknowledgement.antt =====
-- The acknowledgement timer of engine/src/control_plane/control_plane_client.cpp.
use sbc.Base.{
  ℕ, String, ◌+◌, ◌%◌, ◌^◌, ◌≡◌, ◌≢◌, ◌⊎◌, ◌<◌, refl, Bool, true, false, Option, none, some, List,
  [], ◌∷◌, length, arith,
}
use sbc.ControlPlane.OutboundQueue.{Message, is_empty, purge_from}
use sbc.ControlPlane.OutboundQueue.Fifo.{is_empty-append}
use sbc.ControlPlane.Client.{
  ControlPlaneClient, WsIncomingMessage, new_client, connected, do_enqueue, ack_timer_fires,
}
use sbc.ControlPlane.Client.Events.{
  client_run, ClientEvent, client_step, starts, calls_back, failure_runs, enqueues, ack_expires,
  retry_expires, snapshot_expires, flushes, stops, stop_runs,
}

-- The timer runs only while a message is in flight, and a message is in flight only on a
-- connection.
pub record IsValid (c : ControlPlaneClient) : Type 0 where
  pub backed : (c.outbound_queue.in_flight ≡ false) ⊎ (is_empty c.outbound_queue.messages ≡ false)
  pub timed : (c.ack_timer ≡ none) ⊎ (c.outbound_queue.in_flight ≡ true)
  pub placed : (c.outbound_queue.in_flight ≡ false) ⊎ (c.connection ≢ none)

-- A message in flight is not purged.
purge_keeps : (ms : List Message) → is_empty ms ≡ false → is_empty (purge_from true ms) ≡ false
purge_keeps [] h = h
purge_keeps (m ∷ ms) h = refl

module _ (parse : String → Option WsIncomingMessage) where
  step-IsValid :
      (e : ClientEvent) (c : ControlPlaneClient) → IsValid c → IsValid (client_step parse e c)
  unfolding client_step
  step-IsValid starts c v = ground (arith, purge_keeps c.outbound_queue.messages)
  step-IsValid (calls_back e) c v = ground arith
  step-IsValid failure_runs c v = ground arith
  step-IsValid (enqueues payload best_effort) c v =
      elim payload as (λ o. IsValid (client_step parse (enqueues o best_effort) c)) [
        | none ↦ ground arith
        | some text ↦ ground (
          arith,
          is_empty-append c.outbound_queue.messages
              (record { payload = text; best_effort = best_effort }),
        )
      ]
  step-IsValid ack_expires c v = ground arith
  step-IsValid retry_expires c v = ground (arith, purge_keeps c.outbound_queue.messages)
  step-IsValid snapshot_expires c v = ground arith
  step-IsValid flushes c v = ground arith
  step-IsValid stops c v = ground arith
  step-IsValid stop_runs c v = ground arith

-- A write in flight with a running timer of the present generation.
pub record Awaits (c : ControlPlaneClient) : Type 0 where
  pub up : connected c ≡ true
  pub in_flight : c.outbound_queue.in_flight ≡ true
  pub timed : c.ack_timer ≡ some c.ack_timer_generation

module _ (parse : String → Option WsIncomingMessage) where
  -- When the acknowledgement timer of a running client expires for the message in flight, no later
  -- call of write_next having raised the generation since it was armed, and no failure is being
  -- handled, the connection is given up, and once the posted task has run the same messages are
  -- queued, none in flight, and a reconnect is scheduled.
  pub ack_timeout_retries :
      (c : ControlPlaneClient)
      → Awaits c
      → c.stopped ≡ false
      → c.failures ≡ []
      → let c' = client_step parse failure_runs (ack_timer_fires c) in
        (c'.outbound_queue.messages ≡ c.outbound_queue.messages)
        × (c'.outbound_queue.in_flight ≡ false)
        × (c'.connection ≡ none)
        × (c'.retry_timer ≡ true)
  unfolding client_step ack_timer_fires
  ack_timeout_retries c a h k = ground arith

next_ne : (g : ℕ) → g < 2 ^ 64 → g ≢ (g + 1) % 2 ^ 64
next_ne g h = omega arith

-- The timer's generation is checked against a counter that every enqueue raises, also when it
-- starts no write: if an event that can be queued is enqueued while a message is in flight, the
-- running timer does nothing when it fires, and no other timer runs.
pub enqueue_disarms_ack_timer :
    (c : ControlPlaneClient) (text : String) (best_effort : Bool)
    → Awaits c
    → c.ack_timer_generation < 2 ^ 64
    → length c.outbound_queue.messages < c.outbound_queue.max_size
    → let c' = do_enqueue (some text) best_effort c in
      (c'.outbound_queue.in_flight ≡ true) × (ack_timer_fires c' ≡ record c' { ack_timer = none })
unfolding do_enqueue ack_timer_fires
enqueue_disarms_ack_timer c text best_effort a h k = ground (arith, next_ne c.ack_timer_generation)

module _ (parse : String → Option WsIncomingMessage) where
  -- Whatever the executor runs from the start, the acknowledgement timer runs only while a message
  -- is in flight, and a message is in flight only if one is queued and there is a connection.
  pub client_run-IsValid : (es : List ClientEvent) → IsValid (client_run parse es new_client)
  client_run-IsValid es = from es new_client (unfold new_client in ground arith)
    where
      from :
          (es : List ClientEvent) (c : ControlPlaneClient)
          → IsValid c
          → IsValid (client_run parse es c)
      from [] c v = v
      from (e ∷ es) c v = from es (client_step parse e c) (step-IsValid parse e c v)
