-- ===== src/Tests/ControlPlanes.antt =====
-- The control-plane client of engine/src/control_plane with two events and a few messages.
use sbc.Base.{
  arith, ℕ, String, ◌≡◌, ◌++◌, refl, true, false, Option, none, some, List, [], ◌∷◌, str_eq,
  if◌then◌else◌,
}
use sbc.Base.Int.{pos}
use sbc.ControlPlane.OutboundQueue.{Message, OutboundQueue}
use sbc.ControlPlane.OutboundQueue.Fifo.{reliable}
use sbc.ControlPlane.FirstSnapshotLatch as Latch
use sbc.ControlPlane.FirstSnapshotLatch.{
  FirstSnapshotLatch, latch_first_wins, success, unexpected, resolves, new_latch,
}
use sbc.ControlPlane.WsConnection.{
  WsConnection, ws_one_failure, notices, EndsAtFailure, cancel, opens, closes, errors, messages,
  timed_out,
}
use sbc.ControlPlane.Client.{
  connected, ControlPlaneClient, WsEnvelope, WsIncomingMessage, ack, envelope, new_client,
  do_enqueue, ack_timer_fires, stop, on_message,
}
use sbc.ControlPlane.Client.Events.{
  stop_runs, ClientEvent, client_step, client_run, starts, calls_back, enqueues, failure_runs,
}
use sbc.ControlPlane.Client.Acknowledgement.{
  IsValid, Awaits, client_run-IsValid, ack_timeout_retries, enqueue_disarms_ack_timer,
}
use sbc.ControlPlane.Client.Delivery.{client_conserves, all_confirmed, all_taken}
use sbc.ControlPlane.Client.Sequence.{client_no_rollback, receive}
use sbc.ControlPlane.Client.Shutdown.{client_stop_final, IsHalted}

abbrev numbered : ℕ → WsEnvelope
numbered n = record {
  is_snapshot = true;
  routes_snapshot = none;
  users_snapshot = none;
  seq = some (pos n);
}

-- The messages of a control plane that acknowledges, and numbers two snapshots.
abbrev parse : String → Option WsIncomingMessage
parse raw =
    if str_eq raw "ack"
    then some (ack true)
    else if str_eq raw "second"
    then some (envelope (numbered 2))
    else if str_eq raw "first"
    then some (envelope (numbered 1))
    else none

abbrev two_events : List ClientEvent
two_events =
    starts
    ∷ calls_back opens
    ∷ enqueues (some "started") false
    ∷ enqueues (some "updated") false
    ∷ calls_back (messages "ack" true)
    ∷ calls_back closes
    ∷ failure_runs
    ∷ []

client_conserves_example :
    all_confirmed parse two_events new_client
      ++ reliable (client_run parse two_events new_client).outbound_queue.messages
    ≡ reliable new_client.outbound_queue.messages ++ all_taken parse two_events new_client
client_conserves_example = client_conserves parse two_events new_client

client_run-IsValid_example : IsValid (client_run parse two_events new_client)
client_run-IsValid_example = client_run-IsValid parse two_events

abbrev started : Message
started = record { payload = "started"; best_effort = false }

-- A client with one message in flight.
abbrev waiting : ControlPlaneClient
waiting = record {
  stopped = false;
  connection = some (record { is_open = true; closed = false; connecting = false });
  outbound_queue = record { max_size = 4; messages = started ∷ []; in_flight = true };
  first_snapshot = record { resolved = false; counting = false; promise = [] };
  last_seq = pos 0;
  ack_timer_generation = 1;
  ack_timer = some 1;
  stop_posted = false;
  retry_timer = false;
  flush_waiter = false;
  failures = [];
  routes = record { table_id = ""; version = pos 0; routes = [] };
  users = record { users = [] };
  written = "started" ∷ [];
}

waiting-Awaits : Awaits waiting
unfolding connected
waiting-Awaits = record { up = refl; in_flight = refl; timed = refl }

ack_timeout_retries_example :
    let c' = client_step parse failure_runs (ack_timer_fires waiting) in
    (c'.outbound_queue.messages ≡ started ∷ [])
    × (c'.outbound_queue.in_flight ≡ false)
    × (c'.connection ≡ none)
    × (c'.retry_timer ≡ true)
ack_timeout_retries_example = ack_timeout_retries parse waiting waiting-Awaits refl refl

enqueue_disarms_ack_timer_example :
    let c' = do_enqueue (some "updated") false waiting in
    (c'.outbound_queue.in_flight ≡ true) × (ack_timer_fires c' ≡ record c' { ack_timer = none })
enqueue_disarms_ack_timer_example =
    enqueue_disarms_ack_timer waiting "updated" false waiting-Awaits (omega arith) (omega arith)

client_no_rollback_example :
    let c' = receive parse ("ack" ∷ []) (on_message parse "second" waiting) in
    on_message parse "first" c' ≡ c'
client_no_rollback_example =
    client_no_rollback parse "second" "first" ("ack" ∷ []) (numbered 2) (numbered 1) (pos 2) (pos 1)
      waiting refl refl refl refl refl

client_stop_final_example :
    let c' = client_step parse stop_runs (client_run parse two_events (stop waiting)) in
    IsHalted (client_run parse two_events c')
    × ((client_run parse two_events c').written ≡ c'.written)
client_stop_final_example = client_stop_final parse two_events two_events waiting refl

abbrev small_queue : OutboundQueue
small_queue = record { max_size = 2; messages = started ∷ []; in_flight = true }

abbrev open_latch : FirstSnapshotLatch
open_latch = record { resolved = false; counting = true; promise = [] }

latch_first_wins_example :
    Latch.run (resolves success ∷ Latch.expires ∷ resolves (unexpected "stopped") ∷ []) open_latch
    ≡ record { resolved = true; counting = false; promise = success ∷ [] }
latch_first_wins_example =
    latch_first_wins success (Latch.expires ∷ resolves (unexpected "stopped") ∷ []) open_latch refl
      refl

abbrev new_socket : WsConnection
new_socket = record { is_open = false; closed = false; connecting = true }

ws_one_failure_example :
    let es = opens ∷ errors timed_out ∷ closes ∷ [] in
    EndsAtFailure (notices es new_socket) × (notices es (cancel new_socket) ≡ [])
ws_one_failure_example = ws_one_failure (opens ∷ errors timed_out ∷ closes ∷ []) new_socket
