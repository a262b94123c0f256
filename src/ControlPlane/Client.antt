-- ===== src/ControlPlane/Client.antt =====
-- The control-plane client: engine/src/control_plane/control_plane_client.cpp. Its handlers all run
-- on one executor, so each is a function on the state; a posted task, a timer that fires and a
-- callback of the connection are separate events. JSON is Glaze's: `parse` and `serialize` are
-- parameters.
pub mod Events
pub mod Acknowledgement
pub mod Delivery
pub mod Sequence
pub mod Shutdown
use sbc.Base.{
  ℕ, String, ◌+◌, ◌%◌, ◌^◌, Bool, true, false, not, ◌&&◌, ◌||◌, if◌then◌else◌, ◌==◌, Option, none,
  some, List, [], ◌∷◌, ◌++◌,
}
use sbc.Base.Int.{ℤ, pos, leb_ℤ}
use mathlib.Core.Option
use sbc.Protocols.{SipRouteSnapshot, SipUserSnapshot}
use sbc.ControlPlane.OutboundQueue
use sbc.ControlPlane.OutboundQueue.{OutboundQueue}
use sbc.ControlPlane.FirstSnapshotLatch
use sbc.ControlPlane.FirstSnapshotLatch.{FirstSnapshotLatch, VoidResult, success, unexpected}
use sbc.ControlPlane.WsConnection
use sbc.ControlPlane.WsConnection.{
  WsConnection, WsStage, ErrorCode, Notice, WsCallback, connect, session, timed_out,
  connection_refused, opened, received, failed,
}

-- The parts of a `WsEnvelope` that the client reads of an incoming message.
pub record WsEnvelope : Type 0 where
  pub is_snapshot : Bool  -- type == kSnapshot
  pub routes_snapshot : Option SipRouteSnapshot
  pub users_snapshot : Option SipUserSnapshot
  pub seq : Option ℤ

pub data WsIncomingMessage : Type 0 where
  ack : Bool → WsIncomingMessage
  envelope : WsEnvelope → WsIncomingMessage

-- The members, with what leaves the client: `written` are the payloads given to a connection.
pub record ControlPlaneClient : Type 0 where
  pub stopped : Bool
  pub stop_posted : Bool  -- the task that `stop` posts has still to run
  pub connection : Option WsConnection
  pub outbound_queue : OutboundQueue
  pub first_snapshot : FirstSnapshotLatch
  pub last_seq : ℤ
  pub ack_timer_generation : ℕ  -- uint64
  pub ack_timer : Option ℕ  -- the generation that the running timer's handler holds
  pub retry_timer : Bool
  pub flush_waiter : Bool
  pub failures : List (WsStage × ErrorCode)  -- tasks that `on_failure` has posted
  pub routes : SipRouteSnapshot
  pub users : SipUserSnapshot
  pub written : List String

abbrev max_outbound_queue_size : ℕ
max_outbound_queue_size = 1024

unfoldable pub new_client : ControlPlaneClient
unfolding OutboundQueue.new_queue FirstSnapshotLatch.new_latch
new_client = record {
  stopped = false;
  stop_posted = false;
  connection = none;
  outbound_queue = OutboundQueue.new_queue max_outbound_queue_size;
  first_snapshot = FirstSnapshotLatch.new_latch;
  last_seq = pos 0;
  ack_timer_generation = 0;
  ack_timer = none;
  retry_timer = false;
  flush_waiter = false;
  failures = [];
  routes = record { table_id = ""; version = pos 0; routes = [] };
  users = record { users = [] };
  written = [];
}

unfoldable pub connected : ControlPlaneClient → Bool
connected c = elim c.connection [ none ↦ false | some w ↦ w.is_open ]

unfoldable resolve_flush_waiter : ControlPlaneClient → ControlPlaneClient
resolve_flush_waiter c = record c { flush_waiter = false }

-- The generation goes up on every call; the timer is armed only if a message is started.
unfoldable write_next : ControlPlaneClient → ControlPlaneClient
unfolding connected OutboundQueue.start_next
write_next c =
    let generation = (c.ack_timer_generation + 1) % 2 ^ 64 in
    let c' = record c { ack_timer_generation = generation } in
    if connected c
    then (let (next, q) = OutboundQueue.start_next c.outbound_queue in
        elim next [
          | none ↦ record c' { outbound_queue = q }
          | some payload ↦ record c' {
            outbound_queue = q;
            written = c.written ++ payload ∷ [];
            ack_timer = some generation;
          }
        ])
    else c'

unfoldable pub do_connect : ControlPlaneClient → ControlPlaneClient
unfolding OutboundQueue.purge_best_effort WsConnection.new_connection
do_connect c = if c.stopped then c else record c {
  outbound_queue = OutboundQueue.purge_best_effort c.outbound_queue;
  last_seq = pos 0;
  connection = some WsConnection.new_connection;
}

unfoldable pub on_open : ControlPlaneClient → ControlPlaneClient
unfolding write_next FirstSnapshotLatch.arm
on_open c = write_next (record c { first_snapshot = FirstSnapshotLatch.arm c.first_snapshot })

unfoldable schedule_reconnect : ControlPlaneClient → ControlPlaneClient
schedule_reconnect c = if c.stopped then c else record c { retry_timer = true }

abbrev is_refused : ErrorCode → Bool
is_refused ErrorCode.connection_refused = true
is_refused _ = false

abbrev is_session : WsStage → Bool
is_session WsStage.session = true
is_session WsStage.connect = false

unfoldable handle_setup_failure : ErrorCode → ControlPlaneClient → ControlPlaneClient
unfolding schedule_reconnect FirstSnapshotLatch.resolve
handle_setup_failure err c =
    if c.first_snapshot.resolved || is_refused err then schedule_reconnect c else record c {
      first_snapshot =
          FirstSnapshotLatch.resolve (unexpected "control-plane websocket failed") c.first_snapshot;
    }

-- `on_failure` only posts its task.
unfoldable pub on_failure : WsStage → ErrorCode → ControlPlaneClient → ControlPlaneClient
on_failure stage err c = record c { failures = c.failures ++ (stage, err) ∷ [] }

-- The task that `on_failure` posts.
unfoldable pub failure_task : WsStage → ErrorCode → ControlPlaneClient → ControlPlaneClient
unfolding OutboundQueue.abort OutboundQueue.empty FirstSnapshotLatch.disarm resolve_flush_waiter
    handle_setup_failure schedule_reconnect
failure_task stage err c =
    let c' = record c {
      ack_timer = none;
      connection = none;
      outbound_queue = OutboundQueue.abort c.outbound_queue;
      first_snapshot = FirstSnapshotLatch.disarm c.first_snapshot;
    } in
    let c'' = if OutboundQueue.empty c'.outbound_queue then resolve_flush_waiter c' else c' in
    if is_session stage then schedule_reconnect c'' else handle_setup_failure err c''

-- The acknowledgement's result is only logged.
unfoldable on_write_complete : Bool → ControlPlaneClient → ControlPlaneClient
unfolding OutboundQueue.complete OutboundQueue.empty resolve_flush_waiter write_next
on_write_complete ok c =
    let c' = record c {
      ack_timer = none;
      outbound_queue = OutboundQueue.complete c.outbound_queue;
    } in
    write_next (if OutboundQueue.empty c'.outbound_queue then resolve_flush_waiter c' else c')

abbrev apply_routes : Option SipRouteSnapshot → ControlPlaneClient → ControlPlaneClient
apply_routes none c = c
apply_routes (some snapshot) c = record c { routes = snapshot }

abbrev apply_users : Option SipUserSnapshot → ControlPlaneClient → ControlPlaneClient
apply_users none c = c
apply_users (some snapshot) c = record c { users = snapshot }

unfoldable pub is_stale : Option ℤ → ℤ → Bool
is_stale none last = false
is_stale (some seq) last = leb_ℤ seq last

abbrev seq_or : ℤ → Option ℤ → ℤ
seq_or last none = last
seq_or last (some seq) = seq

-- What a message that is not stale does.
unfoldable apply_envelope : WsEnvelope → ControlPlaneClient → ControlPlaneClient
unfolding FirstSnapshotLatch.resolve
apply_envelope e c =
    let c' = record c { last_seq = seq_or c.last_seq e.seq } in
    if not e.is_snapshot
    then c'
    else (let applied = apply_users e.users_snapshot (apply_routes e.routes_snapshot c') in
        record applied {
          first_snapshot = FirstSnapshotLatch.resolve success applied.first_snapshot;
        })

unfoldable pub on_message :
    (String → Option WsIncomingMessage) → String → ControlPlaneClient → ControlPlaneClient
unfolding is_stale apply_envelope on_write_complete
on_message parse raw c = elim (parse raw) [
  | none ↦ c
  | some (ack ok) ↦ on_write_complete ok c
  | some (envelope e) ↦ if is_stale e.seq c.last_seq then c else apply_envelope e c
]

-- `payload` is the serialized event, or nothing where Glaze cannot write it.
unfoldable pub do_enqueue : Option String → Bool → ControlPlaneClient → ControlPlaneClient
unfolding connected OutboundQueue.push write_next
do_enqueue payload best_effort c = if best_effort && not (connected c) then c else elim payload [
  | none ↦ c
  | some text ↦
      let (pushed, q) = OutboundQueue.push text best_effort c.outbound_queue in
      if pushed then write_next (record c { outbound_queue = q }) else c
]

unfoldable on_ack_timeout : ℕ → ControlPlaneClient → ControlPlaneClient
unfolding connected on_failure WsConnection.cancel
on_ack_timeout generation c =
    if not (generation == c.ack_timer_generation) || not (connected c)
    then c
    else on_failure session timed_out
        (record c { connection = Option.map WsConnection.cancel c.connection })

-- The running acknowledgement timer fires.
unfoldable pub ack_timer_fires : ControlPlaneClient → ControlPlaneClient
unfolding on_ack_timeout
ack_timer_fires c = elim c.ack_timer [
  | none ↦ c
  | some generation ↦ on_ack_timeout generation (record c { ack_timer = none })
]

unfoldable pub retry_timer_fires : ControlPlaneClient → ControlPlaneClient
unfolding do_connect
retry_timer_fires c = if c.retry_timer then do_connect (record c { retry_timer = false }) else c

-- The task that `flush` posts.
unfoldable pub flush_task : ControlPlaneClient → ControlPlaneClient
unfolding OutboundQueue.empty resolve_flush_waiter
flush_task c =
    let c' = record c { flush_waiter = true } in
    if OutboundQueue.empty c.outbound_queue then resolve_flush_waiter c' else c'

-- `stop` sets the flag and posts a task.
unfoldable pub stop : ControlPlaneClient → ControlPlaneClient
stop c = if c.stopped then c else record c { stopped = true; stop_posted = true }

-- The task that `stop` posts.
unfoldable pub stop_task : ControlPlaneClient → ControlPlaneClient
unfolding FirstSnapshotLatch.disarm WsConnection.cancel
stop_task c = record c {
  stop_posted = false;
  retry_timer = false;
  ack_timer = none;
  first_snapshot = FirstSnapshotLatch.disarm c.first_snapshot;
  connection = Option.map WsConnection.cancel c.connection;
}
