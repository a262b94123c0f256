-- ===== src/ControlPlane/Client/Events.antt =====
-- The events that the executor of engine/src/control_plane/control_plane_client.cpp runs, in any
-- order.
use sbc.Base.{String, Bool, if◌then◌else◌, Option, none, some, List, [], ◌∷◌}
use sbc.ControlPlane.FirstSnapshotLatch
use sbc.ControlPlane.WsConnection.{
  WsConnection, WsStage, ErrorCode, Notice, WsCallback, opened, received, failed, ws_step,
}
use sbc.ControlPlane.Client.{
  ControlPlaneClient, WsIncomingMessage, do_connect, on_open, on_message, on_failure, failure_task,
  do_enqueue, ack_timer_fires, retry_timer_fires, flush_task, stop, stop_task,
}

pub data ClientEvent : Type 0 where
  starts : ClientEvent
  calls_back : WsCallback → ClientEvent
  failure_runs : ClientEvent
  enqueues : Option String → Bool → ClientEvent
  ack_expires : ClientEvent
  retry_expires : ClientEvent
  snapshot_expires : ClientEvent
  flushes : ClientEvent
  stops : ClientEvent
  stop_runs : ClientEvent

module _ (parse : String → Option WsIncomingMessage) where
  -- The handlers that the client gives its connection.
  unfoldable deliver : Option Notice → ControlPlaneClient → ControlPlaneClient
  unfolding on_open on_message on_failure
  deliver none c = c
  deliver (some opened) c = on_open c
  deliver (some (received raw)) c = on_message parse raw c
  deliver (some (failed stage err)) c = on_failure stage err c

  unfoldable connection_event :
      Option WsConnection → WsCallback → ControlPlaneClient → ControlPlaneClient
  unfolding deliver ws_step
  connection_event none e c = c
  connection_event (some w) e c =
      let (w', notice) = ws_step e w in deliver notice (record c { connection = some w' })

  -- The oldest posted failure task runs.
  unfoldable run_failure : List (WsStage × ErrorCode) → ControlPlaneClient → ControlPlaneClient
  unfolding failure_task
  run_failure [] c = c
  run_failure ((stage, err) ∷ rest) c = failure_task stage err (record c { failures = rest })

  unfoldable pub client_step : ClientEvent → ControlPlaneClient → ControlPlaneClient
  unfolding connection_event run_failure do_connect do_enqueue ack_timer_fires retry_timer_fires
      FirstSnapshotLatch.expire flush_task stop stop_task
  client_step starts c = do_connect c
  client_step (calls_back e) c = connection_event c.connection e c
  client_step failure_runs c = run_failure c.failures c
  client_step (enqueues payload best_effort) c = do_enqueue payload best_effort c
  client_step ack_expires c = ack_timer_fires c
  client_step retry_expires c = retry_timer_fires c
  client_step snapshot_expires c = record c {
    first_snapshot = FirstSnapshotLatch.expire c.first_snapshot;
  }
  client_step flushes c = flush_task c
  client_step stops c = stop c
  client_step stop_runs c = if c.stop_posted then stop_task c else c

  abbrev pub client_run : List ClientEvent → ControlPlaneClient → ControlPlaneClient
  client_run [] c = c
  client_run (e ∷ es) c = client_run es (client_step e c)
