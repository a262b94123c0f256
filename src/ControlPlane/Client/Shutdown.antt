-- ===== src/ControlPlane/Client/Shutdown.antt =====
-- What `stop` of engine/src/control_plane/control_plane_client.cpp ends.
use sbc.Base.{
  ◌⊎◌, inl, inr, String, ◌≡◌, refl, ◌∙◌, Bool, true, false, not, ◌&&◌, Option, none, some, List, [],
  ◌∷◌, arith,
}
use sbc.ControlPlane.WsConnection.{WsConnection}
use sbc.ControlPlane.Client.{ControlPlaneClient, WsIncomingMessage, stop}
use sbc.ControlPlane.Client.Events.{ClientEvent, stop_runs, client_step, client_run}

abbrev is_shut : Option WsConnection → Bool
is_shut none = true
is_shut (some w) = w.closed && not w.is_open

-- Stopped, with no connection that is open or can open and no reconnect to come.
pub record IsHalted (c : ControlPlaneClient) : Type 0 where
  pub stopped : c.stopped ≡ true
  pub unscheduled : c.retry_timer ≡ false
  pub shut : is_shut c.connection ≡ true

-- Stopped, with the task of `stop` still to run, or halted.
abbrev IsStopping : ControlPlaneClient → Type 0
IsStopping c = (c.stopped ≡ true) × ((c.stop_posted ≡ true) ⊎ IsHalted c)

module _ (parse : String → Option WsIncomingMessage) where
  step-IsHalted :
      (e : ClientEvent) (c : ControlPlaneClient)
      → IsHalted c
      → IsHalted (client_step parse e c) × ((client_step parse e c).written ≡ c.written)
  unfolding client_step
  step-IsHalted e c h = ground arith

  run-IsHalted :
      (es : List ClientEvent) (c : ControlPlaneClient)
      → IsHalted c
      → IsHalted (client_run parse es c) × ((client_run parse es c).written ≡ c.written)
  run-IsHalted [] c h = (h, refl)
  run-IsHalted (e ∷ es) c h =
      let (h', same) = step-IsHalted e c h in
      let (h'', rest) = run-IsHalted es (client_step parse e c) h' in (h'', rest ∙ same)

  -- A stopped client opens no connection, whether or not its task has run.
  step-stopped :
      (e : ClientEvent) (c : ControlPlaneClient)
      → c.stopped ≡ true
      → ((client_step parse e c).stopped ≡ true)
        × (c.stop_posted ≡ true
            → ((client_step parse e c).stop_posted ≡ true) ⊎ IsHalted (client_step parse e c))
  unfolding client_step
  step-stopped e c h = ground arith

  step-IsStopping :
      (e : ClientEvent) (c : ControlPlaneClient) → IsStopping c → IsStopping (client_step parse e c)
  step-IsStopping e c (h, inl p) = ((step-stopped e c h).0, (step-stopped e c h).1 p)
  step-IsStopping e c (h, inr p) = ((step-stopped e c h).0, inr (step-IsHalted e c p).0)

  run-IsStopping :
      (es : List ClientEvent) (c : ControlPlaneClient)
      → IsStopping c
      → IsStopping (client_run parse es c)
  run-IsStopping [] c h = h
  run-IsStopping (e ∷ es) c h = run-IsStopping es (client_step parse e c) (step-IsStopping e c h)

  task-IsHalted : (c : ControlPlaneClient) → IsStopping c → IsHalted (client_step parse stop_runs c)
  unfolding client_step
  task-IsHalted c (h, inl p) = ground arith
  task-IsHalted c (h, inr p) = (step-IsHalted stop_runs c p).0

  -- Once `stop` was called and, whatever ran in between, the task that it posts has run, whatever
  -- else the executor runs: the client stays stopped with no open connection and no reconnect
  -- scheduled, and gives no further payload to a connection.
  pub client_stop_final :
      (before after : List ClientEvent) (c : ControlPlaneClient)
      → c.stopped ≡ false
      → let c' = client_step parse stop_runs (client_run parse before (stop c)) in
        IsHalted (client_run parse after c') × ((client_run parse after c').written ≡ c'.written)
  unfolding stop
  client_stop_final before after c h =
      run-IsHalted after (client_step parse stop_runs (client_run parse before (stop c)))
        (task-IsHalted _ (run-IsStopping before (stop c) (ground arith)))
