-- ===== src/ControlPlane/Client/Delivery.antt =====
-- What becomes of the call events that engine/src/control_plane/control_plane_client.cpp queues:
-- over reconnects, time-outs and shutdown none is lost or overtaken.
use sbc.Base.{
  String, ◌≡◌, sym, ap, ◌∙◌, Bool, true, false, not, ◌&&◌, if◌then◌else◌, Option, none, some, List,
  [], ◌∷◌, ◌++◌, arith,
}
use mathlib.Core.List.{append-nil, append_assoc}
use sbc.ControlPlane.OutboundQueue.{Message}
use sbc.ControlPlane.OutboundQueue.Fifo
use sbc.ControlPlane.OutboundQueue.Fifo.{
  reliable, accepted, acknowledged, apply-conserves, pushes, starts, completes, aborts, purges,
}
use sbc.ControlPlane.WsConnection.{WsConnection, messages}
use sbc.ControlPlane.Client.{ControlPlaneClient, WsIncomingMessage, ack}
use sbc.ControlPlane.Client.Events.{ClientEvent, client_step, client_run, calls_back, enqueues}

-- The event that must arrive and that an enqueue finds room for.
abbrev taken : ClientEvent → ControlPlaneClient → List Message
taken (enqueues (some text) best_effort) c =
    if best_effort then [] else accepted (pushes text best_effort) c.outbound_queue
taken _ c = []

module _ (parse : String → Option WsIncomingMessage) where
  abbrev acks : Option WsIncomingMessage → Bool
  acks (some (ack ok)) = true
  acks _ = false

  abbrev is_listening : Option WsConnection → Bool
  is_listening none = false
  is_listening (some w) = not w.closed

  -- The event that must arrive and that an acknowledgement confirms.
  abbrev pub confirmed : ClientEvent → ControlPlaneClient → List Message
  confirmed (calls_back (messages raw true)) c =
      if is_listening c.connection && acks (parse raw)
      then acknowledged completes c.outbound_queue
      else []
  confirmed _ c = []

  step-conserves :
      (e : ClientEvent) (c : ControlPlaneClient)
      → confirmed e c ++ reliable (client_step parse e c).outbound_queue.messages
        ≡ reliable c.outbound_queue.messages ++ taken e c
  unfolding client_step Fifo.apply
  step-conserves (calls_back e) c = ground (
    arith,
    append-nil (reliable c.outbound_queue.messages),
    apply-conserves completes c.outbound_queue,
  )
  step-conserves (enqueues (some text) best_effort) c = ground (
    arith,
    append-nil (reliable c.outbound_queue.messages),
    apply-conserves (pushes text best_effort) c.outbound_queue,
  )
  step-conserves _ c = ground (
    arith,
    append-nil (reliable c.outbound_queue.messages),
    apply-conserves purges c.outbound_queue,
  )

  abbrev pub all_taken : List ClientEvent → ControlPlaneClient → List Message
  all_taken [] c = []
  all_taken (e ∷ es) c = taken e c ++ all_taken es (client_step parse e c)

  abbrev pub all_confirmed : List ClientEvent → ControlPlaneClient → List Message
  all_confirmed [] c = []
  all_confirmed (e ∷ es) c = confirmed e c ++ all_confirmed es (client_step parse e c)

  -- Whatever the executor runs, the events that must arrive and that were queued or found room are,
  -- in order and once each, the ones acknowledged so far followed by the ones still queued.
  pub client_conserves :
      (es : List ClientEvent) (c : ControlPlaneClient)
      → all_confirmed es c ++ reliable (client_run parse es c).outbound_queue.messages
        ≡ reliable c.outbound_queue.messages ++ all_taken es c
  client_conserves [] c = sym (append-nil _)
  client_conserves (e ∷ es) c =
      append_assoc (confirmed e c) (all_confirmed es (client_step parse e c)) _
      ∙ ap (λ (l : List Message). confirmed e c ++ l) (client_conserves es (client_step parse e c))
      ∙ sym (
          append_assoc (confirmed e c) (reliable (client_step parse e c).outbound_queue.messages) _)
      ∙ ap (λ (l : List Message). l ++ all_taken es (client_step parse e c)) (step-conserves e c)
      ∙ append_assoc (reliable c.outbound_queue.messages) (taken e c) _
