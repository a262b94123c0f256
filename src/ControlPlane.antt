-- ===== src/ControlPlane.antt =====
-- The control-plane channel: engine/src/control_plane.
pub mod OutboundQueue
pub mod FirstSnapshotLatch
pub mod WsConnection
pub mod Client
