-- ===== src/Tests.antt =====
-- Concrete inputs: the theorems applied to a small call, a small store and a short history each.
pub mod Machines
pub mod Calls
pub mod Negotiations
pub mod Legs
pub mod Managers
pub mod ControlPlanes
pub mod Registrations
pub mod Routes
pub mod Relays
