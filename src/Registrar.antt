-- ===== src/Registrar.antt =====
-- The registrar: engine/src/sip/registrar.
pub mod Users
pub mod BindingStore
pub mod Registration
