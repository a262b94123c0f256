-- ===== src/Sm.antt =====
-- The state machines of engine/src/sip/sm.
pub mod Types
pub mod Machine
pub mod Setup
pub mod Dialog
pub mod OfferAnswer
