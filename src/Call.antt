-- ===== src/Call.antt =====
-- A call: engine/src/sip/call.
pub mod Exchange
pub mod Session
pub mod Invite
pub mod Legs
pub mod Outbound
pub mod Answering
pub mod SetupCall
pub mod MidDialog
pub mod DialogCall
pub mod Manager
pub mod InactivityTimer
