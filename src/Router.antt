-- ===== src/Router.antt =====
-- Which request reaches which component: engine/src/sip/router.
pub mod Requests
pub mod Dispatch
pub mod Callbacks
pub mod Options
