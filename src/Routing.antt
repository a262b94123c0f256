-- ===== src/Routing.antt =====
-- Where a call goes: engine/src/sip/route_table, the URI helpers of engine/src/sip/router and the
-- routing step of engine/src/sip/call/setup_actions.cpp.
pub mod Uri
pub mod RoutesStore
pub mod Resolve
