-- ===== src/Media.antt =====
-- The media path of a call: engine/src/net/rtp.
pub mod Dtmf
pub mod Bridge
