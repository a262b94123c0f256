-- ===== src/Call/Session/History.antt =====
-- The call history that engine/src/sip/call/call_session.cpp reports.
use mathlib.Core.Option
use sbc.Base.Int.{to_int32}
use sbc.Base.{
  ◌&&◌, str_eq, count-append, ◌≡◌, ◌≤◌, Bool, true, false, none, List, [], ◌∷◌, arith, count,
  if◌then◌else◌,
}
use sbc.Sm.Types.{caller, callee}
use sbc.Call.Session.{
  codec_name, success, established_duration, CallSession, CallEvent, call_started, call_updated,
  call_terminated, SessionOp, session_step, session_run, starts, updates, commits, answers,
  terminates, redirects,
}

abbrev pub is_end : CallEvent → Bool
is_end (call_terminated _ _ _ _) = true
is_end _ = false

module _ {Session : Type 0} where
  abbrev IsReported : CallSession Session → Type 0
  IsReported s = count is_end s.sent ≡ (if s.terminated_reported && s.has_sink then 1 else 0)

  session_step-IsReported :
      (op : SessionOp) (s : CallSession Session) → IsReported s → IsReported (session_step op s)
  unfolding session_step
  session_step-IsReported starts s w =
      ground
        (arith, count-append is_end s.sent (call_started s.call_id s.caller_uri s.request_uri ∷ []))
  session_step-IsReported updates s w = ground (
    arith,
    count-append is_end s.sent
        (call_updated s.call_id s.outbound_destination (codec_name s.caller_leg) ∷ []),
  )
  session_step-IsReported (commits offer answer) s w = ground arith
  session_step-IsReported (answers now) s w = ground (
    arith,
    count-append is_end s.sent
        (call_updated s.call_id s.outbound_destination (codec_name s.caller_leg) ∷ []),
  )
  session_step-IsReported (terminates now status reason) s w = ground (
    arith,
    count-append is_end s.sent (
        call_terminated s.call_id status reason
          (if str_eq status success then Option.map to_int32 (established_duration now s) else none)
        ∷ []),
  )
  session_step-IsReported (redirects established now caller d) s w = ground arith
  session_step-IsReported (redirects established now callee d) s w = ground arith

  -- Over any run of the calls from a call that has reported no end, at most one end is reported.
  pub one_end_at_most :
      (ops : List SessionOp) (s : CallSession Session)
      → s.terminated_reported ≡ false
      → count is_end s.sent ≡ 0
      → count is_end (session_run ops s).sent ≤ 1
  one_end_at_most ops s t e = ground (arith, go ops s (ground arith))
    where
      go :
          (ops : List SessionOp) (s : CallSession Session)
          → IsReported s
          → IsReported (session_run ops s)
      go [] s w = w
      go (op ∷ ops) s w = go ops (session_step op s) (session_step-IsReported op s w)
