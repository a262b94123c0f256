-- ===== src/Call/SetupCall/Failure.antt =====
-- How a failed setup is reported.
use sbc.Base.{
  String, concat, true, false, none, some, List, [], ◌∷◌, ◌++◌, str_eq, eq_iff, ◌≡◌, ◌≢◌, refl,
  Bool-cases, ap, inl, inr, arith,
}
use mathlib.Core.Path.{subst}
use sbc.Base.Text.{size, size-append}
use sbc.Sm.Machine.{Ends, drain, process_event}
use sbc.Sm.Setup.{
  SetupActions, SetupState, RouteKind, idle, requested, setup_process, setup_table, routing_event,
}
use sbc.Routing.Resolve.{Stores}
use sbc.Call.Session.{
  CallEvent, CallSession, report_call_started, report_call_terminated, call_started,
  call_terminated, success,
}
use sbc.Call.Legs.{Engine}
use sbc.Call.SetupCall.{
  SetupCall, setup_actions, setup_route, begin_setup, route_failed, routing_loop_detected,
  codec_mismatch_detected, terminate_call, cleanup, note_failure, failed_status, no_route_available,
  drop_exchange, on_exchange,
}

-- The status and the reason of a call that routing refuses.
abbrev refusal_status : RouteKind → String
refusal_status RouteKind.failed = no_route_available
refusal_status _ = failed_status

abbrev refusal_reason : RouteKind → String → String
refusal_reason RouteKind.loop uri = "routing loop detected"
refusal_reason RouteKind.codec_mismatch uri = "no codec in common with the route"
refusal_reason _ uri = concat "no route available for " uri

concat-nonempty : (uri : String) → str_eq (concat "no route available for " uri) "" ≡ false
concat-nonempty uri = elim (Bool-cases (str_eq (concat "no route available for " uri) "")) [
  | inr e ↦ e
  | inl e ↦
      let w : String = "no route available for " in
      ground (arith, size-append w uri, ap size ((eq_iff (concat w uri) "").0 e))
]

module _ {Session Inv : Type 0} where
  abbrev pub start_of : SetupCall Session Inv → CallEvent
  start_of s = let c = s.call.session in call_started c.call_id c.caller_uri c.request_uri

  abbrev pub end_of : SetupCall Session Inv → RouteKind → CallEvent
  end_of s kind =
      call_terminated s.call.session.call_id (refusal_status kind)
        (some (refusal_reason kind s.call.session.request_uri)) none

module _ {S : Type 0} (a : SetupActions S) where
  -- The reply of a refused call.
  abbrev refuse : RouteKind → S → S
  refuse RouteKind.loop s = a.routing_loop_detected s
  refuse RouteKind.codec_mismatch s = a.codec_mismatch_detected s
  refuse _ s = a.route_failed s

  -- A call that routing refuses goes through in one event.
  setup_process-refused_route :
      (s : S)
      → (a.resolve_route (a.begin_setup s)).0.kind ≢ RouteKind.found
      → setup_process a idle requested s
        ≡ some (record {
          state = SetupState.done;
          actions = a.cleanup (
              a.terminate_call (
                refuse
                  (a.resolve_route (a.begin_setup s)).0.kind
                  (a.resolve_route (a.begin_setup s)).1));
          handled = true;
        })
  unfolding setup_process setup_table drain process_event routing_event
  setup_process-refused_route s h = ground arith

module _ {Session Inv Tx Dlg : Type 0} (engine : Engine Session Inv Tx Dlg) (stores : Stores) where
  setup_route-begin_setup :
      (s : SetupCall Session Inv)
      → setup_route engine stores (begin_setup engine stores s) ≡ setup_route engine stores s
  unfolding setup_route begin_setup report_call_started
  setup_route-begin_setup s = elim (Bool-cases s.call.session.has_sink) [
    | inl e ↦ rw e refl
    | inr e ↦ rw e refl
  ]

  -- What a refused call leaves, by the kind of its refusal.
  abbrev left : RouteKind → SetupCall Session Inv → SetupCall Session Inv
  left kind s = cleanup engine stores (
      terminate_call engine stores
        (refuse (setup_actions engine stores) kind (begin_setup engine stores s)))

  -- The parts of a call in setup that its report depends on, where no exchange runs.
  record Looks (s : SetupCall Session Inv) (session : CallSession Session) (status reason : String)
      (removed : List String) : Type 0 where
    pub no_exchange : s.exchange ≡ none
    pub session_is : s.call.session ≡ session
    pub status_is : s.failure_status ≡ status
    pub reason_is : s.failure_reason ≡ reason
    pub removed_is : s.removed ≡ removed

  begin_setup-Looks :
      (s : SetupCall Session Inv)
      → s.exchange ≡ none
      → s.failure_reason ≡ ""
      → Looks
          (begin_setup engine stores s)
          (report_call_started s.call.session)
          s.failure_status
          ""
          s.removed
  unfolding begin_setup
  begin_setup-Looks s h k = record {
    no_exchange = h;
    session_is = refl;
    status_is = refl;
    reason_is = k;
    removed_is = refl;
  }

  refuse-Looks :
      (kind : RouteKind) (s : SetupCall Session Inv) (c : CallSession Session) (status : String)
      (removed : List String)
      → Looks s c status "" removed
      → kind ≢ RouteKind.found
      → Looks
          (refuse (setup_actions engine stores) kind s)
          c
          (refusal_status kind)
          (refusal_reason kind c.request_uri)
          removed
  unfolding setup_actions route_failed routing_loop_detected codec_mismatch_detected note_failure
  refuse-Looks RouteKind.found s c status removed h n = elim (n refl) [ ]
  refuse-Looks RouteKind.failed s c status removed h n = ground (arith, eq_iff s.failure_reason "")
  refuse-Looks RouteKind.loop s c status removed h n = ground (arith, eq_iff s.failure_reason "")
  refuse-Looks RouteKind.codec_mismatch s c status removed h n =
      ground (arith, eq_iff s.failure_reason "")

  terminate_call-Looks :
      (s : SetupCall Session Inv) (c : CallSession Session) (status reason : String)
      (removed : List String)
      → Looks s c status reason removed
      → str_eq reason "" ≡ false
      → Looks (terminate_call engine stores s) c status reason removed
  unfolding terminate_call note_failure drop_exchange on_exchange
  terminate_call-Looks s c status reason removed h k = ground arith

  refusal_reason-nonempty :
      (kind : RouteKind) (uri : String) → str_eq (refusal_reason kind uri) "" ≡ false
  refusal_reason-nonempty RouteKind.found uri = concat-nonempty uri
  refusal_reason-nonempty RouteKind.failed uri = concat-nonempty uri
  refusal_reason-nonempty RouteKind.loop uri = refl
  refusal_reason-nonempty RouteKind.codec_mismatch uri = refl

  cleanup-reported :
      (s : SetupCall Session Inv) (c : CallSession Session) (status reason : String)
      (removed : List String)
      → Looks s c status reason removed
      → c.has_sink ≡ true
      → c.terminated_reported ≡ false
      → str_eq reason "" ≡ false
      → str_eq status success ≡ false
      → ((cleanup engine stores s).removed ≡ removed ++ c.call_id ∷ [])
        × ((cleanup engine stores s).call.session.sent
            ≡ c.sent ++ call_terminated c.call_id status (some reason) none ∷ [])
  unfolding cleanup report_call_terminated
  cleanup-reported s c status reason removed h k l m n = ground arith

  refusal_status-failure : (kind : RouteKind) → str_eq (refusal_status kind) success ≡ false
  refusal_status-failure RouteKind.found = refl
  refusal_status-failure RouteKind.failed = refl
  refusal_status-failure RouteKind.loop = refl
  refusal_status-failure RouteKind.codec_mismatch = refl

  -- The start is reported first, and changes nothing else that the end depends on.
  started :
      (c : CallSession Session)
      → c.has_sink ≡ true
      → report_call_started c
        ≡ record c { sent = c.sent ++ call_started c.call_id c.caller_uri c.request_uri ∷ [] }
  unfolding report_call_started
  started c h = rw h refl

  left-reported :
      (kind : RouteKind) (s : SetupCall Session Inv)
      → s.exchange ≡ none
      → s.failure_reason ≡ ""
      → s.call.session.has_sink ≡ true
      → s.call.session.terminated_reported ≡ false
      → kind ≢ RouteKind.found
      → ((left kind s).removed ≡ s.removed ++ s.call.session.call_id ∷ [])
        × ((left kind s).call.session.sent
            ≡ (s.call.session.sent ++ start_of s ∷ []) ++ end_of s kind ∷ [])
  left-reported kind s h k l m n =
      let c : CallSession Session = record s.call.session {
        sent = s.call.session.sent ++ start_of s ∷ [];
      } in
      let b = begin_setup engine stores s in
      let nonempty = refusal_reason-nonempty kind c.request_uri in
      let refused =
        refuse-Looks kind b c s.failure_status s.removed
          (subst (λ d. Looks b d s.failure_status "" s.removed) (started s.call.session l)
            (begin_setup-Looks s h k))
          n in
      let ended = terminate_call-Looks _ c (refusal_status kind) _ s.removed refused nonempty in
      cleanup-reported _ c (refusal_status kind) _ s.removed ended l m nonempty
        (refusal_status-failure kind)

  -- A call that routing refuses is over after its request: its setup is done, it is removed once,
  -- and the history gets its start and one end with the status and the reason of the refusal, where
  -- a sink is wired, no end was reported, no failure was noted and no exchange runs.
  pub refused_route_reported :
      (s : SetupCall Session Inv)
      → s.exchange ≡ none
      → s.failure_reason ≡ ""
      → s.call.session.has_sink ≡ true
      → s.call.session.terminated_reported ≡ false
      → (setup_route engine stores s).kind ≢ RouteKind.found
      → Ends
          (λ r.
            (r.state ≡ SetupState.done)
            × (r.actions.removed ≡ s.removed ++ s.call.session.call_id ∷ [])
            × (r.actions.call.session.sent
                ≡ (s.call.session.sent ++ start_of s ∷ [])
                  ++ end_of s (setup_route engine stores s).kind ∷ []))
          (setup_process (setup_actions engine stores) idle requested s)
  unfolding setup_actions
  refused_route_reported s h k l m n =
      let a = setup_actions engine stores in
      let same = setup_route-begin_setup s in
      let p = left-reported (setup_route engine stores s).kind s h k l m n in
      rw (setup_process-refused_route a s (rw same n), same) (refl, p.0, p.1)
