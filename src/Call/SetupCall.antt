-- ===== src/Call/SetupCall.antt =====
-- A call in setup: engine/src/sip/call/setup_actions.cpp as an implementation of the setup
-- machine's interface, and its leg-state callback. The exchange in `exchange` works on the call by
-- reference: an operation takes the call from here and puts it back. `queued` and `removed` are
-- what the call manager was asked for.
pub mod Callbacks
pub mod Failure
pub mod Progress
pub mod Ending
use sbc.Base.{
  ℕ, String, concat, Bool, true, not, ◌&&◌, ◌||◌, if◌then◌else◌, ◌==◌, Option, none, some, List, [],
  ◌∷◌, ◌++◌, map, str_eq,
}
use sbc.Protocols.{SupportedCodec}
use sbc.Sdp.{SdpSession, parse}
use sbc.Sdp.Codecs.{AudioCodecInfo, extract_all_audio_codecs}
use sbc.Sm.Types.{is_pending, ExchangeOutcome}
use sbc.Sm.Setup.{SetupActions, RouteResolution}
use sbc.Routing.Resolve.{Stores, resolve_route}
use sbc.Media.Bridge.{close}
use sbc.Call.Session.{report_call_started, report_call_answered, report_call_terminated}
use sbc.Call.Exchange.{Exchange, ExchangeOp, perform, new_exchange, starts, stops}
use sbc.Call.Invite.{is_gone, answer, answer_request, end_session}
use sbc.Call.Legs.{ReplacementTarget, Call, Engine, answer_caller, end_both, with_bridge}
use sbc.Call.Answering.{
  Answering, new_answering, offer_answer_actions, mark_early_media_relayed, is_some,
}

-- `CallStatus`.
abbrev pub failed_status : String
failed_status = "Failed"

abbrev pub no_route_available : String
no_route_available = "No Route Available"

pub record SetupCall (Session Inv : Type 0) : Type 0 where
  pub call : Call Session Inv
  pub exchange : Option (Exchange (Answering Session Inv))
  pub last_relayed_status_code : ℕ
  pub failure_status : String
  pub failure_reason : String
  pub queued : List (String × Bool)
  pub removed : List String

abbrev pub new_setup : {Session Inv : Type 0} → Call Session Inv → SetupCall Session Inv
new_setup c = record {
  call = c;
  exchange = none;
  last_relayed_status_code = 0;
  failure_status = failed_status;
  failure_reason = "";
  queued = [];
  removed = [];
}

-- Ringing, unless the callee sent a session progress.
unfoldable pub mirrored_progress_code : ℕ → ℕ
mirrored_progress_code status_code = if status_code == 183 then 183 else 180

abbrev some_text : String → Option String
some_text text = if str_eq text "" then none else some text

-- The session to be replaced, as the manager queues it.
abbrev queue_replaced : Option ReplacementTarget → List (String × Bool) → List (String × Bool)
queue_replaced none q = q
queue_replaced (some t) q = q ++ (t.replaced_session_id, t.matched_dialog_is_uac) ∷ []

module _ {Session Inv : Type 0} where
  -- Only the first failure is kept.
  unfoldable pub note_failure : String → String → SetupCall Session Inv → SetupCall Session Inv
  note_failure status reason s =
      if str_eq s.failure_reason ""
      then record s { failure_status = status; failure_reason = reason }
      else s

  abbrev pub fail_setup : String → SetupCall Session Inv → SetupCall Session Inv
  fail_setup reason s = note_failure failed_status reason s

  unfoldable pub is_new_progress : ℕ → Bool → SetupCall Session Inv → Bool
  unfolding mirrored_progress_code
  is_new_progress status_code has_early_answer s =
      let unrelayed : Bool = elim s.exchange [
        | none ↦ true
        | some x ↦ not x.actions.early_media_relayed
      ] in
      (has_early_answer && unrelayed)
      || not (mirrored_progress_code status_code == s.last_relayed_status_code)

  unfoldable pub held_answer : SetupCall Session Inv → Option SdpSession
  held_answer s = elim s.exchange [ none ↦ none | some x ↦ x.actions.held_caller_answer ]

module _ {Session Inv Tx Dlg : Type 0} (engine : Engine Session Inv Tx Dlg) (stores : Stores) where
  abbrev reply : ℕ → SetupCall Session Inv → SetupCall Session Inv
  reply code s = record s { call = (answer_caller engine code none s.call).1 }

  -- An operation of the exchange, where there is one.
  unfoldable pub on_exchange :
      ExchangeOp → SetupCall Session Inv → ExchangeOutcome × SetupCall Session Inv
  unfolding perform offer_answer_actions
  on_exchange op s = elim s.exchange [
    | none ↦ (ExchangeOutcome.pending, s)
    | some x ↦
        let (outcome, x') =
          perform (offer_answer_actions engine) (λ t. t.offer_sent) (λ t. t.answer_sent) op
            (record x { actions = record x.actions { call = s.call } }) in
        (outcome, record s { exchange = some x'; call = x'.actions.call })
  ]

  unfoldable pub begin_setup : SetupCall Session Inv → SetupCall Session Inv
  unfolding report_call_started answer_request
  begin_setup s =
      let c = s.call in
      record s {
        call = record c {
          session = report_call_started c.session;
          inv_caller =
              (answer_request engine.pjsip (is_some c.current_rdata) 100 none c.inv_caller).1;
        };
      }

  -- The names of the codecs that the caller offers.
  abbrev offered_names : SetupCall Session Inv → List String
  offered_names s = elim (parse engine.pjmedia s.call.caller_offer_sdp) [
    | none ↦ []
    | some sdp ↦ map (λ (i : AudioCodecInfo). i.name) (extract_all_audio_codecs engine.pjmedia sdp)
  ]

  unfoldable pub setup_route : SetupCall Session Inv → RouteResolution
  unfolding resolve_route parse extract_all_audio_codecs
  setup_route s =
      resolve_route engine.print_int stores
        (record { local_ip = engine.config.local_ip; sip_port = engine.config.sip_port }) engine.now
        (offered_names s) s.call.session.request_uri

  unfoldable pub route_failed : SetupCall Session Inv → SetupCall Session Inv
  unfolding note_failure answer
  route_failed s = reply 480 (
      note_failure no_route_available (concat "no route available for " s.call.session.request_uri)
        s)

  unfoldable pub routing_loop_detected : SetupCall Session Inv → SetupCall Session Inv
  unfolding note_failure answer
  routing_loop_detected s = reply 482 (fail_setup "routing loop detected" s)

  unfoldable pub codec_mismatch_detected : SetupCall Session Inv → SetupCall Session Inv
  unfolding note_failure answer
  codec_mismatch_detected s = reply 488 (fail_setup "no codec in common with the route" s)

  -- An exchange that ends at once is released at once.
  unfoldable pub start_exchange :
      String
      → Option SupportedCodec
      → SetupCall Session Inv
      → ExchangeOutcome × SetupCall Session Inv
  unfolding on_exchange new_exchange new_answering is_pending
  start_exchange destination required_codec s = elim s.exchange [
    | some _ ↦ (ExchangeOutcome.failed, s)
    | none ↦
        let (outcome, s') = on_exchange (starts s.call.caller_offer_sdp) (record s {
          exchange = some (new_exchange (new_answering destination required_codec s.call));
        }) in
        (outcome, if is_pending outcome then s' else record s' { exchange = none })
  ]

  -- `mark_early_media_relayed` of the exchange in place.
  abbrev mark_relayed : SetupCall Session Inv → SetupCall Session Inv
  mark_relayed s = elim s.exchange [
    | none ↦ s
    | some x ↦
        let marked = mark_early_media_relayed engine (record x.actions { call = s.call }) in
        record s { exchange = some (record x { actions = marked }); call = marked.call }
  ]

  unfoldable pub report_progress : ℕ → Bool → SetupCall Session Inv → SetupCall Session Inv
  unfolding answer held_answer mirrored_progress_code mark_early_media_relayed
  report_progress status_code has_early_answer s =
      let early_sdp = if has_early_answer then held_answer s else none in
      elim early_sdp [
        | some sdp ↦
            let (ok, c) = answer_caller engine 183 (some sdp) s.call in
            if ok
            then record (mark_relayed (record s { call = c })) { last_relayed_status_code = 183 }
            else record s { call = c }
        | none ↦
            let code = mirrored_progress_code status_code in
            record (reply code s) { last_relayed_status_code = code }
      ]

  -- `stop` and `release_exchange`.
  unfoldable pub drop_exchange : SetupCall Session Inv → SetupCall Session Inv
  unfolding on_exchange
  drop_exchange s = record (on_exchange stops s).1 { exchange = none }

  unfoldable pub cancel_call : SetupCall Session Inv → Bool × SetupCall Session Inv
  unfolding note_failure drop_exchange end_session is_gone
  cancel_call s =
      let stopped = drop_exchange (fail_setup "caller cancelled the call" s) in
      let ended = end_both engine 487 stopped.call in
      (is_gone engine.pjsip ended.inv_callee, record stopped { call = ended })

  unfoldable pub establish_call : SetupCall Session Inv → SetupCall Session Inv
  unfolding report_call_answered
  establish_call s = record s {
    call = record s.call { session = report_call_answered engine.now s.call.session };
    queued = queue_replaced s.call.replacement_target s.queued;
  }

  unfoldable pub terminate_call : SetupCall Session Inv → SetupCall Session Inv
  unfolding note_failure drop_exchange end_session
  terminate_call s =
      let stopped = drop_exchange (fail_setup "call setup failed" s) in
      record stopped { call = end_both engine 408 stopped.call }

  unfoldable pub cleanup : SetupCall Session Inv → SetupCall Session Inv
  unfolding report_call_terminated close
  cleanup s = record s {
    call = with_bridge close (record s.call {
      session =
          report_call_terminated engine.now s.failure_status (some_text s.failure_reason)
            s.call.session;
    });
    removed = s.removed ++ s.call.session.call_id ∷ [];
  }

  -- The interface, filled.
  unfoldable pub setup_actions : SetupActions (SetupCall Session Inv)
  unfolding begin_setup setup_route route_failed routing_loop_detected codec_mismatch_detected
      start_exchange report_progress is_new_progress cancel_call establish_call terminate_call
      cleanup
  setup_actions = record {
    begin_setup = begin_setup;
    resolve_route = λ s. (setup_route s, s);
    route_failed = route_failed;
    routing_loop_detected = routing_loop_detected;
    codec_mismatch_detected = codec_mismatch_detected;
    start_exchange = start_exchange;
    report_progress = report_progress;
    is_new_progress = is_new_progress;
    cancel_call = cancel_call;
    establish_call = establish_call;
    terminate_call = terminate_call;
    cleanup = cleanup;
  }
