-- ===== src/Tests/Legs.antt =====
-- A small PJSIP, and the theorems on the two legs of a call with it.
use sbc.Base.{ℕ, ◌≤◌, ◌≡◌, refl, Bool, true, false, none, some, List, [], ◌∷◌, arith, ap}
use sbc.Sm.Types.{caller, callee}
use sbc.Sm.Machine.{Ends}
use sbc.Sm.Setup.{
  RouteKind, SetupState, idle, requested, negotiating, ringing, progress_received, setup_process,
}
use sbc.Sm.Dialog.{active, dialog_done}
use sbc.Sm.OfferAnswer.{awaiting_answer}
use sbc.Routing.Resolve.{Stores}
use sbc.Call.Session.{CallSession}
use sbc.Call.Exchange.{
  Exchange, starts, receives_early_answer, receives_answer, confirms, new_exchange,
}
use sbc.Call.Invite.{InvState, Pjsip, disconnected, answer}
use sbc.Call.Invite.Replied.{sent_count}
use sbc.Call.Legs.{Call, Engine}
use sbc.Call.Answering.{Answering, new_answering, mark_early_media_relayed, offer_answer_actions}
use sbc.Call.Answering.Replies.{ExchangeUse, drives, marks, perform_all}
use sbc.Call.Answering.Once.{exchange_replies_once}
use sbc.Call.SetupCall.{
  SetupCall, new_setup, setup_actions, setup_route, report_progress, held_answer,
}
use sbc.Call.SetupCall.Callbacks.{SetupRun, Received, on_leg_state_changed as setup_callback}
use sbc.Call.SetupCall.Failure.{refused_route_reported, start_of, end_of}
use sbc.Call.SetupCall.Progress.{early_answer_relayed_again}
use sbc.Call.SetupCall.Ending.{callee_gone_finishes_setup}
use sbc.Call.DialogCall.{DialogCall, ReferHandler}
use sbc.Call.DialogCall.Callbacks.{DialogRun, bind, on_leg_state_changed as dialog_callback}
use sbc.Call.DialogCall.Hangup.{both_legs_gone_finishes_call}
use sbc.Router.Callbacks.{CallRun, on_rx_offer}
use sbc.Router.Callbacks.Updates.{on_rx_offer_unwedged, is_unwedged}
use sbc.Tests.Negotiations.{pjmedia, caller_offer}
use sbc.Tests.Calls.{answered_call}

-- A message is its code, and is always sent.
abbrev pjsip : Pjsip InvState ℕ ℕ
pjsip = record {
  state = λ inv. inv;
  inv_answer = λ code sdp inv. (some code, inv);
  inv_initial_answer = λ code sdp inv. (some code, inv);
  inv_end_session = λ code inv. (some code, inv);
  inv_invite = λ inv. (some 0, InvState.calling);
  inv_send_msg = λ code inv. (true, inv);
  requires_100rel = λ inv. false;
  has_neg = λ inv. true;
  active_local = λ inv. some caller_offer;
  active_remote = λ inv. some caller_offer;
  set_sdp_answer = λ sdp inv. (true, inv);
  put_body = λ sdp code. some code;
  headers = λ code. record { max_forwards = none; require = []; replaces = [] };
  put_headers = λ headers code. code;
  dlg_create_uac = λ local contact remote target. some 0;
  inv_create_uac = λ dlg sdp. some InvState.null;
  dlg_add_usage = λ inv. true;
}

abbrev engine : Engine ℕ InvState ℕ ℕ
engine = record {
  pjmedia = pjmedia;
  pjsip = pjsip;
  config = record { identity_user = "sbc"; local_ip = "192.0.2.9"; sip_port = 5060 };
  bind_leg = λ leg. some 4000;
  has_pjmedia_endpoint = true;
  open_session = λ a b. some 0;
  print_int = λ n. "5060";
  now = 7;
}

abbrev fresh_session : CallSession ℕ
fresh_session = record answered_call { answered_at = none }

abbrev new_call : Call ℕ InvState
new_call = record {
  session = fresh_session;
  inv_caller = some (record { inv = InvState.incoming; sent = [] });
  inv_callee = none;
  leg_a_port = none;
  leg_b_port = none;
  caller_display_name = "";
  caller_offer_sdp = "offer";
  current_rdata = some (record { max_forwards = none });
  replacement_target = none;
}

abbrev answering : List ExchangeUse
answering =
    drives (starts "offer")
    ∷ drives (receives_early_answer "answer")
    ∷ marks
    ∷ drives (receives_answer "answer")
    ∷ drives confirms
    ∷ []

exchange_replies_once_example :
    sent_count
      (perform_all
        (offer_answer_actions engine)
        (λ s. s.offer_sent)
        (λ s. s.answer_sent)
        (mark_early_media_relayed engine)
        answering
        (new_exchange
          (new_answering "sip:bob@192.0.2.2:5060" none new_call))).actions.call.inv_caller
    ≤ 1
exchange_replies_once_example =
    exchange_replies_once engine "sip:bob@192.0.2.2:5060" none new_call answering

abbrev no_stores : Stores
no_stores = record { users = none; bindings = none; routes = none }

abbrev routeless : SetupCall ℕ InvState
routeless = new_setup new_call

no_route : (setup_route engine no_stores routeless).kind ≡ RouteKind.failed
unfolding setup_route
no_route = refl

abbrev is_found : RouteKind → Bool
is_found RouteKind.found = true
is_found _ = false

refused_route_reported_example :
    Ends
      (λ r.
        (r.state ≡ SetupState.done)
        × (r.actions.removed ≡ "1@192.0.2.1" ∷ [])
        × (r.actions.call.session.sent
            ≡ start_of routeless
              ∷ end_of routeless (setup_route engine no_stores routeless).kind
              ∷ []))
      (setup_process (setup_actions engine no_stores) idle requested routeless)
refused_route_reported_example =
    refused_route_reported engine no_stores routeless refl refl refl refl
      (λ e. ground (arith, ap is_found e, ap is_found no_route))

abbrev waiting : Exchange (Answering ℕ InvState)
waiting = record {
  state = awaiting_answer;
  actions = record {
    destination = "sip:bob@192.0.2.2:5060";
    required_codec = none;
    offer = "offer";
    answer = "";
    held_caller_answer = some caller_offer;
    offer_sent = true;
    answer_sent = false;
    early_media_relayed = false;
    call = new_call;
  };
  processing = false;
}

abbrev negotiating_call : SetupRun ℕ InvState
negotiating_call = record {
  state = negotiating;
  actions = record routeless { exchange = some waiting };
}

abbrev nothing_received : Received
nothing_received = record { sdp = ""; status_code = 0 }

callee_gone_finishes_setup_example :
    Ends
      (λ t. t.state ≡ SetupState.done)
      (setup_callback engine no_stores false callee disconnected 486 nothing_received
        negotiating_call)
callee_gone_finishes_setup_example =
    callee_gone_finishes_setup engine no_stores 486 nothing_received negotiating_call waiting refl
      refl refl

relayed_183 : (answer pjsip 183 (some caller_offer) new_call.inv_caller).0 ≡ true
unfolding answer
relayed_183 = refl

early_answer_relayed_again_example :
    let first = report_progress engine no_stores 180 true negotiating_call.actions in
    let again = answer pjsip 183 (some caller_offer) first.call.inv_caller in
    Ends
      (λ t. (t.state ≡ ringing) × (t.actions ≡ first))
      (setup_process
        (setup_actions engine no_stores)
        negotiating
        (progress_received 180 true)
        negotiating_call.actions)
    × Ends
        (λ t. (t.state ≡ ringing) × (t.actions.call.inv_caller ≡ again.1))
        (setup_process (setup_actions engine no_stores) ringing (progress_received 180 true) first)
unfolding held_answer
early_answer_relayed_again_example =
    early_answer_relayed_again engine no_stores 180 caller_offer negotiating_call.actions refl
      relayed_183

abbrev refer : ReferHandler (DialogCall ℕ InvState)
refer = record { start = λ leg s. (true, s); busy = λ s. s; stop_subscriptions = λ s. s }

abbrev talking : DialogRun ℕ InvState
talking = record {
  state = active;
  actions = record {
    call = record new_call { session = answered_call };
    has_pending_request = true;
    offerless_caller = false;
    offerless_callee = false;
    result_delivered = false;
    established = true;
    removed = [];
  };
}

both_legs_gone_finishes_call_example :
    Ends
      (λ t.
        (t.state ≡ dialog_done)
        × (t.actions.removed ≡ "1@192.0.2.1" ∷ [])
        × (t.actions.call.session.terminated_reported ≡ true))
      (bind
        (dialog_callback engine refer caller disconnected 200 "" talking)
        (dialog_callback engine refer callee disconnected 200 ""))
both_legs_gone_finishes_call_example =
    both_legs_gone_finishes_call engine refer caller callee 200 200 "" "" talking refl

-- A call whose early answer went out, and its dialog.
abbrev early_call : CallRun ℕ InvState
early_call = record {
  setup = record {
    state = negotiating;
    actions = record routeless {
      exchange =
          some (record waiting { actions = record waiting.actions { early_media_relayed = true } });
    };
  };
  dialog = talking;
}

on_rx_offer_unwedged_example :
    Ends
      (λ t. is_unwedged t ≡ true)
      (on_rx_offer engine refer no_stores "UPDATE" caller (some "broken") early_call)
on_rx_offer_unwedged_example =
    on_rx_offer_unwedged engine refer no_stores "UPDATE" caller (some "broken") early_call refl refl
