-- ===== src/Tests/Calls.antt =====
-- One call's exchange and its bookkeeping: engine/src/sip/call.
use sbc.Base.Int.{pos}
use sbc.Sm.Types.{caller}
use sbc.Call.Session.{
  CallSession, send_recv, recv_only, send_only, redirects, terminates, session_run,
  hold_timeout_expired, media_is_held, rtp_inactivity_expired, can_send, can_receive,
  answer_direction,
}
use sbc.Call.Session.Hold.{one_timeout_at_most, answer_direction_mirrors}
use sbc.Call.Session.History.{is_end, one_end_at_most}
use sbc.Media.Bridge.{Side}
use sbc.Base.{◌⊎◌, ◌≤◌, some, ◌≡◌, count, none, ℕ, refl, true, false, List, [], ◌∷◌}
use sbc.Sm.OfferAnswer.{awaiting_answer}
use sbc.Sm.OfferAnswer.Trace.{ExchangeCall, traced, offers}
use sbc.Call.Exchange.{Exchange, perform, receives_answer}
use sbc.Call.Exchange.Outcome.{Reports, perform-Reports}
use sbc.Tests.Machines.{exchange_calls}

abbrev waiting_exchange : Exchange (ℕ × List ExchangeCall)
waiting_exchange = record {
  state = awaiting_answer;
  actions = (1, offers ∷ []);
  processing = false;
}

perform-Reports_example :
    let result =
      perform
        (traced exchange_calls)
        (λ s. true)
        (λ s. true)
        (receives_answer "answer")
        waiting_exchange in
    Reports waiting_exchange result.0 result.1
perform-Reports_example =
    perform-Reports exchange_calls (λ s. true) (λ s. true) (receives_answer "answer")
      waiting_exchange refl

abbrev quiet_side : Side
quiet_side = record {
  dest = none;
  flow = record { can_send = true; can_receive = true };
  dtmf_pt = none;
  rx_armed = false;
  receiving = 0;
  sending = 0;
}

abbrev pub answered_call : CallSession ℕ
answered_call = record {
  call_id = "1@192.0.2.1";
  caller_uri = "sip:alice@192.0.2.1";
  request_uri = "sip:bob@sbc.local";
  outbound_destination = "sip:bob@192.0.2.2:5060";
  max_hold_duration_s = pos 60;
  has_sink = true;
  caller_leg = record {
    disconnected = false;
    codec = some (record { payload_type = 0; name = "PCMU"; clock_rate = 8000 });
    dtmf_pt = none;
    media_direction = send_recv;
  };
  callee_leg = record {
    disconnected = false;
    codec = some (record { payload_type = 0; name = "PCMU"; clock_rate = 8000 });
    dtmf_pt = none;
    media_direction = recv_only;
  };
  media_bridge = record {
    a = quiet_side;
    b = record quiet_side { flow = record { can_send = false; can_receive = true } };
    last_packet_time = 0;
    transcode_session = none;
    closing = false;
    loop_start_requested = false;
    loop_started = false;
    posted = [];
  };
  negotiated_offer = "offer";
  negotiated_answer = "answer";
  answered_at = some 5;
  terminated_reported = false;
  hold_started_at = none;
  sent = [];
}

one_timeout_at_most_example :
    let s' = session_run (redirects true 9 caller send_only ∷ []) answered_call in
    (hold_timeout_expired 70000000000 s' ≡ false)
    ⊎ (media_is_held s' ≡ true) × (rtp_inactivity_expired 70000000000 30000000000 s' ≡ false)
one_timeout_at_most_example =
    one_timeout_at_most (redirects true 9 caller send_only ∷ []) answered_call 70000000000
      30000000000 refl

one_end_at_most_example :
    count is_end
      (session_run
        (terminates 8 "Success" none ∷ terminates 9 "Failed" (some "late") ∷ [])
        answered_call).sent
    ≤ 1
one_end_at_most_example =
    one_end_at_most (terminates 8 "Success" none ∷ terminates 9 "Failed" (some "late") ∷ [])
      answered_call refl refl

answer_direction_mirrors_example :
    (can_send (answer_direction send_only) ≡ can_receive send_only)
    × (can_receive (answer_direction send_only) ≡ can_send send_only)
    × (answer_direction (answer_direction send_only) ≡ send_only)
answer_direction_mirrors_example = answer_direction_mirrors send_only
