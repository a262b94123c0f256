-- ===== src/Sm/OfferAnswer.antt =====
-- The offer/answer machine: engine/src/sip/sm/offer_answer_sm.hpp over the interface of
-- i_offer_answer_actions.hpp and the events of offer_answer_events.hpp.
pub mod Trace
use sbc.Base.{ℕ, String, Bool, true, false, if◌then◌else◌, Option, none, some, List, [], ◌∷◌}
use sbc.Sm.Machine.{Taken, Table, Settled, process_event}

pub data Reason : Type 0 where
  unusable_offer offer_relay_failed rejected answer_timeout : Reason
  unusable_answer answer_relay_failed ack_timeout stopped : Reason

pub record OfferAnswerActions (S : Type 0) : Type 0 where
  pub offer_usable : String → S → Bool
  pub answer_usable : String → S → Bool
  pub needs_ack : S → Bool
  pub relay_offer : String → S → S
  pub relay_answer : String → S → S
  pub reject_offer : Reason → S → S
  pub relay_rejection : ℕ → S → S
  pub hold_answer : String → S → S
  pub release_answer : S → S
  pub commit : S → S
  pub rollback : Reason → S → S
  pub fail : Reason → S → S
  pub cleanup : S → S

pub data ExchangeState : Type 0 where
  idle awaiting_answer answer_held relaying_answer awaiting_ack : ExchangeState
  committed rolled_back failed done : ExchangeState

pub data ExchangeEvent : Type 0 where
  offer_received : String → ExchangeEvent
  answer_received : String → ExchangeEvent
  early_answer_received : String → ExchangeEvent
  offer_relay_failed : ExchangeEvent
  answer_relay_succeeded : ExchangeEvent
  answer_relay_failed : ExchangeEvent
  answer_rejected : ℕ → ExchangeEvent
  answer_timeout : ExchangeEvent
  ack_received : ExchangeEvent
  ack_timeout : ExchangeEvent
  stop_exchange : ExchangeEvent
  cleanup : ExchangeEvent

module _ {S : Type 0} (a : OfferAnswerActions S) where
  abbrev go : ExchangeState → S → Option (Taken ExchangeState ExchangeEvent S)
  go st s = some (record { state = st; actions = s; posted = [] })

  -- The lambdas `invalid_offer`, `offer_failed` and `answer_timeout`.
  unfoldable reject : Reason → S → Option (Taken ExchangeState ExchangeEvent S)
  reject reason s = go rolled_back (a.rollback reason (a.reject_offer reason s))

  unfoldable relay_rejected : ℕ → S → Option (Taken ExchangeState ExchangeEvent S)
  relay_rejected code s = go rolled_back (a.rollback Reason.rejected (a.relay_rejection code s))

  unfoldable pub stop : S → Option (Taken ExchangeState ExchangeEvent S)
  stop s = go rolled_back (a.rollback stopped s)

  unfoldable fail_exchange : Reason → S → Option (Taken ExchangeState ExchangeEvent S)
  fail_exchange reason s = go failed (a.fail reason s)

  -- The transition table; two guarded rows are one clause with a test.
  unfoldable pub offer_answer_table : Table ExchangeState ExchangeEvent S
  unfolding reject relay_rejected stop fail_exchange
  offer_answer_table idle (offer_received sdp) s =
      if a.offer_usable sdp s
      then go awaiting_answer (a.relay_offer sdp s)
      else reject unusable_offer s
  offer_answer_table idle stop_exchange s = stop s
  offer_answer_table awaiting_answer ExchangeEvent.offer_relay_failed s =
      reject Reason.offer_relay_failed s
  offer_answer_table awaiting_answer (answer_received sdp) s =
      if a.answer_usable sdp s
      then go relaying_answer (a.relay_answer sdp s)
      else fail_exchange unusable_answer s
  offer_answer_table awaiting_answer (early_answer_received sdp) s =
      if a.answer_usable sdp s
      then go answer_held (a.hold_answer sdp s)
      else fail_exchange unusable_answer s
  offer_answer_table awaiting_answer (answer_rejected code) s = relay_rejected code s
  offer_answer_table awaiting_answer ExchangeEvent.answer_timeout s = reject Reason.answer_timeout s
  offer_answer_table awaiting_answer stop_exchange s = stop s
  offer_answer_table answer_held (answer_received sdp) s = go relaying_answer (a.release_answer s)
  offer_answer_table answer_held (answer_rejected code) s = relay_rejected code s
  offer_answer_table answer_held ExchangeEvent.answer_timeout s = reject Reason.answer_timeout s
  offer_answer_table answer_held stop_exchange s = stop s
  offer_answer_table relaying_answer answer_relay_succeeded s =
      if a.needs_ack s then go awaiting_ack s else go committed (a.commit s)
  offer_answer_table relaying_answer ExchangeEvent.answer_relay_failed s =
      fail_exchange Reason.answer_relay_failed s
  offer_answer_table relaying_answer stop_exchange s = stop s
  offer_answer_table awaiting_ack ack_received s = go committed (a.commit s)
  offer_answer_table awaiting_ack ExchangeEvent.ack_timeout s = fail_exchange Reason.ack_timeout s
  offer_answer_table awaiting_ack ExchangeEvent.answer_relay_failed s =
      fail_exchange Reason.answer_relay_failed s
  offer_answer_table awaiting_ack stop_exchange s = stop s
  offer_answer_table committed ExchangeEvent.cleanup s = go done (a.cleanup s)
  offer_answer_table rolled_back ExchangeEvent.cleanup s = go done (a.cleanup s)
  offer_answer_table failed ExchangeEvent.cleanup s = go done (a.cleanup s)
  offer_answer_table _ _ s = none

  -- No action of this machine fires an event.
  unfoldable pub offer_answer_process :
      ExchangeState → ExchangeEvent → S → Option (Settled ExchangeState S)
  unfolding offer_answer_table process_event
  offer_answer_process st e s = process_event offer_answer_table 0 st e s
