-- ===== src/Sm/OfferAnswer/Trace.antt =====
-- What one exchange of engine/src/sip/sm/offer_answer_sm.hpp calls over its life, for every
-- implementation of its actions: the calls are recorded beside the implementation's own state.
use sbc.Base.{◌+◌, ◌≡◌, ◌≤◌, Bool, true, false, if◌then◌else◌, List, [], ◌∷◌, count, arith}
use sbc.Sm.Machine.{Ends, drain, process_event, run, run-Ends}
use sbc.Sm.OfferAnswer.{
  OfferAnswerActions, ExchangeState, ExchangeEvent, idle, relaying_answer, awaiting_ack, committed,
  rolled_back, failed, done, offer_answer_table,
}

-- The calls that are counted: the offer and the answer that are sent on, an answer that is held
-- back, an error reply to the offerer, the three outcomes, and the cleanup.
pub data ExchangeCall : Type 0 where
  offers answers holds replies commits rolls_back fails cleans : ExchangeCall

abbrev is_offer : ExchangeCall → Bool
is_offer offers = true
is_offer _ = false

abbrev is_answer : ExchangeCall → Bool
is_answer answers = true
is_answer _ = false

abbrev is_reply : ExchangeCall → Bool
is_reply answers = true
is_reply replies = true
is_reply _ = false

abbrev pub is_commit : ExchangeCall → Bool
is_commit commits = true
is_commit _ = false

abbrev pub is_rollback : ExchangeCall → Bool
is_rollback rolls_back = true
is_rollback _ = false

abbrev pub is_fail : ExchangeCall → Bool
is_fail fails = true
is_fail _ = false

abbrev pub is_clean : ExchangeCall → Bool
is_clean cleans = true
is_clean _ = false

-- The given actions, with a record of the counted calls.
unfoldable pub traced :
    {S : Type 0} → OfferAnswerActions S → OfferAnswerActions (S × List ExchangeCall)
traced a = record {
  offer_usable = λ d s. a.offer_usable d s.0;
  answer_usable = λ d s. a.answer_usable d s.0;
  needs_ack = λ s. a.needs_ack s.0;
  relay_offer = λ d s. (a.relay_offer d s.0, offers ∷ s.1);
  relay_answer = λ d s. (a.relay_answer d s.0, answers ∷ s.1);
  reject_offer = λ r s. (a.reject_offer r s.0, replies ∷ s.1);
  relay_rejection = λ c s. (a.relay_rejection c s.0, replies ∷ s.1);
  hold_answer = λ d s. (a.hold_answer d s.0, holds ∷ s.1);
  release_answer = λ s. (a.release_answer s.0, answers ∷ s.1);
  commit = λ s. (a.commit s.0, commits ∷ s.1);
  rollback = λ r s. (a.rollback r s.0, rolls_back ∷ s.1);
  fail = λ r s. (a.fail r s.0, fails ∷ s.1);
  cleanup = λ s. (a.cleanup s.0, cleans ∷ s.1);
}

abbrev is_idle : ExchangeState → Bool
is_idle idle = true
is_idle _ = false

abbrev pub is_done : ExchangeState → Bool
is_done done = true
is_done _ = false

-- The exchange has ended.
abbrev is_final : ExchangeState → Bool
is_final committed = true
is_final rolled_back = true
is_final failed = true
is_final done = true
is_final _ = false

-- The answer has been sent on.
abbrev is_answered : ExchangeState → Bool
is_answered relaying_answer = true
is_answered awaiting_ack = true
is_answered committed = true
is_answered _ = false

-- How the calls made so far fit the state.
pub record Accounts (st : ExchangeState) (log : List ExchangeCall) : Type 0 where
  pub offered : count is_offer log ≤ (if is_idle st then 0 else 1)
  pub replied : count is_reply log ≤ (if is_answered st then 1 else if is_final st then 1 else 0)
  pub answered : (if is_answered st then 1 else 0) ≤ count is_answer log
  pub relayed : count is_answer log ≤ count is_reply log
  pub confirmed : count is_commit log ≤ count is_answer log
  pub published :
      count is_commit log + count is_rollback log + count is_fail log
      ≡ (if is_final st then 1 else 0)
  pub cleaned_once : count is_clean log ≡ (if is_done st then 1 else 0)

module _ {S : Type 0} (a : OfferAnswerActions S) where
  step-Accounts :
      (st : ExchangeState) (e : ExchangeEvent) (s : S × List ExchangeCall)
      → Accounts st s.1
      → Ends
          (λ r. Accounts r.state r.actions.1)
          (process_event (offer_answer_table (traced a)) 0 st e s)
  unfolding offer_answer_table drain process_event traced
  step-Accounts st e s h = ground arith

  -- Whatever events an exchange gets from its start, there is a result, and its calls fit its state: one
  -- offer and one reply to the offerer at most, an answer before a commit, one outcome and one cleanup.
  pub exchange_run-Accounts :
      (s : S) (es : List ExchangeEvent)
      → Ends
          (λ r. Accounts r.state r.actions.1)
          (run (offer_answer_table (traced a)) 0 idle (s, []) es)
  exchange_run-Accounts s es =
      run-Ends (offer_answer_table (traced a)) 0 (λ st s. Accounts st s.1) step-Accounts idle
        (s, []) es (ground arith)
