-- ===== src/Call/Exchange/Outcome.antt =====
-- What one operation of engine/src/sip/call/offer_answer_exchange.cpp reports and leaves behind.
use sbc.Base.{ℕ, ◌+◌, ◌≡◌, ◌≢◌, ◌≤◌, if◌then◌else◌, Bool, true, false, List, count, arith}
use sbc.Sm.Types.{ExchangeOutcome}
use sbc.Sm.Machine.{drain, process_event}
use sbc.Sm.OfferAnswer.{
  done, OfferAnswerActions, ExchangeState, idle, offer_answer_process, offer_answer_table,
}
use sbc.Sm.OfferAnswer.Trace.{
  ExchangeCall, traced, is_commit, is_rollback, is_fail, is_clean, is_done,
}
use sbc.Call.Exchange.{
  Exchange, ExchangeOp, perform, starts, receives_answer, receives_early_answer, rejects, times_out,
  confirms, confirmation_times_out, stops,
}

-- The states in which an exchange rests between two operations.
abbrev is_resting : ExchangeState → Bool
is_resting ExchangeState.relaying_answer = false
is_resting ExchangeState.committed = false
is_resting ExchangeState.rolled_back = false
is_resting ExchangeState.failed = false
is_resting _ = true

abbrev committed? : ExchangeOutcome → ℕ
committed? ExchangeOutcome.committed = 1
committed? _ = 0

abbrev rolled_back? : ExchangeOutcome → ℕ
rolled_back? ExchangeOutcome.rolled_back = 1
rolled_back? _ = 0

abbrev failed? : ExchangeOutcome → ℕ
failed? ExchangeOutcome.failed = 1
failed? _ = 0

abbrev ended? : ExchangeOutcome → ℕ
ended? ExchangeOutcome.pending = 0
ended? _ = 1

-- What an operation that reports `outcome` did to the exchange and to the record of calls.
pub record Reports {S : Type 0} (x : Exchange (S × List ExchangeCall)) (outcome : ExchangeOutcome)
    (x' : Exchange (S × List ExchangeCall)) : Type 0 where
  pub rests : is_resting x'.state ≡ true
  pub idle_again : x'.processing ≡ false
  pub ended : ended? outcome ≤ (if is_done x'.state then 1 else 0)
  pub commits : count is_commit x'.actions.1 ≡ count is_commit x.actions.1 + committed? outcome
  pub rollbacks :
      count is_rollback x'.actions.1 ≡ count is_rollback x.actions.1 + rolled_back? outcome
  pub fails : count is_fail x'.actions.1 ≡ count is_fail x.actions.1 + failed? outcome
  pub cleans : count is_clean x'.actions.1 ≡ count is_clean x.actions.1 + ended? outcome

-- The same, with the last state where the outcome is not pending.
record Leaves {S : Type 0} (x : Exchange (S × List ExchangeCall)) (outcome : ExchangeOutcome)
    (x' : Exchange (S × List ExchangeCall)) : Type 0 where
  pub rests : is_resting x'.state ≡ true
  pub idle_again : x'.processing ≡ false
  pub ended : outcome ≢ ExchangeOutcome.pending → x'.state ≡ done
  pub commits : count is_commit x'.actions.1 ≡ count is_commit x.actions.1 + committed? outcome
  pub rollbacks :
      count is_rollback x'.actions.1 ≡ count is_rollback x.actions.1 + rolled_back? outcome
  pub fails : count is_fail x'.actions.1 ≡ count is_fail x.actions.1 + failed? outcome
  pub cleans : count is_clean x'.actions.1 ≡ count is_clean x.actions.1 + ended? outcome

by_outcome :
    {S : Type 0}
    → (x x' : Exchange (S × List ExchangeCall)) (outcome : ExchangeOutcome) → Leaves x outcome x'
    → Reports x outcome x'
by_outcome x x' ExchangeOutcome.pending l = ground arith
by_outcome x x' ExchangeOutcome.committed l = ground arith
by_outcome x x' ExchangeOutcome.rolled_back l = ground arith
by_outcome x x' ExchangeOutcome.failed l = ground arith

module _ {S : Type 0} (a : OfferAnswerActions S)
    (offer_sent answer_sent : S × List ExchangeCall → Bool) where
  leaves :
      (op : ExchangeOp) (st : ExchangeState) (s : S) (log : List ExchangeCall) (p : Bool)
      → is_resting st ≡ true
      → let x : Exchange (S × List ExchangeCall) = record {
        state = st;
        actions = (s, log);
        processing = p;
      } in
        Leaves x
          (perform (traced a) offer_sent answer_sent op x).0
          (perform (traced a) offer_sent answer_sent op x).1
  unfolding perform traced offer_answer_process offer_answer_table drain process_event
  leaves (starts offer) idle s log p h = ground arith
  leaves (starts offer) _ s log p h = ground arith
  leaves (receives_answer answer) idle s log p h = ground arith
  leaves (receives_answer answer) _ s log p h = ground arith
  leaves (receives_early_answer answer) idle s log p h = ground arith
  leaves (receives_early_answer answer) _ s log p h = ground arith
  leaves (rejects code) idle s log p h = ground arith
  leaves (rejects code) _ s log p h = ground arith
  leaves times_out idle s log p h = ground arith
  leaves times_out _ s log p h = ground arith
  leaves confirms idle s log p h = ground arith
  leaves confirms _ s log p h = ground arith
  leaves confirmation_times_out idle s log p h = ground arith
  leaves confirmation_times_out _ s log p h = ground arith
  leaves stops idle s log p h = ground arith
  leaves stops _ s log p h = ground arith

  -- Every operation on an exchange that rests leaves it at rest and not processing, and reports what
  -- it did: an outcome that is not pending is published once, with one cleanup, and is final; a
  -- pending one has published nothing.
  pub perform-Reports :
      (op : ExchangeOp) (x : Exchange (S × List ExchangeCall))
      → is_resting x.state ≡ true
      → Reports x
          (perform (traced a) offer_sent answer_sent op x).0
          (perform (traced a) offer_sent answer_sent op x).1
  perform-Reports op x h =
      by_outcome x _ _ (leaves op x.state x.actions.0 x.actions.1 x.processing h)
