-- ===== src/Sm/Types.antt =====
-- The types that the state machines share: engine/src/sip/sm/leg.hpp and events.hpp.
use sbc.Base.{Bool}

-- Which side of the call an event or a piece of state belongs to.
pub data Leg : Type 0 where
  caller callee : Leg

unfoldable pub other : Leg → Leg
other caller = callee
other callee = caller

pub data ExchangeOutcome : Type 0 where
  pending committed rolled_back failed : ExchangeOutcome

pub data ReferOutcome : Type 0 where
  succeeded failed : ReferOutcome

pub data TerminationReason : Type 0 where
  engine_requested replaced hold_timeout rtp_inactivity media_negotiation_failed : TerminationReason

-- A test of the guards and of the callers: has the exchange ended?
unfoldable pub is_pending : ExchangeOutcome → Bool
is_pending ExchangeOutcome.pending = Bool.true
is_pending ExchangeOutcome.committed = Bool.false
is_pending ExchangeOutcome.rolled_back = Bool.false
is_pending ExchangeOutcome.failed = Bool.false
