-- ===== src/Call/DialogCall/Renegotiation.antt =====
-- A re-INVITE or an UPDATE that is refused.
use sbc.Base.{Bool, true, false, ◌⊎◌, inl, inr}
use sbc.Sm.Types.{ExchangeOutcome}
use sbc.Call.Legs.{Call}
use sbc.Call.MidDialog.{NegotiatedOffer}
use sbc.Call.DialogCall.{DialogCall}

abbrev pub is_rolled_back : ExchangeOutcome → Bool
is_rolled_back ExchangeOutcome.rolled_back = true
is_rolled_back _ = false

abbrev was_rolled_back : ExchangeOutcome ⊎ NegotiatedOffer → Bool
was_rolled_back (inl outcome) = is_rolled_back outcome
was_rolled_back (inr n) = false
