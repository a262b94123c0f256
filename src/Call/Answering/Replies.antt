-- ===== src/Call/Answering/Replies.antt =====
-- How often an exchange replies to the offerer, for every behaviour of PJSIP and PJMEDIA.
use sbc.Base.{
  inr, inl, Bool-cases, refl, ap, Option, none, some, List, [], ◌∷◌, ℕ, Bool-cases, inl, inr, not,
  ◌+◌, ◌≤◌, ◌≡◌, String, Bool, true, false, if◌then◌else◌, List, [], ◌∷◌, arith,
}
use sbc.Sm.Types.{ExchangeOutcome}
use sbc.Sm.Machine.{Settled, Ends, drain, process_event}
use sbc.Sm.OfferAnswer.{
  OfferAnswerActions, Reason, ExchangeState, idle, awaiting_answer, answer_held, awaiting_ack,
  relaying_answer, ExchangeEvent, offer_received, answer_received, early_answer_received,
  answer_relay_succeeded, answer_rejected, ack_received, stop_exchange, offer_answer_process,
  offer_answer_table,
}
use sbc.Call.Exchange.{
  finish_operation, outcome_of, apply, start, receive_answer, receive_early_answer, perform,
  new_exchange, starts, receives_answer, receives_early_answer, rejects, times_out, confirms,
  confirmation_times_out, stops, Exchange, dispatch, ExchangeOp, mark_early_media_relayed,
}

-- Every public operation.
pub data ExchangeUse : Type 0 where
  drives : ExchangeOp → ExchangeUse
  marks : ExchangeUse

abbrev pub use_exchange :
    {S : Type 0}
    → OfferAnswerActions S
    → (S → Bool)
    → (S → Bool)
    → (S → S)
    → ExchangeUse
    → Exchange S
    → Exchange S
use_exchange a offer_sent answer_sent mark (drives op) x = (perform a offer_sent answer_sent op x).1
use_exchange a offer_sent answer_sent mark marks x = mark_early_media_relayed mark x

-- Operations in turn.
abbrev pub perform_all :
    {S : Type 0}
    → OfferAnswerActions S
    → (S → Bool)
    → (S → Bool)
    → (S → S)
    → List ExchangeUse
    → Exchange S
    → Exchange S
perform_all a offer_sent answer_sent mark [] x = x
perform_all a offer_sent answer_sent mark (op ∷ ops) x =
    perform_all a offer_sent answer_sent mark ops (use_exchange a offer_sent answer_sent mark op x)

-- No answer was relayed yet.
abbrev is_unanswered : ExchangeState → Bool
is_unanswered idle = true
is_unanswered awaiting_answer = true
is_unanswered answer_held = true
is_unanswered _ = false

abbrev is_awaiting_ack : ExchangeState → Bool
is_awaiting_ack awaiting_ack = true
is_awaiting_ack _ = false

-- What the actions of an exchange do to the count of replies, `answer_sent` and whether the offerer
-- is gone.
module _ {S : Type 0} (a : OfferAnswerActions S) (replies : S → ℕ)
    (answer_sent gone : S → Bool) where
  -- An action that sends nothing.
  abbrev IsSilent : (S → S) → Type 0
  IsSilent f = (s : S) → (replies (f s) ≡ replies s) × (answer_sent (f s) ≡ answer_sent s)

  -- An action that relays the answer, once.
  abbrev IsRelay : (S → S) → Type 0
  IsRelay f =
      (s : S)
      → answer_sent s ≡ false
      → (replies (f s) ≤ replies s + 1)
        × ((if answer_sent (f s) then 0 else if gone (f s) then 0 else replies (f s)) ≤ replies s)

  abbrev IsReply : (S → S) → Type 0
  IsReply f = (s : S) → replies (f s) ≤ replies s + 1

  pub record RepliesOnce : Type 0 where
    pub relay_offer : (sdp : String) → IsSilent (a.relay_offer sdp)
    pub hold_answer : (sdp : String) → IsSilent (a.hold_answer sdp)
    pub commit : IsSilent a.commit
    pub rollback : (r : Reason) → IsSilent (a.rollback r)
    pub cleanup : IsSilent a.cleanup
    pub relay_answer : (sdp : String) → IsRelay (a.relay_answer sdp)
    pub release_answer : IsRelay a.release_answer
    pub reject_offer : (r : Reason) → IsReply (a.reject_offer r)
    pub relay_rejection : (code : ℕ) → IsReply (a.relay_rejection code)
    pub fail : (r : Reason) → IsReply (a.fail r)
    pub fail_answered :
        (r : Reason) (s : S) → (if answer_sent s then replies (a.fail r s) else 0) ≤ replies s
    pub fail_gone : (r : Reason) (s : S) → (if gone s then replies (a.fail r s) else 0) ≤ replies s

abbrev is_relaying : ExchangeState → Bool
is_relaying relaying_answer = true
is_relaying _ = false

-- The replies of an exchange that began with `n`, in every state of its machine.
pub record Bounded (n : ℕ) (st : ExchangeState) (replies : ℕ) (answer_sent gone : Bool)
    : Type 0 where
  pub bound : replies ≤ (if is_unanswered st then n else n + 1)
  pub fresh : (if is_unanswered st then answer_sent else false) ≡ false
  pub acked : (if is_awaiting_ack st then answer_sent else true) ≡ true
  pub refused :
      (if is_relaying st then (if answer_sent then 0 else if gone then 0 else replies) else 0) ≤ n

module _ {S : Type 0} (a : OfferAnswerActions S) (replies : S → ℕ) (answer_sent gone : S → Bool)
    (laws : RepliesOnce a replies answer_sent gone) (n : ℕ) where
  abbrev Holds : ExchangeState → S → Type 0
  Holds st s = Bounded n st (replies s) (answer_sent s) (gone s)

  -- The class tells the machine whether the answer was sent, and nothing else.
  abbrev fits : ExchangeEvent → S → Bool
  fits answer_relay_succeeded s = answer_sent s
  fits ExchangeEvent.answer_relay_failed s = not (answer_sent s)
  fits _ s = true

  step-Holds :
      (st : ExchangeState) (e : ExchangeEvent) (s : S)
      → Holds st s
      → fits e s ≡ true
      → Ends (λ r. Holds r.state r.actions) (offer_answer_process a st e s)
  unfolding offer_answer_process offer_answer_table drain process_event
  step-Holds st (offer_received sdp) s h k =
      let r = Reason.unusable_offer in
      ground
        (arith, laws.relay_offer sdp s, laws.reject_offer r s, laws.rollback r (a.reject_offer r s))
  step-Holds st (answer_received sdp) s h k =
      ground
        (arith, laws.relay_answer sdp s, laws.release_answer s, laws.fail Reason.unusable_answer s)
  step-Holds st (early_answer_received sdp) s h k =
      ground (arith, laws.hold_answer sdp s, laws.fail Reason.unusable_answer s)
  step-Holds st ExchangeEvent.offer_relay_failed s h k =
      let r = Reason.offer_relay_failed in
      ground (arith, laws.reject_offer r s, laws.rollback r (a.reject_offer r s))
  step-Holds st answer_relay_succeeded s h k = ground (arith, laws.commit s)
  step-Holds st ExchangeEvent.answer_relay_failed s h k =
      let r = Reason.answer_relay_failed in
      ground (arith, laws.fail r s, laws.fail_gone r s, laws.fail_answered r s)
  step-Holds st (answer_rejected code) s h k =
      ground (
        arith,
        laws.relay_rejection code s,
        laws.rollback Reason.rejected (a.relay_rejection code s),
      )
  step-Holds st ExchangeEvent.answer_timeout s h k =
      let r = Reason.answer_timeout in
      ground (arith, laws.reject_offer r s, laws.rollback r (a.reject_offer r s))
  step-Holds st ack_received s h k = ground (arith, laws.commit s)
  step-Holds st ExchangeEvent.ack_timeout s h k =
      ground (arith, laws.fail Reason.ack_timeout s, laws.fail_answered Reason.ack_timeout s)
  step-Holds st stop_exchange s h k = ground (arith, laws.rollback Reason.stopped s)
  step-Holds st ExchangeEvent.cleanup s h k = ground (arith, laws.cleanup s)

  abbrev HoldsOf : Exchange S → Type 0
  HoldsOf x = Holds x.state x.actions

  settled-Holds :
      (x : Exchange S) (o : Option (Settled ExchangeState S))
      → Ends (λ r. Holds r.state r.actions) o
      → HoldsOf (elim o [ none ↦ x | some r ↦ record x { state = r.state; actions = r.actions } ])
  settled-Holds x none h = elim h [ ]
  settled-Holds x (some r) h = h

  dispatch-Holds :
      (e : ExchangeEvent) (x : Exchange S)
      → HoldsOf x
      → fits e x.actions ≡ true
      → HoldsOf (dispatch a x e)
  unfolding dispatch
  dispatch-Holds e x h k =
      settled-Holds x (offer_answer_process a x.state e x.actions)
        (step-Holds x.state e x.actions h k)

  cleaned-Holds :
      (outcome : ExchangeOutcome) (x : Exchange S)
      → HoldsOf x
      → HoldsOf
          (elim outcome [ ExchangeOutcome.pending ↦ x | _ ↦ dispatch a x ExchangeEvent.cleanup ])
  cleaned-Holds ExchangeOutcome.pending x h = h
  cleaned-Holds ExchangeOutcome.committed x h = dispatch-Holds ExchangeEvent.cleanup x h refl
  cleaned-Holds ExchangeOutcome.rolled_back x h = dispatch-Holds ExchangeEvent.cleanup x h refl
  cleaned-Holds ExchangeOutcome.failed x h = dispatch-Holds ExchangeEvent.cleanup x h refl

  finish_operation-Holds : (x : Exchange S) → HoldsOf x → HoldsOf (finish_operation a x).1
  unfolding finish_operation
  finish_operation-Holds x h = cleaned-Holds (outcome_of x.state) x h

  apply-Holds :
      (e : ExchangeEvent) (x : Exchange S)
      → HoldsOf x
      → ((s : S) → fits e s ≡ true)
      → HoldsOf (apply a e x).1
  unfolding apply
  apply-Holds e x h k =
      let y : Exchange S = record x { processing = true } in
      finish_operation-Holds (dispatch a y e) (dispatch-Holds e y h (k x.actions))

  offered-Holds :
      (b : Bool) (x : Exchange S)
      → HoldsOf x
      → HoldsOf (if b then dispatch a x ExchangeEvent.offer_relay_failed else x)
  offered-Holds true x h = dispatch-Holds ExchangeEvent.offer_relay_failed x h refl
  offered-Holds false x h = h

  answered-Holds :
      (b : Bool) (x : Exchange S)
      → HoldsOf x
      → HoldsOf (
          if b
          then dispatch a x (
              if answer_sent x.actions
              then answer_relay_succeeded
              else ExchangeEvent.answer_relay_failed)
          else x)
  answered-Holds false x h = h
  answered-Holds true x h = elim (Bool-cases (answer_sent x.actions)) [
    | inl e ↦ rw e (dispatch-Holds answer_relay_succeeded x h e)
    | inr e ↦ rw e (dispatch-Holds ExchangeEvent.answer_relay_failed x h (ap not e))
  ]

module _ {S : Type 0} (a : OfferAnswerActions S) (replies : S → ℕ)
    (offer_sent answer_sent gone : S → Bool) (laws : RepliesOnce a replies answer_sent gone)
    (n : ℕ) where
  abbrev Keeps : Exchange S → Type 0
  Keeps x = HoldsOf a replies answer_sent gone laws n x

  perform-Keeps :
      (op : ExchangeOp) (x : Exchange S) → Keeps x → Keeps (perform a offer_sent answer_sent op x).1
  unfolding perform start receive_answer receive_early_answer
  perform-Keeps (starts offer) x h =
      let y : Exchange S = record x { processing = true } in
      finish_operation-Holds a replies answer_sent gone laws n _ (
        offered-Holds a replies answer_sent gone laws n _ _
          (dispatch-Holds a replies answer_sent gone laws n (offer_received offer) y h refl))
  perform-Keeps (receives_answer answer) x h =
      let y : Exchange S = record x { processing = true } in
      finish_operation-Holds a replies answer_sent gone laws n _ (
        answered-Holds a replies answer_sent gone laws n _ _
          (dispatch-Holds a replies answer_sent gone laws n (answer_received answer) y h refl))
  perform-Keeps (receives_early_answer answer) x h =
      apply-Holds a replies answer_sent gone laws n (early_answer_received answer) x h (λ s. refl)
  perform-Keeps (rejects code) x h =
      apply-Holds a replies answer_sent gone laws n (answer_rejected code) x h (λ s. refl)
  perform-Keeps times_out x h =
      apply-Holds a replies answer_sent gone laws n ExchangeEvent.answer_timeout x h (λ s. refl)
  perform-Keeps confirms x h =
      apply-Holds a replies answer_sent gone laws n ack_received x h (λ s. refl)
  perform-Keeps confirmation_times_out x h =
      apply-Holds a replies answer_sent gone laws n ExchangeEvent.ack_timeout x h (λ s. refl)
  perform-Keeps stops x h =
      apply-Holds a replies answer_sent gone laws n stop_exchange x h (λ s. refl)

  module _ (mark : S → S)
      (marked : (s : S)
        → (replies (mark s) ≡ replies s)
          × (answer_sent (mark s) ≡ answer_sent s)
          × (gone (mark s) ≡ gone s)) where
    use-Keeps :
        (op : ExchangeUse) (x : Exchange S)
        → Keeps x
        → Keeps (use_exchange a offer_sent answer_sent mark op x)
    unfolding mark_early_media_relayed
    use-Keeps (drives op) x h = perform-Keeps op x h
    use-Keeps marks x h = let m = marked x.actions in rw (m.0, m.1, m.2) h

    run-Keeps :
        (ops : List ExchangeUse) (x : Exchange S)
        → Keeps x
        → Keeps (perform_all a offer_sent answer_sent mark ops x)
    run-Keeps [] x h = h
    run-Keeps (op ∷ ops) x h = run-Keeps ops _ (use-Keeps op x h)

    -- An exchange from its start replies once at most, whatever operations it gets.
    pub perform_all-once :
        (s : S) (ops : List ExchangeUse)
        → answer_sent s ≡ false
        → replies s ≤ n
        → replies (perform_all a offer_sent answer_sent mark ops (new_exchange s)).actions ≤ n + 1
    unfolding new_exchange
    perform_all-once s ops h k =
        let x = perform_all a offer_sent answer_sent mark ops (new_exchange s) in
        ground (arith, run-Keeps ops (new_exchange s) (ground arith))
