-- ===== src/Call/Invite/Replied.antt =====
-- What a reply on an invite session can do, for every behaviour of PJSIP.
use sbc.Base.{
  ℕ, ◌+◌, ◌≤◌, Bool, if◌then◌else◌, Option, none, some, [], ◌∷◌, length, length-append, arith,
  Option-cases, inl, inr,
}
use sbc.Call.Invite.{
  answered, SdpSession, answer_with_active_local, answer, answered_active, send_reply,
  send_refreshed, on_session, Pjsip, Sent, InviteSession, is_disconnected, is_gone, send,
}

-- How many messages went out on a leg.
abbrev pub sent_count : {Inv : Type 0} → Option (InviteSession Inv) → ℕ
sent_count none = 0
sent_count (some leg) = length leg.sent

-- At most one message went out, exactly none if the result is false and the leg is still up, and
-- none on a leg that was gone.
pub record Replied {Inv Tx Dlg : Type 0} (pj : Pjsip Inv Tx Dlg) (leg : Option (InviteSession Inv))
    (ok : Bool) (leg' : Option (InviteSession Inv)) : Type 0 where
  pub most : sent_count leg' ≤ sent_count leg + 1
  pub least : sent_count leg ≤ sent_count leg'
  pub refused : (if ok then 0 else if is_gone pj leg' then 0 else sent_count leg') ≤ sent_count leg
  pub was_gone : (if is_gone pj leg then sent_count leg' else 0) ≤ sent_count leg

module _ {Inv Tx Dlg : Type 0} (pj : Pjsip Inv Tx Dlg) where
  -- A message that is handed over, by the messages that had gone out.
  abbrev Posted : ℕ → Bool → InviteSession Inv → Type 0
  Posted n ok leg' =
      (length leg'.sent ≤ n + 1)
      × (n ≤ length leg'.sent)
      × ((if ok then 0 else if is_disconnected pj leg' then 0 else length leg'.sent) ≤ n)

  send-Posted :
      (what : Sent) (tdata : Tx) (leg : InviteSession Inv)
      → Posted (length leg.sent) (send pj what tdata leg).0 (send pj what tdata leg).1
  unfolding send
  send-Posted what tdata leg = ground (arith, length-append leg.sent (what ∷ []))

  send_reply-Posted :
      (what : Sent) (reply : Option Tx × Inv) (leg : InviteSession Inv)
      → Posted (length leg.sent) (send_reply pj what reply leg).0 (send_reply pj what reply leg).1
  send_reply-Posted what (none, inv) leg = ground arith
  send_reply-Posted what (some tdata, inv) leg = send-Posted what tdata (record leg { inv = inv })

  send_refreshed-Posted :
      (code : ℕ) (reply : Option Tx × Inv) (leg : InviteSession Inv)
      → Posted
          (length leg.sent)
          (send_refreshed pj code reply leg).0
          (send_refreshed pj code reply leg).1
  send_refreshed-Posted code (none, inv) leg = ground arith
  send_refreshed-Posted code (some tdata, inv) leg = elim (Option-cases (pj.active_local inv)) [
    | inl e ↦ ground (arith, send-Posted (answered_active code) tdata (record leg { inv = inv }))
    | inr (body, e) ↦ ground (
      arith,
      send-Posted (answered_active code) tdata (record leg { inv = inv }),
      send_reply-Posted (answered_active code) (pj.put_body body tdata, inv) leg,
    )
  ]

  on_session-Replied :
      (f : InviteSession Inv → Bool × InviteSession Inv)
      → ((l : InviteSession Inv) → Posted (length l.sent) (f l).0 (f l).1)
      → (leg : Option (InviteSession Inv))
      → Replied pj leg (on_session pj f leg).0 (on_session pj f leg).1
  unfolding is_gone
  on_session-Replied f h none = ground arith
  on_session-Replied f h (some l) = ground (arith, h l)

  pub answer-Replied :
      (code : ℕ) (sdp : Option SdpSession) (leg : Option (InviteSession Inv))
      → Replied pj leg (answer pj code sdp leg).0 (answer pj code sdp leg).1
  unfolding answer
  answer-Replied code sdp leg =
      on_session-Replied _
        (λ l. send_reply-Posted (answered code sdp) (pj.inv_answer code sdp l.inv) l) leg

  pub answer_with_active_local-Replied :
      (code : ℕ) (leg : Option (InviteSession Inv))
      → Replied pj leg
          (answer_with_active_local pj code leg).0
          (answer_with_active_local pj code leg).1
  unfolding answer_with_active_local
  answer_with_active_local-Replied code leg =
      on_session-Replied _ (λ l. send_refreshed-Posted code (pj.inv_answer code none l.inv) l) leg
