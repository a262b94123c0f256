-- ===== src/Call/Invite.antt =====
-- Replies on an invite session: engine/src/sip/stack/inv_session.cpp. PJSIP is the record `Pjsip`:
-- a call that gives a message or fails is an option, and what it does to its session is the session
-- that it returns. `sent` are the messages that PJSIP took for sending, by what the code asked for.
pub mod Replied
use sbc.Base.{
  ℕ, String, Bool, true, false, not, if◌then◌else◌, Option, none, some, List, [], ◌∷◌, ◌++◌,
}
use sbc.Sdp.{SdpSession}

pub data InvState : Type 0 where
  null calling incoming early connecting confirmed disconnected : InvState

pub record ReplacesHdr : Type 0 where
  pub call_id : String
  pub to_tag : String
  pub from_tag : String
  pub early_only : Bool

-- The headers of a request that the code reads and writes; each Require header has its values.
pub record InviteHeaders : Type 0 where
  pub max_forwards : Option ℕ
  pub require : List (List String)
  pub replaces : List ReplacesHdr

-- PJSIP's functions; a status other than success is `none` or `false`.
pub record Pjsip (Inv Tx Dlg : Type 0) : Type 0 where
  pub state : Inv → InvState
  pub inv_answer : ℕ → Option SdpSession → Inv → Option Tx × Inv
  pub inv_initial_answer : ℕ → Option SdpSession → Inv → Option Tx × Inv
  pub inv_end_session : ℕ → Inv → Option Tx × Inv
  pub inv_invite : Inv → Option Tx × Inv
  pub inv_send_msg : Tx → Inv → Bool × Inv
  pub requires_100rel : Inv → Bool
  pub has_neg : Inv → Bool
  pub active_local : Inv → Option SdpSession
  pub active_remote : Inv → Option SdpSession
  pub set_sdp_answer : SdpSession → Inv → Bool × Inv
  pub put_body : SdpSession → Tx → Option Tx
  pub headers : Tx → InviteHeaders
  pub put_headers : InviteHeaders → Tx → Tx
  pub dlg_create_uac : String → String → String → String → Option Dlg
  pub inv_create_uac : Dlg → SdpSession → Option Inv
  pub dlg_add_usage : Inv → Bool

pub data Sent : Type 0 where
  answered : ℕ → Option SdpSession → Sent
  answered_active : ℕ → Sent
  ended : ℕ → Sent
  invited : InviteHeaders → Sent

pub record InviteSession (Inv : Type 0) : Type 0 where
  pub inv : Inv
  pub sent : List Sent

module _ {Inv Tx Dlg : Type 0} (pj : Pjsip Inv Tx Dlg) where
  unfoldable pub is_disconnected : InviteSession Inv → Bool
  is_disconnected leg = elim (pj.state leg.inv) [ InvState.disconnected ↦ true | _ ↦ false ]

  -- There is no session, or it is disconnected.
  unfoldable pub is_gone : Option (InviteSession Inv) → Bool
  unfolding is_disconnected
  is_gone none = true
  is_gone (some leg) = is_disconnected leg

  -- `send`: a message that leaves the session disconnected counts as not sent.
  unfoldable pub send : Sent → Tx → InviteSession Inv → Bool × InviteSession Inv
  unfolding is_disconnected
  send what tdata leg =
      let (ok, inv) = pj.inv_send_msg tdata leg.inv in
      if ok
      then (let leg' : InviteSession Inv = record { inv = inv; sent = leg.sent ++ what ∷ [] } in
          (not (is_disconnected leg'), leg'))
      else (false, record leg { inv = inv })

  abbrev send_reply : Sent → (Option Tx × Inv) → InviteSession Inv → Bool × InviteSession Inv
  send_reply what (none, inv) leg = (false, record leg { inv = inv })
  send_reply what (some tdata, inv) leg = send what tdata (record leg { inv = inv })

  abbrev on_session :
      (InviteSession Inv → Bool × InviteSession Inv)
      → Option (InviteSession Inv)
      → Bool × Option (InviteSession Inv)
  on_session f none = (false, none)
  on_session f (some leg) =
      if is_disconnected leg then (false, some leg) else (let (ok, leg') = f leg in (ok, some leg'))

  unfoldable pub answer :
      ℕ → Option SdpSession → Option (InviteSession Inv) → Bool × Option (InviteSession Inv)
  unfolding is_disconnected send
  answer code sdp leg =
      on_session (λ l. send_reply (answered code sdp) (pj.inv_answer code sdp l.inv) l) leg

  -- Without 100rel the body is refreshed from the negotiator; a body that is missing or
  -- that PJSIP cannot build sends nothing.
  abbrev send_refreshed : ℕ → (Option Tx × Inv) → InviteSession Inv → Bool × InviteSession Inv
  send_refreshed code (none, inv) leg = (false, record leg { inv = inv })
  send_refreshed code (some tdata, inv) leg =
      if pj.requires_100rel inv
      then send (answered_active code) tdata (record leg { inv = inv })
      else elim (pj.active_local inv) [
        | none ↦ (false, record leg { inv = inv })
        | some body ↦ send_reply (answered_active code) (pj.put_body body tdata, inv) leg
      ]

  unfoldable pub answer_with_active_local :
      ℕ → Option (InviteSession Inv) → Bool × Option (InviteSession Inv)
  unfolding is_disconnected send
  answer_with_active_local code leg =
      on_session (λ l. send_refreshed code (pj.inv_answer code none l.inv) l) leg

  -- The first reply; `has_request` tells whether the request is still there.
  unfoldable pub answer_request :
      Bool → ℕ → Option SdpSession → Option (InviteSession Inv) → Bool × Option (InviteSession Inv)
  unfolding is_disconnected send
  answer_request has_request code sdp leg =
      on_session
        (λ l.
          if has_request
          then send_reply (answered code sdp) (pj.inv_initial_answer code sdp l.inv) l
          else (false, l))
        leg

  unfoldable pub end_session : ℕ → Option (InviteSession Inv) → Option (InviteSession Inv)
  unfolding is_disconnected send
  end_session code leg =
      (on_session (λ l. send_reply (ended code) (pj.inv_end_session code l.inv) l) leg).1
