-- ===== src/Call/Legs.antt =====
-- A call with its two invite sessions: the members of engine/src/sip/call/call_session.hpp that the
-- action classes read, and what those classes get from the engine.
use sbc.Base.{ℕ, String, concat, Bool, if◌then◌else◌, str_eq, Option}
use sbc.Base.Int.{ℤ, pos}
use sbc.Protocols.{SupportedCodec}
use sbc.Sdp.{SdpSession, Pjmedia}
use sbc.Sm.Types.{Leg, caller, callee}
use sbc.Media.Bridge.{RelayLeg, MediaBridge}
use sbc.Call.Session.{CallSession, CallLeg}
use sbc.Call.Invite.{InviteSession, Pjsip, answer, end_session}

pub record ReplacementTarget : Type 0 where
  pub replaced_session_id : String
  pub call_id : String
  pub to_tag : String
  pub from_tag : String
  pub target_uri : String
  pub early_only : Bool
  pub matched_dialog_is_uac : Bool

-- The request in hand, by its Max-Forwards.
pub record Rdata : Type 0 where
  pub max_forwards : Option ℕ

-- `leg_a_port` and `leg_b_port` are the local ports of the bridge's sockets.
pub record Call (Session Inv : Type 0) : Type 0 where
  pub session : CallSession Session
  pub inv_caller : Option (InviteSession Inv)
  pub inv_callee : Option (InviteSession Inv)
  pub leg_a_port : Option ℕ
  pub leg_b_port : Option ℕ
  pub caller_display_name : String
  pub caller_offer_sdp : String
  pub current_rdata : Option Rdata
  pub replacement_target : Option ReplacementTarget

pub record PjsipConfig : Type 0 where
  pub identity_user : String
  pub local_ip : String
  pub sip_port : ℕ

-- PJMEDIA, PJSIP, the sockets, the codecs and the clock that an operation finds.
pub record Engine (Session Inv Tx Dlg : Type 0) : Type 0 where
  pub pjmedia : Pjmedia
  pub pjsip : Pjsip Inv Tx Dlg
  pub config : PjsipConfig
  pub bind_leg : RelayLeg → Option ℕ
  pub has_pjmedia_endpoint : Bool
  pub open_session : SupportedCodec → SupportedCodec → Option Session
  pub print_int : ℤ → String
  pub now : ℕ

module _ {Session Inv Tx Dlg : Type 0} (engine : Engine Session Inv Tx Dlg) where
  abbrev at_us : String → String
  at_us user = concat "<sip:" (
      concat user (
        concat "@" (
          concat engine.config.local_ip
            (concat ":" (concat (engine.print_int (pos engine.config.sip_port)) ">")))))

  unfoldable pub own_contact_uri : String
  own_contact_uri = at_us engine.config.identity_user

  unfoldable pub caller_facing_from_uri : String → String → String
  caller_facing_from_uri display_name user =
      if str_eq display_name ""
      then at_us user
      else concat "\"" (concat display_name (concat "\" " (at_us user)))

  -- `Inv::answer(session_.inv_caller(), ...)`, `Inv::end_session` on both legs.
  abbrev pub answer_caller : ℕ → Option SdpSession → Call Session Inv → Bool × Call Session Inv
  answer_caller code sdp c =
      let (ok, leg) = answer engine.pjsip code sdp c.inv_caller in
      (ok, record c { inv_caller = leg })

  abbrev pub end_both : ℕ → Call Session Inv → Call Session Inv
  end_both code c = record c {
    inv_caller = end_session engine.pjsip code c.inv_caller;
    inv_callee = end_session engine.pjsip code c.inv_callee;
  }

module _ {Session Inv : Type 0} where
  abbrev pub with_bridge :
      (MediaBridge Session → MediaBridge Session) → Call Session Inv → Call Session Inv
  with_bridge f c = record c {
    session = record c.session { media_bridge = f c.session.media_bridge };
  }

  abbrev pub with_leg : Leg → (CallLeg → CallLeg) → Call Session Inv → Call Session Inv
  with_leg caller f c = record c {
    session = record c.session { caller_leg = f c.session.caller_leg };
  }
  with_leg callee f c = record c {
    session = record c.session { callee_leg = f c.session.callee_leg };
  }
