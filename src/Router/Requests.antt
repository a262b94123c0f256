-- ===== src/Router/Requests.antt =====
-- Requests outside of a dialog: engine/src/sip/router/sip_request_actions.cpp. What PJSIP tells of a
-- request and of the dialogs that it matches is a record; a reply without a transaction is a code.
pub mod Entry
use sbc.Base.{
  ℕ, zero, suc, String, Bool, true, false, not, ◌&&◌, if◌then◌else◌, ◌==◌, Option, none, some,
  str_eq,
}
use sbc.Sm.Types.{Leg, caller, callee}
use sbc.Call.Invite.{InvState, early, connecting, confirmed, disconnected}
use sbc.Call.Legs.{ReplacementTarget}
use sbc.Call.Manager.{CallManager, create_session, find_by_call_id}

-- An invite session by its state and its role.
pub record InviteView : Type 0 where
  pub state : InvState
  pub is_uas : Bool

-- The identifiers of the dialog that would be replaced; `none` where one of them is missing. The
-- target is the text that PJSIP prints.
pub record DialogIds : Type 0 where
  pub call_id : String
  pub local_tag : String
  pub remote_tag : String
  pub target : Option String

-- The other leg of the call that a Replaces header matches.
pub record Destination : Type 0 where
  pub invite : Option InviteView
  pub is_disconnected : Bool
  pub ids : Option DialogIds

-- The call of the matched dialog: whether the dialog is one of its legs, the role in the dialog.
pub record Matched : Type 0 where
  pub session_id : String
  pub is_uac : Option Bool
  pub is_leg : Bool
  pub destination : Option Destination

-- What `pjsip_replaces_verify_request` gives: a refusal, with its response sent or without one, no
-- dialog, or a dialog with the parsed header's early-only flag.
pub data Verified : Type 0 where
  refused : Bool → Verified
  unmatched : Verified
  matched : Option Bool → Option Matched → Verified

-- A request, with what PJSIP's checks of it give.
pub record Invite : Type 0 where
  pub has_message : Bool
  pub has_replaces : Bool
  pub has_single_tags : Bool
  pub verified : Verified
  pub call_id : String
  pub is_acceptable : Bool
  pub max_forwards : Option ℕ
  pub sdp : String
  pub makes_dialog : Bool
  pub makes_session : Bool
  pub takes_usage : Bool

-- `std::expected`: the target of a replacement, or none, or the code that was replied.
pub data Resolved : Type 0 where
  rejected : Option ℕ → Resolved
  resolved : Option ReplacementTarget → Resolved

unfoldable replacement_rejection_code : Option InviteView → Bool → Option ℕ
replacement_rejection_code none early_only = some 481
replacement_rejection_code (some v) early_only = elim v.state [
  | disconnected ↦ some 603
  | early ↦ if v.is_uas then none else some 481
  | connecting ↦ if early_only then some 486 else none
  | confirmed ↦ if early_only then some 486 else none
  | _ ↦ some 481
]

abbrev no_call : Resolved
no_call = rejected (some 481)

-- The identifiers, where all of them are there.
unfoldable make_replacement_target : DialogIds → String → Bool → Bool → Resolved
make_replacement_target ids session_id early_only is_uac =
    if str_eq ids.call_id ""
    then no_call
    else if str_eq ids.local_tag ""
    then no_call
    else if str_eq ids.remote_tag ""
    then no_call
    else elim ids.target [
      | none ↦ no_call
      | some uri ↦ resolved (
          some (record {
            replaced_session_id = session_id;
            call_id = ids.call_id;
            to_tag = ids.remote_tag;
            from_tag = ids.local_tag;
            target_uri = uri;
            early_only = early_only;
            matched_dialog_is_uac = is_uac;
          }))
    ]

unfoldable resolve_destination : Destination → String → Bool → Bool → Resolved
unfolding replacement_rejection_code make_replacement_target
resolve_destination d session_id early_only is_uac = elim d.invite [
  | none ↦ no_call
  | some v ↦
      if d.is_disconnected
      then rejected (some 603)
      else (elim (replacement_rejection_code (some v) early_only) [
        | some code ↦ rejected (some code)
        | none ↦ elim d.ids [
          | none ↦ no_call
          | some ids ↦ make_replacement_target ids session_id early_only is_uac
        ]
      ])
]

unfoldable resolve_matched : Matched → Bool → Resolved
unfolding resolve_destination
resolve_matched m early_only = elim m.is_uac [
  | none ↦ no_call
  | some is_uac ↦
      if m.is_leg
      then (elim m.destination [
        | none ↦ no_call
        | some d ↦ resolve_destination d m.session_id early_only is_uac
      ])
      else no_call
]

unfoldable pub resolve_replacement : Invite → Resolved
unfolding resolve_matched
resolve_replacement r =
    if not r.has_message
    then rejected none
    else if r.has_replaces && not r.has_single_tags
    then rejected (some 400)
    else (elim r.verified [
      | refused true ↦ rejected none
      | refused false ↦ rejected (some 500)
      | unmatched ↦ resolved none
      | matched none session ↦ rejected (some 500)
      | matched (some early_only) none ↦ no_call
      | matched (some early_only) (some m) ↦ resolve_matched m early_only
    ])

abbrev pub is_zero : Option ℕ → Bool
is_zero none = false
is_zero (some n) = n == 0

-- The call that was made, by its Call-ID and its replacement, or the reply.
pub data Admission : Type 0 where
  replied : ℕ → Admission
  ignored : Admission
  admitted : String → Option ReplacementTarget → Admission

-- The checks after the replacement; `known` tells whether the Call-ID has a call.
unfoldable pub admit : Bool → Option ReplacementTarget → Invite → Admission
admit known target r =
    if str_eq r.call_id ""
    then replied 400
    else if known
    then ignored
    else if not r.is_acceptable
    then replied 400
    else if is_zero r.max_forwards
    then replied 483
    else if str_eq r.sdp ""
    then replied 400
    else if not r.makes_dialog
    then replied 500
    else if not r.makes_session
    then replied 500
    else if not r.takes_usage
    then replied 500
    else admitted r.call_id target

abbrev pub is_known : {C : Type 0} → String → CallManager C → Bool
is_known call_id m = elim (find_by_call_id call_id m) [ none ↦ false | some _ ↦ true ]

unfoldable pub vet : {C : Type 0} → Invite → CallManager C → Admission
unfolding resolve_replacement admit find_by_call_id
vet r m = elim (resolve_replacement r) [
  | rejected (some code) ↦ replied code
  | rejected none ↦ ignored
  | resolved target ↦ admit (is_known r.call_id m) target r
]

-- `create_call`; `make` builds the session of an admitted INVITE.
unfoldable pub create_call :
    {C : Type 0}
    → (String → Option ReplacementTarget → C)
    → Invite
    → CallManager C
    → Admission × CallManager C
unfolding vet create_session
create_call make r m = elim (vet r m) [
  | replied code ↦ (replied code, m)
  | ignored ↦ (ignored, m)
  | admitted id target ↦ (admitted id target, (create_session id (make id target) m).1)
]

-- The reply to a CANCEL or a BYE that no dialog claimed.
unfoldable handle_unmatched_dialog_request : {C : Type 0} → String → CallManager C → Option ℕ
unfolding find_by_call_id
handle_unmatched_dialog_request call_id m = elim (find_by_call_id call_id m) [
  | none ↦ some 481
  | some _ ↦ none
]
