-- ===== src/Call/Outbound.antt =====
-- The INVITE towards the callee: `create_outbound_leg`, `send_outbound_invite` and
-- `require_replaces` of engine/src/sip/call/offer_answer_actions.cpp.
pub mod Headers
use sbc.Base.{
  ℕ, ◌-◌, String, Bool, true, false, if◌then◌else◌, ltb, Option, none, some, List, [], ◌∷◌, ◌++◌,
  any, length, str_eq,
}
use sbc.Protocols.{SupportedCodec, supported_codecs}
use sbc.Sdp.{SdpSession, parse, extract_rtp_endpoint, rewrite_connection_and_port, names_equal_ci}
use sbc.Sdp.Codecs.{restrict_audio_codecs}
use sbc.Media.Bridge.{RelayLeg, leg_a, leg_b, MediaBridge, set_remote_leg}
use sbc.Routing.Uri.{extract_uri_user}
use sbc.Call.Invite.{InviteSession, InviteHeaders, ReplacesHdr, invited, send}
use sbc.Call.Legs.{
  ReplacementTarget, Rdata, Call, Engine, own_contact_uri, caller_facing_from_uri, with_bridge,
}

-- `PJSIP_GENERIC_ARRAY_MAX_COUNT`: how many values one header holds.
abbrev pub max_count : ℕ
max_count = 32

-- The value joins the first header with room, and a new header where there is none.
abbrev pub add_value : String → List (List String) → List (List String)
add_value v [] = (v ∷ []) ∷ []
add_value v (h ∷ hs) = if ltb (length h) max_count then (h ++ v ∷ []) ∷ hs else h ∷ add_value v hs

unfoldable pub has_value : String → List (List String) → Bool
unfolding names_equal_ci
has_value v hs = any (any (λ w. names_equal_ci w v)) hs

unfoldable pub require_replaces : List (List String) → List (List String)
unfolding has_value
require_replaces hs = if has_value "replaces" hs then hs else add_value "replaces" hs

-- One hop less than the inbound request allowed; RFC 3261's 70 where it says nothing.
unfoldable pub outbound_max_forwards : Option Rdata → ℕ
outbound_max_forwards none = 69
outbound_max_forwards (some r) = elim r.max_forwards [ none ↦ 69 | some n ↦ n - 1 ]

abbrev replaces_hdr : ReplacementTarget → ReplacesHdr
replaces_hdr t = record {
  call_id = t.call_id;
  to_tag = t.to_tag;
  from_tag = t.from_tag;
  early_only = t.early_only;
}

-- Aims a leg's socket where the description says. Where `set_remote_leg` asserts that the loop was not
-- asked for, a build with assertions ends, and what is left of the bridge then means nothing.
abbrev pub aim :
    {Session : Type 0} → RelayLeg → Option SdpSession → MediaBridge Session → MediaBridge Session
aim leg none b = b
aim leg (some sdp) b =
    let ep = extract_rtp_endpoint sdp in
    if str_eq ep.ip ""
    then b
    else (elim (set_remote_leg leg (record { address = ep.ip; port = ep.port }) b) [
      | none ↦ b
      | some b' ↦ b'
    ])

module _ {Session Inv : Type 0} where
  unfoldable outbound_headers : Call Session Inv → InviteHeaders → InviteHeaders
  unfolding outbound_max_forwards require_replaces
  outbound_headers c h =
      let h' : InviteHeaders = record h {
        max_forwards = some (outbound_max_forwards c.current_rdata);
      } in
      elim c.replacement_target [
        | none ↦ h'
        | some t ↦ record h' {
          require = require_replaces h'.require;
          replaces = h'.replaces ++ replaces_hdr t ∷ [];
        }
      ]

module _ {Session Inv Tx Dlg : Type 0} (engine : Engine Session Inv Tx Dlg) where
  -- The codecs offered to the callee: the route's one, or all that this build supports.
  abbrev policy : Option SupportedCodec → List SupportedCodec
  policy none = supported_codecs
  policy (some codec) = codec ∷ []

  abbrev target : String → Call Session Inv → String
  target destination c = elim c.replacement_target [ none ↦ destination | some t ↦ t.target_uri ]

  -- The UAC dialog and its invite session.
  unfoldable create_uac : String → SdpSession → Call Session Inv → Option Inv
  unfolding own_contact_uri caller_facing_from_uri
  create_uac destination offer c =
      let user = extract_uri_user c.session.caller_uri in
      if str_eq user ""
      then none
      else (elim (engine.pjsip.dlg_create_uac
          (caller_facing_from_uri engine c.caller_display_name user) (own_contact_uri engine)
          destination (target destination c)) [
            | none ↦ none
            | some dlg ↦ elim (engine.pjsip.inv_create_uac dlg offer) [
              | none ↦ none
              | some inv ↦ if engine.pjsip.dlg_add_usage inv then some inv else none
            ]
          ])

  abbrev outbound_offer : Option SupportedCodec → ℕ → SdpSession → SdpSession
  outbound_offer required_codec port offer =
      rewrite_connection_and_port engine.config.local_ip port
        (restrict_audio_codecs engine.pjmedia (policy required_codec) offer)

  unfoldable pub create_outbound_leg :
      String → Option SupportedCodec → String → Call Session Inv → Bool × Call Session Inv
  unfolding create_uac extract_rtp_endpoint set_remote_leg parse restrict_audio_codecs
      rewrite_connection_and_port
  create_outbound_leg destination required_codec offer c = elim (engine.bind_leg leg_a) [
    | none ↦ (false, c)
    | some port_a ↦
        let bound_a : Call Session Inv = record c { leg_a_port = some port_a } in
        elim (engine.bind_leg leg_b) [
          | none ↦ (false, bound_a)
          | some port_b ↦
              let bound : Call Session Inv = record bound_a { leg_b_port = some port_b } in
              elim (parse engine.pjmedia offer) [
                | none ↦ (false, bound)
                | some sdp ↦
                    let aimed = with_bridge (aim leg_a (some sdp)) bound in
                    elim (create_uac destination (outbound_offer required_codec port_b sdp) aimed) [
                      | none ↦ (false, aimed)
                      | some inv ↦ (
                        true,
                        record aimed {
                          inv_callee = some (record { inv = inv; sent = [] });
                          session = record aimed.session { outbound_destination = destination };
                        },
                      )
                    ]
              ]
        ]
  ]

  unfoldable pub send_outbound_invite : Call Session Inv → Bool × Call Session Inv
  unfolding outbound_headers send
  send_outbound_invite c = elim c.inv_callee [
    | none ↦ (false, c)
    | some leg ↦
        let (tdata, inv) = engine.pjsip.inv_invite leg.inv in
        let leg' : InviteSession Inv = record leg { inv = inv } in
        elim tdata [
          | none ↦ (false, record c { inv_callee = some leg' })
          | some tx ↦
              let headers = outbound_headers c (engine.pjsip.headers tx) in
              let (ok, sent) =
                send engine.pjsip (invited headers) (engine.pjsip.put_headers headers tx) leg' in
              (ok, record c { inv_callee = some sent })
        ]
  ]
