-- ===== src/Sdp/Direction.antt =====
-- The direction of the audio line: `extract_audio_direction` and `set_audio_direction` of
-- engine/src/sip/stack/sdp.cpp.
pub mod Written
use sbc.Base.{
  String, Bool, true, false, ◌||◌, if◌then◌else◌, Option, none, some, List, [], ◌∷◌, str_eq,
}
use sbc.Call.Session.{MediaDirection, send_recv, send_only, recv_only, inactive}
use sbc.Sdp.{SdpAttr, SdpSession, Pjmedia, RtpEndpoint, find_active_audio_media, with_active_audio}

unfoldable pub direction_name : MediaDirection → String
direction_name send_recv = "sendrecv"
direction_name send_only = "sendonly"
direction_name recv_only = "recvonly"
direction_name inactive = "inactive"

module _ (lib : Pjmedia) where
  -- An address with a NUL is none; PJLIB's parser refuses it as well.
  unfoldable pub is_hold_address : String → Bool
  is_hold_address address = str_eq address "0.0.0.0" || lib.is_unspecified_ip6 address

  abbrev first_named : List MediaDirection → List SdpAttr → Option MediaDirection
  first_named [] attrs = none
  first_named (d ∷ ds) attrs = elim (lib.attr_find (direction_name d) attrs) [
    | some _ ↦ some d
    | none ↦ first_named ds attrs
  ]

  unfoldable pub find_media_direction : List SdpAttr → Option MediaDirection
  unfolding direction_name
  find_media_direction attrs = first_named (inactive ∷ send_only ∷ recv_only ∷ send_recv ∷ []) attrs

  abbrev or_else : MediaDirection → Option MediaDirection → MediaDirection
  or_else d none = d
  or_else d (some e) = e

  -- A description that is missing or has no audio sends and receives.
  unfoldable pub extract_audio_direction : Option SdpSession → RtpEndpoint → MediaDirection
  unfolding is_hold_address find_active_audio_media find_media_direction
  extract_audio_direction sdp offer_endpoint =
      if is_hold_address offer_endpoint.ip then inactive else elim sdp [
        | none ↦ send_recv
        | some s ↦ elim (find_active_audio_media s) [
          | none ↦ send_recv
          | some m ↦
              or_else (or_else send_recv (find_media_direction s.attrs))
                (find_media_direction m.attrs)
        ]
      ]

  abbrev without_directions : List SdpAttr → List SdpAttr
  without_directions attrs = lib.remove_all_attr "inactive" (
      lib.remove_all_attr "recvonly"
        (lib.remove_all_attr "sendonly" (lib.remove_all_attr "sendrecv" attrs)))

  abbrev directed : MediaDirection → List SdpAttr → Option (List SdpAttr)
  directed d attrs =
      lib.add_attr (record { name = direction_name d; value = "" }) (without_directions attrs)

  -- The result, and the description as it is left: without a direction where adding one fails.
  unfoldable pub set_audio_direction : MediaDirection → SdpSession → Bool × SdpSession
  unfolding find_active_audio_media with_active_audio direction_name
  set_audio_direction d sdp = elim (find_active_audio_media sdp) [
    | none ↦ (false, sdp)
    | some m ↦ elim (directed d m.attrs) [
      | none ↦ (
        false,
        record sdp {
          media =
              with_active_audio (λ n. record n { attrs = without_directions n.attrs }) sdp.media;
        },
      )
      | some attrs ↦ (
        true,
        record sdp { media = with_active_audio (λ n. record n { attrs = attrs }) sdp.media },
      )
    ]
  ]
