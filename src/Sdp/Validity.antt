-- ===== src/Sdp/Validity.antt =====
-- Which descriptions are usable: `is_valid_sdp` of engine/src/sip/stack/sdp.cpp. The scan of the
-- session's lines takes one more than the text's length as fuel, since every turn drops a character;
-- `none` is a scan that runs out of it.
pub mod Scan
use sbc.Base.{
  ℕ, zero, suc, String, Bool, true, false, ◌&&◌, ◌||◌, not, if◌then◌else◌, ◌==◌, leb, Option, none,
  some, List, [], ◌∷◌, any, count, str_eq,
}
use sbc.Base.Text.{size, drop, take, find_char}
use sbc.Sdp.{SdpAttr, SdpMedia, SdpSession, Pjmedia, names_equal_ci, is_media_type, parse}

unfoldable is_supported_transport : SdpMedia → Bool
unfolding names_equal_ci
is_supported_transport m =
    names_equal_ci m.transport "RTP/AVP" || names_equal_ci m.transport "RTP/AVPF"

unfoldable is_direction_name : String → Bool
unfolding names_equal_ci
is_direction_name name =
    any (names_equal_ci name) ("inactive" ∷ "sendonly" ∷ "recvonly" ∷ "sendrecv" ∷ [])

unfoldable has_valid_direction : List SdpAttr → Bool
unfolding is_direction_name
has_valid_direction attrs = leb (count (λ a. is_direction_name a.name) attrs) 1

abbrev is_line_end : ℕ → Bool
is_line_end c = c == 10 || c == 13

-- A colon, a space or a tabulator.
abbrev ends_name : ℕ → Bool
ends_name c = c == 58 || c == 32 || c == 9

abbrev up_to : Option ℕ → String → String
up_to none s = s
up_to (some n) s = take n s

-- Is the line an attribute that names a direction?
unfoldable pub is_direction_line : String → Bool
unfolding is_direction_name
is_direction_line line =
    let rest = drop 2 line in
    str_eq (take 2 line) "a=" && is_direction_name (up_to (find_char ends_name rest) rest)

unfoldable pub session_direction_from : ℕ → Bool → String → Option Bool
unfolding is_direction_line
session_direction_from zero direction_seen sdp = none
session_direction_from (suc fuel) direction_seen sdp =
    let end = find_char is_line_end sdp in
    let line = up_to end sdp in
    let is_direction = is_direction_line line in
    elim (str_eq sdp "" || str_eq (take 2 line) "m=") [
      | true ↦ some true
      | false ↦ elim (is_direction && direction_seen) [
        | true ↦ some false
        | false ↦ elim end [
          | none ↦ some true
          | some n ↦ session_direction_from fuel (direction_seen || is_direction) (drop (suc n) sdp)
        ]
      ]
    ]

unfoldable has_valid_session_direction : String → Bool
unfolding session_direction_from
has_valid_session_direction sdp = elim (session_direction_from (suc (size sdp)) false sdp) [
  | none ↦ false
  | some valid ↦ valid
]

unfoldable is_valid_media : SdpMedia → Bool
unfolding is_media_type has_valid_direction is_supported_transport
is_valid_media m =
    if is_media_type "audio" m && not (has_valid_direction m.attrs)
    then false
    else if m.port == 0
    then true
    else elim m.formats [ [] ↦ false | _ ∷ _ ↦ is_supported_transport m ]

abbrev every_valid : List SdpMedia → Bool
every_valid [] = true
every_valid (m ∷ ms) = is_valid_media m && every_valid ms

unfoldable has_valid_media : SdpSession → Bool
unfolding has_valid_direction is_valid_media
has_valid_media sdp = elim sdp.media [
  | [] ↦ false
  | _ ∷ _ ↦ has_valid_direction sdp.attrs && every_valid sdp.media
]

unfoldable pub is_valid_sdp : Pjmedia → String → Bool
unfolding has_valid_session_direction has_valid_media parse
is_valid_sdp lib sdp =
    if has_valid_session_direction sdp
    then (elim (parse lib sdp) [ none ↦ false | some s ↦ has_valid_media s ])
    else false
