-- ===== src/Sdp.antt =====
-- Session descriptions: engine/src/sip/stack/sdp.cpp over the parsed structures of PJMEDIA. What
-- the code calls of PJMEDIA, PJLIB and the RTP library is the record `Pjmedia`; a pool is not
-- modelled, since no allocation is checked.
pub mod Validity
pub mod Direction
pub mod Codecs
use Prim.Native.Char.{code}
use sbc.Base.{
  ℕ, ◌+◌, ◌%◌, String, Bool, true, false, ◌&&◌, ◌||◌, not, if◌then◌else◌, ◌==◌, leb, ltb, Option,
  none, some, List, [], ◌∷◌, map, find, any, str_eq,
}

pub record SdpConn : Type 0 where
  pub net_type : String
  pub addr_type : String
  pub addr : String

pub record SdpAttr : Type 0 where
  pub name : String
  pub value : String

pub record SdpMedia : Type 0 where
  pub kind : String
  pub port : ℕ
  pub transport : String
  pub formats : List String
  pub conn : Option SdpConn
  pub attrs : List SdpAttr

pub record SdpSession : Type 0 where
  pub conn : Option SdpConn
  pub attrs : List SdpAttr
  pub media : List SdpMedia

pub record Rtpmap : Type 0 where
  pub pt : String
  pub enc_name : String
  pub clock_rate : ℕ

-- PJMEDIA's parser and attribute functions; `is_unspecified_ip6` is `pj_inet_pton` and the
-- comparison with the address of zeros, `print_pt` is `pj_utoa`, `read_pt` is `pj_strtoul`.
pub record Pjmedia : Type 0 where
  pub sdp_parse : String → Option SdpSession
  pub get_rtpmap : SdpAttr → Option Rtpmap
  pub get_fmtp : SdpAttr → Option String
  pub attr_find : String → List SdpAttr → Option SdpAttr
  pub remove_all_attr : String → List SdpAttr → List SdpAttr
  pub add_attr : SdpAttr → List SdpAttr → Option (List SdpAttr)
  pub is_unspecified_ip6 : String → Bool
  pub print_pt : ℕ → String
  pub read_pt : String → ℕ
  pub audio_pt_tostring : ℕ → String

-- ASCII letters compare without their case, as in `pj_stricmp2` and `std::tolower`.
abbrev lower : ℕ → ℕ
lower c = if leb 65 c && leb c 90 then c + 32 else c

unfoldable pub names_equal_ci : String → String → Bool
names_equal_ci String.[] String.[] = true
names_equal_ci String.[] (String.◌∷◌ d t) = false
names_equal_ci (String.◌∷◌ c s) String.[] = false
names_equal_ci (String.◌∷◌ c s) (String.◌∷◌ d t) =
    lower (code c) == lower (code d) && names_equal_ci s t

unfoldable pub is_media_type : String → SdpMedia → Bool
unfolding names_equal_ci
is_media_type type m = names_equal_ci m.kind type

unfoldable pub is_active_audio : SdpMedia → Bool
unfolding is_media_type
is_active_audio m = is_media_type "audio" m && not (m.port == 0)

unfoldable pub find_active_audio_media : SdpSession → Option SdpMedia
unfolding is_active_audio
find_active_audio_media sdp = find is_active_audio sdp.media

-- The session with its first active audio line changed in place.
unfoldable pub with_active_audio : (SdpMedia → SdpMedia) → List SdpMedia → List SdpMedia
unfolding is_active_audio
with_active_audio f [] = []
with_active_audio f (m ∷ ms) = if is_active_audio m then f m ∷ ms else m ∷ with_active_audio f ms

unfoldable pub parse : Pjmedia → String → Option SdpSession
parse lib text = if str_eq text "" then none else lib.sdp_parse text

abbrev relayed : String → Option SdpConn → Option SdpConn
relayed relay_ip none = none
relayed relay_ip (some _) = some (record { net_type = "IN"; addr_type = "IP4"; addr = relay_ip })

-- `desc.port` has 16 bits.
unfoldable pub rewrite_connection_and_port : String → ℕ → SdpSession → SdpSession
rewrite_connection_and_port relay_ip relay_port sdp = record sdp {
  conn = relayed relay_ip sdp.conn;
  media =
      map {A = SdpMedia} (λ m. record m { port = relay_port; conn = relayed relay_ip m.conn })
        sdp.media;
}

pub record RtpEndpoint : Type 0 where
  pub ip : String
  pub port : ℕ

-- The address of a media line: its own connection line before the session's.
abbrev address : SdpSession → SdpMedia → String
address sdp m = elim m.conn [
  | some c ↦ c.addr
  | none ↦ elim sdp.conn [ some c ↦ c.addr | none ↦ "" ]
]

unfoldable pub extract_rtp_endpoint : SdpSession → RtpEndpoint
unfolding find_active_audio_media
extract_rtp_endpoint sdp = elim (find_active_audio_media sdp) [
  | none ↦ record { ip = ""; port = 0 }
  | some m ↦ record { ip = address sdp m; port = m.port % 65536 }
]
