-- ===== src/Protocols.antt =====
-- The codecs of engine/src/protocols/supported_codecs.hpp and the stored data of
-- engine/src/protocols/sip_routes.hpp and sip_registrar.hpp.
use sbc.Base.Int.{ℤ}
use sbc.Base.{ℕ, String, str_eq, Bool, Option, List, [], ◌∷◌, find}

pub record SupportedCodec : Type 0 where
  pub name : String
  pub payload_type : ℕ
  pub clock_rate : ℕ
  pub rtp_clock_rate : ℕ

abbrev pub g722 : SupportedCodec
g722 = record { name = "G722"; payload_type = 9; clock_rate = 16000; rtp_clock_rate = 8000 }

abbrev pcmu : SupportedCodec
pcmu = record { name = "PCMU"; payload_type = 0; clock_rate = 8000; rtp_clock_rate = 8000 }

abbrev pub pcma : SupportedCodec
pcma = record { name = "PCMA"; payload_type = 8; clock_rate = 8000; rtp_clock_rate = 8000 }

-- In the order of preference.
abbrev pub supported_codecs : List SupportedCodec
supported_codecs = g722 ∷ pcmu ∷ pcma ∷ []

unfoldable pub find_supported_codec_by_name : String → Option SupportedCodec
find_supported_codec_by_name name = find (λ c. str_eq c.name name) supported_codecs

pub record SipRouteRule : Type 0 where
  pub uri : String
  pub sip_address : String
  pub port : ℤ
  pub codec : Option String

-- `routes` is the flat map's content, in the order of its keys.
pub record SipRouteSnapshot : Type 0 where
  pub table_id : String
  pub version : ℤ
  pub routes : List (ℤ × SipRouteRule)

pub record SipUser : Type 0 where
  pub username : String
  pub realm : String
  pub ha1 : String
  pub enabled : Bool

pub record SipUserSnapshot : Type 0 where
  pub users : List SipUser
