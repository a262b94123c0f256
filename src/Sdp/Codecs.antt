-- ===== src/Sdp/Codecs.antt =====
-- The codecs of the audio line: engine/src/sip/stack/sdp.cpp.
pub mod Narrowing
pub mod Choice
use sbc.Base.{
  ℕ, ◌+◌, ◌%◌, String, Bool, true, false, ◌&&◌, ◌||◌, not, if◌then◌else◌, ◌==◌, leb, Option, none,
  some, List, [], ◌∷◌, ◌++◌, map, find, any, keep, str_eq,
}
use sbc.Protocols.{SupportedCodec, supported_codecs}
use sbc.Sdp.{
  SdpAttr, SdpMedia, SdpSession, Rtpmap, Pjmedia, names_equal_ci, find_active_audio_media,
  with_active_audio,
}

pub record AudioCodecInfo : Type 0 where
  pub payload_type : ℕ
  pub name : String
  pub clock_rate : ℕ

module _ (lib : Pjmedia) where
  -- The attribute's rtpmap, where it is one.
  abbrev rtpmap_of : SdpAttr → Option Rtpmap
  rtpmap_of a = if names_equal_ci a.name "rtpmap" then lib.get_rtpmap a else none

  unfoldable pub find_rtpmap : String → List SdpAttr → Option Rtpmap
  unfolding names_equal_ci
  find_rtpmap payload_type [] = none
  find_rtpmap payload_type (a ∷ attrs) = elim (rtpmap_of a) [
    | none ↦ find_rtpmap payload_type attrs
    | some r ↦ if str_eq r.pt payload_type then some r else find_rtpmap payload_type attrs
  ]

  -- `payload_type_` has 8 bits.
  unfoldable pub make_codec_info : SdpMedia → String → AudioCodecInfo
  unfolding find_rtpmap
  make_codec_info m payload_type =
      let pt = lib.read_pt payload_type % 256 in
      elim (find_rtpmap payload_type m.attrs) [
        | some r ↦ record { payload_type = pt; name = r.enc_name; clock_rate = r.clock_rate }
        | none ↦ record { payload_type = pt; name = lib.audio_pt_tostring pt; clock_rate = 0 }
      ]

  unfoldable pub find_telephone_event_pt : List SdpAttr → Option String
  unfolding names_equal_ci
  find_telephone_event_pt [] = none
  find_telephone_event_pt (a ∷ attrs) = elim (rtpmap_of a) [
    | none ↦ find_telephone_event_pt attrs
    | some r ↦
        if names_equal_ci r.enc_name "telephone-event"
        then some r.pt
        else find_telephone_event_pt attrs
  ]

  unfoldable pub extract_active_audio_codec : SdpSession → Option AudioCodecInfo
  unfolding find_active_audio_media make_codec_info
  extract_active_audio_codec sdp = elim (find_active_audio_media sdp) [
    | none ↦ none
    | some m ↦ elim m.formats [ [] ↦ none | pt ∷ _ ↦ some (make_codec_info m pt) ]
  ]

  unfoldable pub extract_all_audio_codecs : SdpSession → List AudioCodecInfo
  unfolding find_active_audio_media make_codec_info
  extract_all_audio_codecs sdp = elim (find_active_audio_media sdp) [
    | none ↦ []
    | some m ↦ map (make_codec_info m) m.formats
  ]

  unfoldable pub extract_telephone_event_pt : SdpSession → Option ℕ
  unfolding extract_all_audio_codecs names_equal_ci
  extract_telephone_event_pt sdp =
      elim (find (λ c. names_equal_ci c.name "telephone-event") (extract_all_audio_codecs sdp)) [
        | none ↦ none
        | some c ↦ some c.payload_type
      ]

  abbrev is_dtmf_rtpmap : String → SdpAttr → Bool
  is_dtmf_rtpmap dtmf_pt a = elim (lib.get_rtpmap a) [ none ↦ false | some r ↦ str_eq r.pt dtmf_pt ]

  abbrev is_dtmf_fmtp : String → SdpAttr → Bool
  is_dtmf_fmtp dtmf_pt a = elim (lib.get_fmtp a) [ none ↦ false | some f ↦ str_eq f dtmf_pt ]

  -- Does narrowing keep the attribute? A codec's rtpmap and fmtp go, those of DTMF stay.
  unfoldable pub is_kept : Option String → SdpAttr → Bool
  unfolding names_equal_ci
  is_kept dtmf_pt a =
      if names_equal_ci a.name "rtpmap"
      then elim dtmf_pt [ none ↦ false | some pt ↦ is_dtmf_rtpmap pt a ]
      else if names_equal_ci a.name "fmtp"
      then elim dtmf_pt [ none ↦ false | some pt ↦ is_dtmf_fmtp pt a ]
      else true

  abbrev listed : Option String → List String
  listed none = []
  listed (some pt) = pt ∷ []

  unfoldable pub restrict_media : List SupportedCodec → SdpMedia → SdpMedia
  unfolding find_telephone_event_pt is_kept
  restrict_media allowed m =
      let dtmf_pt = find_telephone_event_pt m.attrs in
      record m {
        attrs = keep (is_kept dtmf_pt) m.attrs;
        formats = map (λ c. lib.print_pt c.payload_type) allowed ++ listed dtmf_pt;
      }

  unfoldable pub restrict_audio_codecs : List SupportedCodec → SdpSession → SdpSession
  unfolding restrict_media with_active_audio
  restrict_audio_codecs allowed sdp = record sdp {
    media = with_active_audio (restrict_media allowed) sdp.media;
  }

-- Is a codec of that name among the offered ones?
unfoldable pub offers : List AudioCodecInfo → SupportedCodec → Bool
unfolding names_equal_ci
offers offered codec = any (λ c. names_equal_ci c.name codec.name) offered

unfoldable pub pick_answer_codec :
    Option AudioCodecInfo → List AudioCodecInfo → Option SupportedCodec
unfolding offers names_equal_ci
pick_answer_codec none offered = find (offers offered) supported_codecs
pick_answer_codec (some preferred) offered =
    elim (find (λ c. names_equal_ci c.name preferred.name && offers offered c) supported_codecs) [
      | some c ↦ some c
      | none ↦ find (offers offered) supported_codecs
    ]
