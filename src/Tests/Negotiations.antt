-- ===== src/Tests/Negotiations.antt =====
-- The theorems on session descriptions, at concrete ones.
use sbc.Base.{
  ◌≡◌, ◌≢◌, ◌∙◌, sym, ap, refl, String, Bool, true, false, not, if◌then◌else◌, ◌==◌, Option, none,
  some, List, [], ◌∷◌, ◌++◌, find, any, keep, str_eq, arith,
}
use sbc.Protocols.{g722, pcma}
use sbc.Sdp.{
  SdpAttr, SdpMedia, SdpSession, Rtpmap, Pjmedia, RtpEndpoint, names_equal_ci,
  find_active_audio_media,
}
use sbc.Sdp.Validity.{session_direction_from}
use sbc.Sdp.Validity.Scan.{session_direction_from-lines, one_direction_at_most}
use sbc.Sdp.Codecs.{restrict_audio_codecs, extract_active_audio_codec, find_telephone_event_pt}
use sbc.Sdp.Codecs.Narrowing.{
  restrict_audio_codecs-restrict_audio_codecs, extract_active_audio_codec-restrict,
}
use sbc.Sdp.Direction.{extract_audio_direction, set_audio_direction, is_hold_address}
use sbc.Sdp.Direction.Written.{extract_audio_direction-set_audio_direction, named}
use sbc.Call.Session.{recv_only, is_some}

abbrev attr : String → String → SdpAttr
attr name value = record { name = name; value = value }

abbrev audio_line : SdpMedia
audio_line = record {
  kind = "audio";
  port = 4000;
  transport = "RTP/AVP";
  formats = "0" ∷ "8" ∷ "101" ∷ [];
  conn = none;
  attrs = attr "rtpmap" "101" ∷ attr "sendonly" "" ∷ [];
}

abbrev pub caller_offer : SdpSession
caller_offer = record {
  conn = some (record { net_type = "IN"; addr_type = "IP4"; addr = "192.0.2.1" });
  attrs = [];
  media = audio_line ∷ [];
}

abbrev telephone_event : Rtpmap
telephone_event = record { pt = "101"; enc_name = "telephone-event"; clock_rate = 8000 }

-- A PJMEDIA with one description and one rtpmap.
abbrev pub pjmedia : Pjmedia
pjmedia = record {
  sdp_parse = λ text. if str_eq text "broken" then none else some caller_offer;
  get_rtpmap = λ a. if str_eq a.value "101" then some telephone_event else none;
  get_fmtp = λ _. none;
  attr_find = λ name attrs. find (named name) attrs;
  remove_all_attr = λ name attrs. keep (λ a. not (named name a)) attrs;
  add_attr = λ a attrs. some (attrs ++ a ∷ []);
  is_unspecified_ip6 = λ _. false;
  print_pt = λ n. if n == 8 then "8" else if n == 9 then "9" else "0";
  read_pt = λ text.
      if str_eq text "8"
      then 8
      else if str_eq text "9"
      then 9
      else if str_eq text "101"
      then 101
      else 0;
  audio_pt_tostring = λ n. if n == 8 then "PCMA" else if n == 9 then "G722" else "PCMU";
}

find-any : (p : SdpAttr → Bool) (attrs : List SdpAttr) → is_some (find p attrs) ≡ any p attrs
find-any p [] = refl
find-any p (a ∷ attrs) = ground (arith, find-any p attrs)

abbrev quiet_endpoint : RtpEndpoint
quiet_endpoint = record { ip = "192.0.2.1"; port = 4000 }

restrict_audio_codecs-restrict_audio_codecs_example :
    restrict_audio_codecs pjmedia
      (pcma ∷ [])
      (restrict_audio_codecs pjmedia (g722 ∷ pcma ∷ []) caller_offer)
    ≡ restrict_audio_codecs pjmedia (pcma ∷ []) caller_offer
restrict_audio_codecs-restrict_audio_codecs_example =
    restrict_audio_codecs-restrict_audio_codecs pjmedia (pcma ∷ []) (g722 ∷ pcma ∷ []) caller_offer

abbrev is_8 : Option String → Bool
is_8 none = false
is_8 (some text) = str_eq text "8"

dtmf_line : find_telephone_event_pt pjmedia audio_line.attrs ≡ some "101"
unfolding find_telephone_event_pt names_equal_ci
dtmf_line = refl

some_8 : find_telephone_event_pt pjmedia audio_line.attrs ≢ some "8"
some_8 e = ground (arith, ap is_8 (sym dtmf_line ∙ e))

active_line : find_active_audio_media caller_offer ≡ some audio_line
unfolding find_active_audio_media
active_line = refl

extract_active_audio_codec-restrict_example :
    extract_active_audio_codec pjmedia (restrict_audio_codecs pjmedia (pcma ∷ []) caller_offer)
    ≡ some (record { payload_type = 8; name = "PCMA"; clock_rate = 0 })
extract_active_audio_codec-restrict_example =
    extract_active_audio_codec-restrict pjmedia pcma caller_offer audio_line active_line some_8 refl
      refl

was_set : (set_audio_direction pjmedia recv_only caller_offer).0 ≡ true
unfolding set_audio_direction
was_set = refl

no_hold : is_hold_address pjmedia "192.0.2.1" ≡ false
unfolding is_hold_address
no_hold = refl

extract_audio_direction-set_audio_direction_example :
    extract_audio_direction pjmedia
      (some (set_audio_direction pjmedia recv_only caller_offer).1)
      quiet_endpoint
    ≡ recv_only
extract_audio_direction-set_audio_direction_example =
    extract_audio_direction-set_audio_direction pjmedia (λ name attrs. find-any (named name) attrs)
      (λ name attrs. refl) (λ a attrs out e. ground arith) recv_only caller_offer quiet_endpoint
      was_set no_hold

session_direction_from-lines_example :
    session_direction_from 20 false "v=0\na=sendonly"
    ≡ some (one_direction_at_most false ("v=0" ∷ "a=sendonly" ∷ []))
session_direction_from-lines_example =
    session_direction_from-lines 20 false "v=0\na=sendonly" (omega arith)
