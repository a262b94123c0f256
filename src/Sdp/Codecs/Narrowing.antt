-- ===== src/Sdp/Codecs/Narrowing.antt =====
-- What narrowing a description to chosen codecs leaves of it.
use sbc.Base.{
  ◌%◌, inr, inl, ap, Option-cases, String, Option, none, some, List, [], ◌∷◌, ◌≡◌, ◌≢◌, refl, find,
  keep, arith, eq_iff,
}
use sbc.Sdp.{
  find_active_audio_media, SdpSession, is_media_type, SdpAttr, SdpMedia, Pjmedia, is_active_audio,
  with_active_audio,
}
use sbc.Sdp.Codecs.{
  make_codec_info, extract_active_audio_codec, restrict_audio_codecs, SupportedCodec,
  restrict_media, find_telephone_event_pt, find_rtpmap, is_kept,
}

-- A change that keeps a line active changes the line that the search finds.
pub find-with_active_audio :
    (f : SdpMedia → SdpMedia) (ms : List SdpMedia) (m : SdpMedia)
    → ((n : SdpMedia) → is_active_audio (f n) ≡ is_active_audio n)
    → find is_active_audio ms ≡ some m
    → find is_active_audio (with_active_audio f ms) ≡ some (f m)
unfolding with_active_audio
find-with_active_audio f [] m h k = ground arith
find-with_active_audio f (n ∷ ms) m h k =
    ground (arith, h n, λ (e : find is_active_audio ms ≡ some m). find-with_active_audio f ms m h e)

module _ (lib : Pjmedia) where
  -- No codec's rtpmap is kept but that of DTMF.
  find_rtpmap-keep_dtmf :
      (d pt : String) (attrs : List SdpAttr)
      → d ≢ pt
      → find_rtpmap lib pt (keep (is_kept lib (some d)) attrs) ≡ none
  unfolding find_rtpmap is_kept
  find_rtpmap-keep_dtmf d pt [] h = refl
  find_rtpmap-keep_dtmf d pt (a ∷ attrs) h = elim (Option-cases (lib.get_rtpmap a)) [
    | inl e ↦ ground (arith, find_rtpmap-keep_dtmf d pt attrs h)
    | inr (r, e) ↦ ground (arith, eq_iff r.pt d, eq_iff r.pt pt, find_rtpmap-keep_dtmf d pt attrs h)
  ]

  find_rtpmap_kept_none :
      (pt : String) (attrs : List SdpAttr)
      → find_rtpmap lib pt (keep (is_kept lib none) attrs) ≡ none
  unfolding find_rtpmap is_kept
  find_rtpmap_kept_none pt [] = refl
  find_rtpmap_kept_none pt (a ∷ attrs) = ground (arith, find_rtpmap_kept_none pt attrs)

  find_rtpmap-keep :
      (dtmf : Option String) (pt : String) (attrs : List SdpAttr)
      → dtmf ≢ some pt
      → find_rtpmap lib pt (keep (is_kept lib dtmf) attrs) ≡ none
  find_rtpmap-keep none pt attrs h = find_rtpmap_kept_none pt attrs
  find_rtpmap-keep (some d) pt attrs h =
      find_rtpmap-keep_dtmf d pt attrs (λ e. h (ap (λ (x : String). some x) e))

  -- The telephone event that was found is found again.
  find_telephone_event_pt-keep_dtmf :
      (d : String) (attrs : List SdpAttr)
      → find_telephone_event_pt lib attrs ≡ some d
      → find_telephone_event_pt lib (keep (is_kept lib (some d)) attrs) ≡ some d
  unfolding find_telephone_event_pt is_kept
  find_telephone_event_pt-keep_dtmf d [] h = ground arith
  find_telephone_event_pt-keep_dtmf d (a ∷ attrs) h = elim (Option-cases (lib.get_rtpmap a)) [
    | inl e ↦ ground (
      arith,
      λ (k : find_telephone_event_pt lib attrs ≡ some d).
          find_telephone_event_pt-keep_dtmf d attrs k,
    )
    | inr (r, e) ↦ ground (
      arith,
      eq_iff r.pt d,
      λ (k : find_telephone_event_pt lib attrs ≡ some d).
          find_telephone_event_pt-keep_dtmf d attrs k,
    )
  ]

  find_telephone_event_pt_kept_none :
      (attrs : List SdpAttr) → find_telephone_event_pt lib (keep (is_kept lib none) attrs) ≡ none
  unfolding find_telephone_event_pt is_kept
  find_telephone_event_pt_kept_none [] = refl
  find_telephone_event_pt_kept_none (a ∷ attrs) =
      ground (arith, find_telephone_event_pt_kept_none attrs)

  find_telephone_event_pt-keep :
      (dtmf : Option String) (attrs : List SdpAttr)
      → find_telephone_event_pt lib attrs ≡ dtmf
      → find_telephone_event_pt lib (keep (is_kept lib dtmf) attrs) ≡ dtmf
  find_telephone_event_pt-keep none attrs h = find_telephone_event_pt_kept_none attrs
  find_telephone_event_pt-keep (some d) attrs h = find_telephone_event_pt-keep_dtmf d attrs h

  keep-keep :
      (dtmf : Option String) (attrs : List SdpAttr)
      → keep (is_kept lib dtmf) (keep (is_kept lib dtmf) attrs) ≡ keep (is_kept lib dtmf) attrs
  keep-keep dtmf [] = refl
  keep-keep dtmf (a ∷ attrs) = ground (arith, keep-keep dtmf attrs)

  restrict_media-restrict_media :
      (xs ys : List SupportedCodec) (m : SdpMedia)
      → restrict_media lib xs (restrict_media lib ys m) ≡ restrict_media lib xs m
  unfolding restrict_media
  restrict_media-restrict_media xs ys m =
      rw
        (
          find_telephone_event_pt-keep (find_telephone_event_pt lib m.attrs) m.attrs refl,
          keep-keep (find_telephone_event_pt lib m.attrs) m.attrs,
        )
        refl

  is_active_audio-restrict_media :
      (xs : List SupportedCodec) (m : SdpMedia)
      → is_active_audio (restrict_media lib xs m) ≡ is_active_audio m
  unfolding restrict_media is_active_audio is_media_type
  is_active_audio-restrict_media xs m = refl

  with_active_audio-restrict :
      (xs ys : List SupportedCodec) (ms : List SdpMedia)
      → with_active_audio (restrict_media lib xs) (with_active_audio (restrict_media lib ys) ms)
        ≡ with_active_audio (restrict_media lib xs) ms
  unfolding with_active_audio
  with_active_audio-restrict xs ys [] = refl
  with_active_audio-restrict xs ys (m ∷ ms) = ground (
    arith,
    is_active_audio-restrict_media ys m,
    restrict_media-restrict_media xs ys m,
    with_active_audio-restrict xs ys ms,
  )

  -- Narrowing a description that was narrowed before gives what narrowing the original gives: the
  -- first narrowing loses neither the telephone event nor an attribute that the second one keeps.
  pub restrict_audio_codecs-restrict_audio_codecs :
      (xs ys : List SupportedCodec) (sdp : SdpSession)
      → restrict_audio_codecs lib xs (restrict_audio_codecs lib ys sdp)
        ≡ restrict_audio_codecs lib xs sdp
  unfolding restrict_audio_codecs
  restrict_audio_codecs-restrict_audio_codecs xs ys sdp =
      ap (λ (ms : List SdpMedia). record sdp { media = ms })
        (with_active_audio-restrict xs ys sdp.media)

  -- A description with an active audio line, narrowed to one codec, has that codec as its active
  -- one: the codec's payload type is written and read back as a number below 256, has the codec's
  -- name as a static type, and is not the one that the line maps to the telephone event.
  pub extract_active_audio_codec-restrict :
      (c : SupportedCodec) (sdp : SdpSession) (m : SdpMedia)
      → find_active_audio_media sdp ≡ some m
      → find_telephone_event_pt lib m.attrs ≢ some (lib.print_pt c.payload_type)
      → lib.read_pt (lib.print_pt c.payload_type) % 256 ≡ c.payload_type
      → lib.audio_pt_tostring c.payload_type ≡ c.name
      → extract_active_audio_codec lib (restrict_audio_codecs lib (c ∷ []) sdp)
        ≡ some (record { payload_type = c.payload_type; name = c.name; clock_rate = 0 })
  unfolding restrict_audio_codecs find_active_audio_media extract_active_audio_codec make_codec_info
      restrict_media
  extract_active_audio_codec-restrict c sdp m h k reads names = ground (
    arith,
    find-with_active_audio (restrict_media lib (c ∷ [])) sdp.media m
        (λ n. is_active_audio-restrict_media (c ∷ []) n) h,
    find_rtpmap-keep (find_telephone_event_pt lib m.attrs) (lib.print_pt c.payload_type) m.attrs k,
  )
