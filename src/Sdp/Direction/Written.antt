-- ===== src/Sdp/Direction/Written.antt =====
-- Writing a direction into a description and reading it back.
use sbc.Base.{
  inr, inl, find, Option-cases, any-snoc, str_eq, String, Bool, true, false, ◌||◌, not, some, List,
  [], ◌∷◌, ◌++◌, any, keep, ◌≡◌, arith,
}
use sbc.Call.Session.{is_some, MediaDirection, send_recv, send_only, recv_only, inactive}
use sbc.Sdp.{
  is_media_type, SdpAttr, SdpMedia, SdpSession, Pjmedia, RtpEndpoint, is_active_audio,
  find_active_audio_media, names_equal_ci,
}
use sbc.Sdp.Codecs.Narrowing.{find-with_active_audio}
use sbc.Sdp.Direction.{
  direction_name, is_hold_address, find_media_direction, extract_audio_direction,
  set_audio_direction, without_directions, directed,
}

-- What PJMEDIA documents of its attributes: a search by name finds the first one,
-- removal leaves those of other names in order, and adding appends where there is room.
abbrev pub named : String → SdpAttr → Bool
named name a = str_eq a.name name

any-keep_other :
    (p q : SdpAttr → Bool) (attrs : List SdpAttr)
    → any p attrs ≡ false
    → any p (keep q attrs) ≡ false
any-keep_other p q [] h = h
any-keep_other p q (a ∷ attrs) h =
    ground (arith, λ (k : any p attrs ≡ false). any-keep_other p q attrs k)

any-keep : (p : SdpAttr → Bool) (attrs : List SdpAttr) → any p (keep (λ a. not (p a)) attrs) ≡ false
any-keep p [] = ground arith
any-keep p (a ∷ attrs) = ground (arith, any-keep p attrs)

is_active_audio-attrs :
    (attrs : List SdpAttr) (m : SdpMedia)
    → is_active_audio (record m { attrs = attrs }) ≡ is_active_audio m
unfolding is_active_audio is_media_type
is_active_audio-attrs attrs m = λ i. is_active_audio m

module _ (lib : Pjmedia)
    (finds : (name : String) (attrs : List SdpAttr)
      → is_some (lib.attr_find name attrs) ≡ any (named name) attrs)
    (removes : (name : String) (attrs : List SdpAttr)
      → lib.remove_all_attr name attrs ≡ keep (λ a. not (named name a)) attrs)
    (adds : (a : SdpAttr) (attrs out : List SdpAttr)
      → lib.add_attr a attrs ≡ some out
      → out ≡ attrs ++ a ∷ []) where
  any-remove_all_attr :
      (name : String) (attrs : List SdpAttr)
      → any (named name) (lib.remove_all_attr name attrs) ≡ false
  any-remove_all_attr name attrs = rw (removes name attrs) (any-keep (named name) attrs)

  any-remove_all_attr_other :
      (name other : String) (attrs : List SdpAttr)
      → any (named name) attrs ≡ false
      → any (named name) (lib.remove_all_attr other attrs) ≡ false
  any-remove_all_attr_other name other attrs h =
      rw (removes other attrs) (any-keep_other (named name) (λ a. not (named other a)) attrs h)

  abbrev IsUndirected : List SdpAttr → Type 0
  IsUndirected attrs =
      (any (named "inactive") attrs ≡ false)
      × (any (named "sendonly") attrs ≡ false)
      × (any (named "recvonly") attrs ≡ false)
      × (any (named "sendrecv") attrs ≡ false)

  without_directions-IsUndirected :
      (attrs : List SdpAttr) → IsUndirected (without_directions lib attrs)
  without_directions-IsUndirected attrs =
      let a = lib.remove_all_attr "sendrecv" attrs in
      let b = lib.remove_all_attr "sendonly" a in
      let c = lib.remove_all_attr "recvonly" b in
      (
        any-remove_all_attr "inactive" c,
        any-remove_all_attr_other "sendonly" "inactive" c
            (any-remove_all_attr_other "sendonly" "recvonly" b (any-remove_all_attr "sendonly" a)),
        any-remove_all_attr_other "recvonly" "inactive" c (any-remove_all_attr "recvonly" b),
        any-remove_all_attr_other "sendrecv" "inactive" c (
            any-remove_all_attr_other "sendrecv" "recvonly" b (
              any-remove_all_attr_other "sendrecv" "sendonly" a
                (any-remove_all_attr "sendrecv" attrs))),
      )

  attr_find-snoc :
      (name : String) (attrs : List SdpAttr) (a : SdpAttr)
      → is_some (lib.attr_find name (attrs ++ a ∷ [])) ≡ any (named name) attrs || named name a
  attr_find-snoc name attrs a = rw (finds name (attrs ++ a ∷ [])) (any-snoc (named name) attrs a)

  abbrev direction_attr : MediaDirection → SdpAttr
  direction_attr d = record { name = direction_name d; value = "" }

  -- After the other directions are gone, the one that is added is found.
  find_media_direction-snoc :
      (d : MediaDirection) (attrs : List SdpAttr)
      → IsUndirected attrs
      → find_media_direction lib (attrs ++ direction_attr d ∷ []) ≡ some d
  unfolding find_media_direction direction_name names_equal_ci
  find_media_direction-snoc send_recv attrs h =
      let a = direction_attr send_recv in
      ground (
        arith,
        attr_find-snoc "inactive" attrs a,
        attr_find-snoc "sendonly" attrs a,
        attr_find-snoc "recvonly" attrs a,
        attr_find-snoc "sendrecv" attrs a,
      )
  find_media_direction-snoc send_only attrs h =
      let a = direction_attr send_only in
      ground (arith, attr_find-snoc "inactive" attrs a, attr_find-snoc "sendonly" attrs a)
  find_media_direction-snoc recv_only attrs h =
      let a = direction_attr recv_only in
      ground (
        arith,
        attr_find-snoc "inactive" attrs a,
        attr_find-snoc "sendonly" attrs a,
        attr_find-snoc "recvonly" attrs a,
      )
  find_media_direction-snoc inactive attrs h =
      ground (arith, attr_find-snoc "inactive" attrs (direction_attr inactive))

  -- A direction that was set is the one that is extracted, whatever the description said before,
  -- unless the offer's address asks for hold: searching, removing and adding attributes do what
  -- PJMEDIA documents.
  pub extract_audio_direction-set_audio_direction :
      (d : MediaDirection) (sdp : SdpSession) (offer_endpoint : RtpEndpoint)
      → (set_audio_direction lib d sdp).0 ≡ true
      → is_hold_address lib offer_endpoint.ip ≡ false
      → extract_audio_direction lib (some (set_audio_direction lib d sdp).1) offer_endpoint ≡ d
  unfolding extract_audio_direction set_audio_direction find_active_audio_media
  extract_audio_direction-set_audio_direction d sdp offer_endpoint h k =
      elim (Option-cases (find is_active_audio sdp.media)) [
        | inl e ↦ ground arith
        | inr (m, e) ↦ elim (Option-cases (directed lib d m.attrs)) [
          | inl f ↦ ground arith
          | inr (attrs, f) ↦
              let written : SdpMedia → SdpMedia = λ n. record n { attrs = attrs } in
              ground (
                arith,
                find-with_active_audio written sdp.media m (λ n. is_active_audio-attrs attrs n) e,
                adds (direction_attr d) (without_directions lib m.attrs) attrs f,
                find_media_direction-snoc d (without_directions lib m.attrs)
                    (without_directions-IsUndirected m.attrs),
              )
        ]
      ]
