-- ===== src/Sdp/Codecs/Choice.antt =====
-- Which codec the answer takes: `pick_answer_codec`.
use sbc.Base.{Option, Bool, true, false, ◌&&◌, none, some, List, ◌≡◌, any, arith}
use sbc.Protocols.{SupportedCodec, supported_codecs}
use sbc.Sdp.{names_equal_ci}
use sbc.Sdp.Codecs.{AudioCodecInfo, offers, pick_answer_codec}

-- Some supported codec of the preferred one's name is offered.
abbrev can_prefer : AudioCodecInfo → List AudioCodecInfo → Bool
can_prefer preferred offered =
    any (λ d. names_equal_ci d.name preferred.name && offers offered d) supported_codecs

abbrev IsPick : AudioCodecInfo → List AudioCodecInfo → Option SupportedCodec → Type 0
IsPick preferred offered none = any (offers offered) supported_codecs ≡ false
IsPick preferred offered (some c) =
    (offers offered c ≡ true)
    × (names_equal_ci c.name preferred.name ≡ can_prefer preferred offered)

-- The codec picked for an answer is offered, and it has the preferred codec's name exactly where
-- some supported codec of that name is offered; no codec is picked only if no supported one is
-- offered.
pick_answer_codec-IsPick :
    (preferred : AudioCodecInfo) (offered : List AudioCodecInfo)
    → IsPick preferred offered (pick_answer_codec (some preferred) offered)
unfolding pick_answer_codec
pick_answer_codec-IsPick preferred offered = ground arith
