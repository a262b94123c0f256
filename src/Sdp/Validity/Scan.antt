-- ===== src/Sdp/Validity/Scan.antt =====
-- The fuel of the scan of the session's lines.
use Prim.Native.Char.{Char, code}
use sbc.Base.{
  ap, ℕ, zero, suc, ◌-◌, ◌<◌, String, Bool, true, false, ◌&&◌, ◌||◌, if◌then◌else◌, none, some,
  List, [], ◌∷◌, str_eq, eq_iff, ◌≡◌, refl, arith, Option-cases, inl, inr,
}
use sbc.Base.Text.{size, drop, take, find_char}
use sbc.Sdp.Validity.{is_direction_line, session_direction_from, is_line_end}

size-drop : (n : ℕ) (s : String) → size (drop n s) ≡ size s - n
size-drop zero s = omega arith
size-drop (suc n) String.[] = omega arith
size-drop (suc n) (String.◌∷◌ c s) = omega (arith, size-drop n s)

find_char-size : (p : ℕ → Bool) (s : String) (n : ℕ) → find_char p s ≡ some n → n < size s
find_char-size p String.[] n h = ground arith
find_char-size p (String.◌∷◌ c s) n h = elim (Option-cases (find_char p s)) [
  | inl e ↦ ground arith
  | inr (k, e) ↦ ground (arith, find_char-size p s k e)
]

drop-shorter :
    (s : String) (n fuel : ℕ)
    → find_char is_line_end s ≡ some n
    → size s < suc fuel
    → size (drop (suc n) s) < fuel
drop-shorter s n fuel e h = omega (arith, size-drop (suc n) s, find_char-size is_line_end s n e)

-- The scan by lines: a text is split at every line end, and of the lines before the first medium at
-- most one names a direction.
abbrev pub onto_first : Char → List String → List String
onto_first c [] = String.◌∷◌ c String.[] ∷ []
onto_first c (l ∷ ls) = String.◌∷◌ c l ∷ ls

abbrev pub lines : String → List String
lines String.[] = "" ∷ []
lines (String.◌∷◌ c s) = if is_line_end (code c) then "" ∷ lines s else onto_first c (lines s)

abbrev pub one_direction_at_most : Bool → List String → Bool
one_direction_at_most direction_seen [] = true
one_direction_at_most direction_seen (l ∷ ls) =
    if str_eq (take 2 l) "m="
    then true
    else if is_direction_line l && direction_seen
    then false
    else one_direction_at_most (direction_seen || is_direction_line l) ls

lines-find_none : (s : String) → find_char is_line_end s ≡ none → lines s ≡ s ∷ []
lines-find_none String.[] h = refl
lines-find_none (String.◌∷◌ c s) h = elim (Option-cases (find_char is_line_end s)) [
  | inl e ↦ ground (arith, lines-find_none s e)
  | inr (k, e) ↦ ground arith
]

lines-find_some :
    (s : String) (n : ℕ)
    → find_char is_line_end s ≡ some n
    → lines s ≡ take n s ∷ lines (drop (suc n) s)
lines-find_some String.[] n h = ground arith
lines-find_some (String.◌∷◌ c s) n h = elim (Option-cases (find_char is_line_end s)) [
  | inl e ↦ ground arith
  | inr (k, e) ↦ ground (arith, lines-find_some s k e)
]

cons_not_empty : (c : Char) (s : String) → str_eq (String.◌∷◌ c s) "" ≡ false
cons_not_empty c s =
    ground (arith, eq_iff (String.◌∷◌ c s) "", λ (e : String.◌∷◌ c s ≡ ""). ap size e)

-- With more fuel than the text has characters, the scan of the session's lines comes to an end, and
-- says whether at most one of the lines before the first medium names a direction, beside one that
-- was seen before.
pub session_direction_from-lines :
    (fuel : ℕ) (seen : Bool) (sdp : String)
    → size sdp < fuel
    → session_direction_from fuel seen sdp ≡ some (one_direction_at_most seen (lines sdp))
unfolding session_direction_from
session_direction_from-lines zero seen sdp h = ground arith
session_direction_from-lines (suc fuel) seen String.[] h = ground arith
session_direction_from-lines (suc fuel) seen (String.◌∷◌ c s) h =
    let sdp = String.◌∷◌ c s in
    elim (Option-cases (find_char is_line_end sdp)) [
      | inl e ↦ ground (arith, cons_not_empty c s, lines-find_none sdp e)
      | inr (n, e) ↦ ground (
        arith,
        cons_not_empty c s,
        lines-find_some sdp n e,
        session_direction_from-lines fuel (seen || is_direction_line (take n sdp))
            (drop (suc n) sdp) (drop-shorter sdp n fuel e h),
      )
    ]
