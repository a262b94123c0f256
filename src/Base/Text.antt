-- ===== src/Base/Text.antt =====
-- Positions in a text, counted in its characters: `std::string`'s `find` and `substr`.
use Prim.Native.Nat.{ℕ, zero, suc, ◌+◌}
use Prim.Native.Char.{Char, code}
use Prim.Native.String.{String, ◌++◌}
use Prim.Native.String.append
use mathlib.Core.Path.{◌≡◌, refl, ap}
use mathlib.Core.Bool.{Bool, true, false}
use mathlib.Core.Option
use mathlib.Core.Option.{Option, none, some}
use native.Mathlib.Omega.{arith}
use sbc.Base.Tests.{if◌then◌else◌}

abbrev pub size : String → ℕ
size String.[] = 0
size (String.◌∷◌ c s) = suc (size s)

abbrev pub drop : ℕ → String → String
drop zero s = s
drop (suc n) String.[] = String.[]
drop (suc n) (String.◌∷◌ c s) = drop n s

abbrev pub take : ℕ → String → String
take zero s = String.[]
take (suc n) String.[] = String.[]
take (suc n) (String.◌∷◌ c s) = String.◌∷◌ c (take n s)

module _ (p : ℕ → Bool) where
  -- The position of the first character that passes the test.
  abbrev pub find_char : String → Option ℕ
  find_char String.[] = none
  find_char (String.◌∷◌ c s) = if p (code c) then some 0 else Option.map suc (find_char s)

  -- No character passes the test.
  abbrev pub Without : String → Type 0
  Without String.[] = Unit {0}
  Without (String.◌∷◌ c s) = (p (code c) ≡ false) × Without s

  pub find_char-append :
      (a : String) (c : Char) (b : String)
      → Without a
      → p (code c) ≡ true
      → find_char (a ++ String.◌∷◌ c b) ≡ some (size a)
  find_char-append String.[] c b h k = rw append.nil (ground arith)
  find_char-append (String.◌∷◌ d a) c b h k =
      rw append.cons (ground (arith, find_char-append a c b h.1 k))

  pub find_char-none : (a : String) → Without a → find_char a ≡ none
  find_char-none String.[] h = refl
  find_char-none (String.◌∷◌ d a) h = ground (arith, find_char-none a h.1)

drop-append : (a b : String) → drop (size a) (a ++ b) ≡ b
drop-append String.[] b = append.nil b
drop-append (String.◌∷◌ c a) b = rw append.cons (drop-append a b)

pub take-append : (a b : String) → take (size a) (a ++ b) ≡ a
take-append String.[] b = refl
take-append (String.◌∷◌ c a) b =
    rw append.cons (ap (λ (s : String). String.◌∷◌ c s) (take-append a b))

pub size-append : (a b : String) → size (a ++ b) ≡ size a + size b
size-append String.[] b = rw append.nil (omega arith)
size-append (String.◌∷◌ c a) b = rw append.cons (omega (arith, size-append a b))

pub take-size : (a : String) → take (size a) a ≡ a
take-size String.[] = refl
take-size (String.◌∷◌ c a) = ap (λ (s : String). String.◌∷◌ c s) (take-size a)
