-- ===== src/Call/Outbound/Headers.antt =====
-- What the headers of the outbound INVITE say.
use sbc.Base.{
  ◌≤◌, String, true, List, [], ◌∷◌, any-snoc, length, length-append, All, ◌≡◌, refl, arith,
}
use sbc.Sdp.{names_equal_ci}
use sbc.Call.Outbound.{max_count, add_value, has_value, require_replaces}

has_value-add_value :
    (v : String) (hs : List (List String))
    → names_equal_ci v v ≡ true
    → has_value v (add_value v hs) ≡ true
unfolding has_value
has_value-add_value v [] e = ground arith
has_value-add_value v (h ∷ hs) e =
    ground (arith, any-snoc (λ w. names_equal_ci w v) h v, has_value-add_value v hs e)

-- A header within PJSIP's bound on its values.
abbrev Fits : List String → Type 0
Fits h = length h ≤ max_count

add_value-Fits : (v : String) (hs : List (List String)) → All Fits hs → All Fits (add_value v hs)
add_value-Fits v [] e = ground arith
add_value-Fits v (h ∷ hs) e = ground (arith, length-append h (v ∷ []), add_value-Fits v hs e.1)

-- The outbound INVITE requires Replaces, whatever it required before, and no header gets more values
-- than it holds, where none had more.
require_replaces_lem :
    (hs : List (List String))
    → All Fits hs
    → (has_value "replaces" (require_replaces hs) ≡ true) × All Fits (require_replaces hs)
unfolding require_replaces names_equal_ci
require_replaces_lem hs h =
    ground (arith, has_value-add_value "replaces" hs refl, add_value-Fits "replaces" hs h)
