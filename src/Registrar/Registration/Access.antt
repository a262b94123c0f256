-- ===== src/Registrar/Registration/Access.antt =====
-- Who may change which bindings: engine/src/sip/registrar/registrar_actions.cpp.
use mathlib.Core.Option
use sbc.Sdp.{names_equal_ci}
use sbc.Base.{find, String, ◌≡◌, Bool, true, false, Option, none, some, List, [], ◌∷◌}
use sbc.Registrar.BindingStore.{BindingStore}
use sbc.Registrar.Registration.{Credential, RegisterRequest, Registrar}

-- The header that PJSIP verifies for a realm is the first one of that realm, in any case.
abbrev pub is_for : String → Credential → Bool
is_for realm c = names_equal_ci c.realm realm

-- The first Authorization header is for the realm, where there is one.
abbrev pub first_is_for : String → List Credential → Bool
first_is_for realm [] = true
first_is_for realm (c ∷ cs) = is_for realm c

abbrev pub is_some {ℓ} : {A : Type ℓ} → Option A → Bool
is_some none = false
is_some (some _) = true

-- The credential that was verified: the one for the realm, of a user that the lookup knows.
abbrev pub IsVerified :
    (String → String → Option String) → String → RegisterRequest → Credential → Type 0
IsVerified lookup realm req c =
    (find (is_for realm) req.authorizations ≡ some c) × (is_some (lookup c.username realm) ≡ true)
