-- ===== src/Registrar/Registration/Expiry.antt =====
-- How long a contact is granted: engine/src/sip/registrar/registrar_actions.cpp.
use sbc.Routing.Uri.{make_aor}
use sbc.Base.Assoc.{lookup-erase}
use sbc.Base.{eq_iff, ℕ, String, ◌≡◌, ◌⊎◌, ◌≤◌, ◌<◌, true, false, Option, [], ◌∷◌, arith}
use sbc.Base.Int.{leb_ℤ_refl, ℤ, pos, leb_ℤ}
use sbc.Registrar.BindingStore.{remove_all, find_live}
use sbc.Registrar.Registration.{
  mirror_removed, send_ok, ContactHeader, RegisterRequest, RegistrarConfig, Readings, Registrar,
  is_too_brief, granted_expires, process_registration, process_star, too_brief, ok,
}

-- Where the lower limit is not above the upper one, a contact that is not turned away is removed,
-- or granted a time between the two limits.
granted_expires_bounds :
    (config : RegistrarConfig) (top_level : Option ℤ) (contact : ContactHeader)
    → leb_ℤ config.min_expires_s config.max_expires_s ≡ true
    → is_too_brief config top_level contact ≡ false
    → let granted = granted_expires config top_level contact in
      (granted ≡ pos 0)
      ⊎ ((leb_ℤ config.min_expires_s granted ≡ true) × (leb_ℤ granted config.max_expires_s ≡ true))
unfolding is_too_brief granted_expires
granted_expires_bounds config top_level contact h k =
    ground (arith, leb_ℤ_refl config.max_expires_s)

-- The 32-bit header value is read as signed: an expiry of 2^31 seconds or more is taken for a
-- negative one, and answered as too brief with nothing stored, instead of being cut to the maximum.
pub long_expiry_too_brief :
    (config : RegistrarConfig) (t : Readings) (req : RegisterRequest) (realm : String)
    (contact : ContactHeader) (minimum : ℕ) (r : Registrar)
    → req.contacts ≡ contact ∷ []
    → contact.star ≡ false
    → config.min_expires_s ≡ pos minimum
    → 2147483648 ≤ contact.expires
    → contact.expires < 4294967295
    → process_registration config t req realm r ≡ (too_brief config.min_expires_s, r)
unfolding process_registration
long_expiry_too_brief config t req realm contact minimum r c s m l u = ground arith

-- A single `*` with an expiry of 0 leaves the address no live contact at any time, and the answer
-- lists none.
star_removes_all :
    (config : RegistrarConfig) (t : Readings) (req : RegisterRequest) (realm : String)
    (contact : ContactHeader) (r : Registrar) (now : ℕ)
    → req.contacts ≡ contact ∷ []
    → contact.star ≡ true
    → contact.expires ≡ 0
    → let (reply, r') = process_registration config t req realm r in
      (reply ≡ ok []) × (find_live (make_aor req.to_user realm) now r'.bindings ≡ [])
unfolding process_registration process_star remove_all send_ok find_live
star_removes_all config t req realm contact r now c s e = ground (
  arith,
  lookup-erase (make_aor req.to_user realm) (make_aor req.to_user realm)
      (mirror_removed t (make_aor req.to_user realm) req.user_agent
        (find_live (make_aor req.to_user realm) t.now r.bindings) r).bindings.bindings,
  eq_iff (make_aor req.to_user realm) (make_aor req.to_user realm),
)
