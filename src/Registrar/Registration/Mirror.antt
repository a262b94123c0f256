-- ===== src/Registrar/Registration/Mirror.antt =====
-- When a registration is sent to the control plane:
-- engine/src/sip/registrar/registrar_actions.cpp.
use sbc.Base.Int.{eq_ℤ, eq_ℤ_refl}
use sbc.Base.Assoc.{lookup-insert}
use sbc.Base.{
  String, [], ◌∷◌, ◌++◌, leb, ◌⊎◌, inl, inr, Bool-cases, refl, ℕ, ◌+◌, ◌-◌, ◌/◌, ◌≡◌, ◌<◌, true,
  false, Option, none, some, List, str_eq, eq_iff, find, arith,
}
use sbc.Registrar.BindingStore.{
  Binding, BindingStore, contacts_of, find_live, apply_contacts, any_conflict, conflicts,
  put_contacts, put_contact,
}
use sbc.Registrar.Registration.{
  eq_ℤ, decide_mirror, decide_mirrors, should_mirror, is_removed, Readings, RegisterRequest,
  RegistrationEvent, Registrar, process_contacts, mirror_decided, mirror_registration,
  whole_seconds,
}

-- A contact that is not mirrored had a live binding from the same source, still grants time, and
-- was mirrored less than half of the granted time ago; the time of that mirror is carried over. One
-- that is mirrored is marked with the present time.
decide_mirror_lem :
    (live : List Binding) (now : ℕ) (b : Binding)
    → let (mirror, b') = decide_mirror live now b in
      (mirror ≡ true) × (b'.mirrored_at ≡ now)
      ⊎ (mirror ≡ false)
        × (p : Binding) × (find (λ q. str_eq q.contact_uri b.contact_uri) live ≡ some p)
        × (p.source_address ≡ b.source_address)
        × (eq_ℤ p.source_port b.source_port ≡ true)
        × (p.transport ≡ b.transport)
        × (b'.mirrored_at ≡ p.mirrored_at)
        × (b.refreshed_at < b.expires_at)
        × (now < p.mirrored_at + (b.expires_at - b.refreshed_at) / 2)
unfolding decide_mirror
decide_mirror_lem live now b = go (find (λ q. str_eq q.contact_uri b.contact_uri) live) refl
  where
    go :
        (o : Option Binding)
        → find (λ q. str_eq q.contact_uri b.contact_uri) live ≡ o
        → let (mirror, b') = decide_mirror live now b in
          (mirror ≡ true) × (b'.mirrored_at ≡ now)
          ⊎ (mirror ≡ false)
            × (p : Binding) × (find (λ q. str_eq q.contact_uri b.contact_uri) live ≡ some p)
            × (p.source_address ≡ b.source_address)
            × (eq_ℤ p.source_port b.source_port ≡ true)
            × (p.transport ≡ b.transport)
            × (b'.mirrored_at ≡ p.mirrored_at)
            × (b.refreshed_at < b.expires_at)
            × (now < p.mirrored_at + (b.expires_at - b.refreshed_at) / 2)
    go none e = inl (ground arith)
    go (some p) e = elim (Bool-cases (should_mirror (some p) b (is_removed b) now)) [
      | inl m ↦ inl (ground arith)
      | inr m ↦ inr (
        ground arith,
        p,
        e,
        ground (arith, eq_iff p.source_address b.source_address),
        ground arith,
        ground (arith, eq_iff p.transport b.transport),
        ground arith,
        ground arith,
        ground arith,
      )
    ]

-- The event that mirrors a contact.
abbrev pub mirrored_of : Readings → RegisterRequest → String → Binding → RegistrationEvent
mirrored_of t req aor b = record {
  aor = aor;
  contact_uri = b.contact_uri;
  source_address = b.source_address;
  source_port = b.source_port;
  transport = b.transport;
  user_agent = req.user_agent;
  expires_in_s = whole_seconds b.expires_at t.at_mirror;
  removed = false;
}

process_contacts-fresh :
    (t : Readings) (req : RegisterRequest) (aor : String) (b : Binding) (r : Registrar)
    → contacts_of aor r.bindings ≡ []
    → leb b.expires_at b.refreshed_at ≡ false
    → r.has_sink ≡ true
    → let r' = (process_contacts t req aor (b ∷ []) r).1 in
      (contacts_of aor r'.bindings ≡ (b.contact_uri, record b { mirrored_at = t.now }) ∷ [])
      × (r'.mirrored ≡ r.mirrored ++ mirrored_of t req aor b ∷ [])
unfolding process_contacts decide_mirrors decide_mirror should_mirror find_live apply_contacts
    any_conflict put_contacts put_contact mirror_decided mirror_registration
process_contacts-fresh t req aor b r c g k =
    let b' : Binding = record b { mirrored_at = t.now } in
    ground
      (arith, eq_iff aor aor, lookup-insert aor aor ((b.contact_uri, b') ∷ []) r.bindings.bindings)

process_contacts-refreshed :
    (t : Readings) (req : RegisterRequest) (aor : String) (p b : Binding) (r : Registrar)
    → contacts_of aor r.bindings ≡ (p.contact_uri, p) ∷ []
    → leb b.expires_at b.refreshed_at ≡ false
    → t.now < p.expires_at
    → conflicts p b ≡ false
    → p.contact_uri ≡ b.contact_uri
    → should_mirror (some p) b (is_removed b) t.now ≡ false
    → let r' = (process_contacts t req aor (b ∷ []) r).1 in
      (contacts_of aor r'.bindings ≡ (b.contact_uri, record b { mirrored_at = p.mirrored_at }) ∷ [])
      × (r'.mirrored ≡ r.mirrored)
unfolding process_contacts decide_mirrors decide_mirror find_live apply_contacts any_conflict
    put_contacts put_contact mirror_decided mirror_registration
process_contacts-refreshed t req aor p b r c g l f u m =
    let b' : Binding = record b { mirrored_at = p.mirrored_at } in
    ground (
      arith,
      eq_iff aor aor,
      eq_iff p.contact_uri b.contact_uri,
      lookup-insert aor aor ((b.contact_uri, b') ∷ []) r.bindings.bindings,
    )

find_live-one :
    (aor uri : String) (b : Binding) (now : ℕ) (s : BindingStore)
    → contacts_of aor s ≡ (uri, b) ∷ []
    → now < b.expires_at
    → find_live aor now s ≡ b ∷ []
unfolding find_live
find_live-one aor uri b now s c l = ground arith

not_mirrored :
    (p b : Binding) (now : ℕ)
    → p.source_address ≡ b.source_address
    → p.source_port ≡ b.source_port
    → p.transport ≡ b.transport
    → leb b.expires_at b.refreshed_at ≡ false
    → now < p.mirrored_at + (b.expires_at - b.refreshed_at) / 2
    → should_mirror (some p) b (is_removed b) now ≡ false
unfolding should_mirror
not_mirrored p b now a o r g l =
    let same_port : eq_ℤ p.source_port b.source_port ≡ true = rw o (eq_ℤ_refl b.source_port) in
    ground
      (arith, eq_iff p.source_address b.source_address, eq_iff p.transport b.transport, same_port)

-- A refresh that is not mirrored can leave the mirrored expiry behind. For an address without
-- bindings and with a sink, let one contact be registered, and refreshed from the same source with
-- the same grant and a later CSeq or another Call-ID before half of the grant has passed: the first
-- REGISTER is mirrored with its expiry, the second is not, and at the mirrored expiry the contact is
-- still live.
pub mirror_may_lapse :
    (t t' : Readings) (req req' : RegisterRequest) (aor : String) (b b' : Binding) (grant : ℕ)
    (r : Registrar)
    → contacts_of aor r.bindings ≡ []
    → r.has_sink ≡ true
    → b.refreshed_at ≡ t.now
    → b.expires_at ≡ t.now + grant
    → b'.refreshed_at ≡ t'.now
    → b'.expires_at ≡ t'.now + grant
    → b.contact_uri ≡ b'.contact_uri
    → b.source_address ≡ b'.source_address
    → b.source_port ≡ b'.source_port
    → b.transport ≡ b'.transport
    → conflicts b b' ≡ false
    → t.now < t'.now
    → t'.now < t.now + grant / 2
    → let first = (process_contacts t req aor (b ∷ []) r).1 in
      let second = (process_contacts t' req' aor (b' ∷ []) first).1 in
      (first.mirrored ≡ r.mirrored ++ mirrored_of t req aor b ∷ [])
      × (second.mirrored ≡ first.mirrored)
      × (find_live aor b.expires_at second.bindings ≡ record b' { mirrored_at = t.now } ∷ [])
unfolding conflicts
mirror_may_lapse t t' req req' aor b b' grant r c k x e x' e' u a o n f l h =
    let p : Binding = record b { mirrored_at = t.now } in
    let first = (process_contacts t req aor (b ∷ []) r).1 in
    let one = process_contacts-fresh t req aor b r c (ground arith) k in
    let granted : leb b'.expires_at b'.refreshed_at ≡ false = ground arith in
    let waits : t'.now < t.now + (b'.expires_at - b'.refreshed_at) / 2 = ground arith in
    let two =
      process_contacts-refreshed t' req' aor p b' first one.0 granted (ground arith) f u
        (not_mirrored p b' t'.now a o n granted waits) in
    (
      one.1,
      two.1,
      find_live-one aor b'.contact_uri (record b' { mirrored_at = t.now }) b.expires_at
          (process_contacts t' req' aor (b' ∷ []) first).1.bindings two.0 (ground arith),
    )
