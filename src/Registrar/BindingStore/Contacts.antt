-- ===== src/Registrar/BindingStore/Contacts.antt =====
-- What a REGISTER's contacts do to the bindings of engine/src/sip/registrar/binding_store.cpp.
use sbc.Base.{
  ◌∙◌, ap, String, ◌≡◌, refl, if◌then◌else◌, leb, Option, none, some, List, [], ◌∷◌, str_eq, eq_iff,
  arith,
}
use sbc.Base.Assoc.{lookup, lookup-insert, lookup-erase}
use sbc.Registrar.BindingStore.{
  Binding, Contacts, BindingStore, contacts_of, any_conflict, store_contacts, put_contact,
  put_contacts, apply_contacts,
}

-- The binding of an address and a contact.
abbrev pub binding_at : String → String → BindingStore → Option Binding
binding_at aor uri s = lookup uri (contacts_of aor s)

-- What a list of contacts leaves at a contact that held `b`: the last one for that contact decides.
abbrev pub decided : String → List Binding → Option Binding → Option Binding
decided uri [] b = b
decided uri (c ∷ cs) b = decided uri cs (
    if str_eq c.contact_uri uri
    then (if leb c.expires_at c.refreshed_at then none else some c)
    else b)

lookup-put_contact :
    (uri : String) (c : Binding) (m : Contacts)
    → lookup uri (put_contact c m) ≡ (
        if str_eq c.contact_uri uri
        then (if leb c.expires_at c.refreshed_at then none else some c)
        else lookup uri m)
unfolding put_contact
lookup-put_contact uri c m =
    ground (arith, lookup-insert c.contact_uri uri c m, lookup-erase c.contact_uri uri m)

lookup-put_contacts :
    (uri : String) (cs : List Binding) (m : Contacts)
    → lookup uri (put_contacts cs m) ≡ decided uri cs (lookup uri m)
unfolding put_contacts
lookup-put_contacts uri [] m = refl
lookup-put_contacts uri (c ∷ cs) m =
    lookup-put_contacts uri cs (put_contact c m) ∙ ap (decided uri cs) (lookup-put_contact uri c m)

pub contacts_of-store :
    (aor a : String) (m : Contacts) (s : BindingStore)
    → contacts_of a (record s { bindings = store_contacts aor m s.bindings })
      ≡ (if str_eq aor a then m else contacts_of a s)
contacts_of-store aor a [] s = ground (arith, lookup-erase aor a s.bindings)
contacts_of-store aor a (c ∷ m) s = ground (arith, lookup-insert aor a (c ∷ m) s.bindings)

-- A REGISTER whose contacts are applied sets each contact of its address as the last entry for it
-- says (removed if it grants no time), and leaves every other binding alone; one that conflicts
-- leaves the whole store alone.
pub apply_contacts-binding_at :
    (aor : String) (contacts : List Binding) (s : BindingStore) (a uri : String)
    → binding_at a uri (apply_contacts aor contacts s).1 ≡ (
        if any_conflict (contacts_of aor s) contacts
        then binding_at a uri s
        else if str_eq aor a
        then decided uri contacts (binding_at a uri s)
        else binding_at a uri s)
unfolding apply_contacts
apply_contacts-binding_at aor contacts s a uri = ground (
  arith,
  eq_iff aor a,
  contacts_of-store aor a (put_contacts contacts (contacts_of aor s)) s,
  lookup-put_contacts uri contacts (contacts_of aor s),
)
