-- ===== src/Tests/Registrations.antt =====
-- The registrar of engine/src/sip/registrar with one user and one phone.
use sbc.Routing.Uri.{make_aor}
use mathlib.Core.List.{List}
use sbc.Base.{
  find, arith, ◌+◌, ℕ, String, ◌≡◌, refl, true, false, Option, none, some, [], ◌∷◌, str_eq,
  if◌then◌else◌,
}
use sbc.Base.Int.{pos}
use sbc.Base.Assoc.{IsMap}
use sbc.Sdp.{names_equal_ci}
use sbc.Protocols.{SipUser}
use sbc.Registrar.Users.{UsersStore, find_user, is_local_domain, find_user_sound}
use sbc.Registrar.BindingStore.{
  conflicts, Binding, BindingStore, contacts_of, apply_contacts, remove_all, sweep, find_live,
  any_conflict, call_id_cseq_conflict,
}
use sbc.Registrar.BindingStore.Contacts.{binding_at, decided, apply_contacts-binding_at}
use sbc.Registrar.BindingStore.Live.{find_live-sweep, bindings-IsMap}
use sbc.Registrar.Registration.{
  process_contacts, decide_mirrors, mirror_decided, ContactHeader, RegisterRequest, RegistrarConfig,
  AuthStatus, verified, no_auth, Registrar, Readings, handle, Credential, process_contacts,
  process_registration, too_brief, lookup_credential,
}
use sbc.Registrar.BindingStore.Replay.{apply_contacts_no_replay, apply_all}
use sbc.Registrar.Registration.Access.{is_for, is_some}
use sbc.Registrar.Registration.Mirror.{mirror_may_lapse, mirrored_of}
use sbc.Registrar.Registration.Expiry.{long_expiry_too_brief}

abbrev pub alice : SipUser
alice = record { username = "alice"; realm = "sbc.local"; ha1 = "ha1"; enabled = true }

abbrev pub users : UsersStore
users = record { snapshot = record { users = alice ∷ [] } }

abbrev phone : ℕ → ℕ → Binding
phone cseq refreshed_at = record {
  contact_uri = "sip:alice@192.0.2.1";
  source_address = "192.0.2.1";
  source_port = pos 5060;
  transport = "udp";
  call_id = "1@192.0.2.1";
  cseq = pos cseq;
  expires_at = refreshed_at + 60;
  refreshed_at = refreshed_at;
  mirrored_at = refreshed_at;
}

abbrev pub store : BindingStore
store = record { bindings = ("alice@sbc.local", ("sip:alice@192.0.2.1", phone 1 10) ∷ []) ∷ [] }

abbrev empty : BindingStore
empty = record { bindings = [] }

abbrev uri : String
uri = "sip:alice@192.0.2.1"

abbrev aor : String
aor = "alice@sbc.local"

apply_contacts-binding_at_example :
    binding_at "alice@sbc.local" uri (apply_contacts "alice@sbc.local" (phone 2 20 ∷ []) store).1
    ≡ (if any_conflict (contacts_of "alice@sbc.local" store) (phone 2 20 ∷ [])
        then binding_at "alice@sbc.local" uri store
        else if str_eq "alice@sbc.local" "alice@sbc.local"
        then decided uri (phone 2 20 ∷ []) (binding_at "alice@sbc.local" uri store)
        else binding_at "alice@sbc.local" uri store)
apply_contacts-binding_at_example =
    apply_contacts-binding_at "alice@sbc.local" (phone 2 20 ∷ []) store "alice@sbc.local" uri

abbrev refreshes_alice : List (String × List Binding)
refreshes_alice = ("bob@sbc.local", []) ∷ ("alice@sbc.local", phone 3 20 ∷ []) ∷ []

apply_contacts_no_replay_example :
    let s' = apply_all refreshes_alice store in
    apply_contacts "alice@sbc.local" (phone 1 30 ∷ []) s' ≡ (call_id_cseq_conflict, s')
apply_contacts_no_replay_example =
    apply_contacts_no_replay "alice@sbc.local" uri (phone 1 10) refreshes_alice (phone 1 30 ∷ [])
      store refl refl refl

store-IsMap : IsMap store.bindings
store-IsMap = (refl, tt)

find_live-sweep_example :
    find_live "alice@sbc.local" 90 (sweep 80 store) ≡ find_live "alice@sbc.local" 90 store
find_live-sweep_example = find_live-sweep "alice@sbc.local" 80 90 store store-IsMap (omega arith)

bindings-IsMap_example :
    IsMap (apply_contacts "alice@sbc.local" (phone 2 20 ∷ []) store).1.bindings
    × IsMap (remove_all "alice@sbc.local" store).bindings
    × IsMap (sweep 80 store).bindings
bindings-IsMap_example = bindings-IsMap "alice@sbc.local" (phone 2 20 ∷ []) 80 store store-IsMap

find_user_sound_example :
    (alice.enabled ≡ true)
    × (alice.username ≡ "alice")
    × (alice.realm ≡ "sbc.local")
    × (is_local_domain "sbc.local" users ≡ true)
unfolding find_user
find_user_sound_example = find_user_sound "alice" "sbc.local" users alice refl

abbrev config : RegistrarConfig
config = record { min_expires_s = pos 60; max_expires_s = pos 3600 }

abbrev contact : ContactHeader
contact = record { star = false; printed = uri; expires = 600 }

abbrev register : ContactHeader → RegisterRequest
register c = record {
  to_is_sip = true;
  to_host = "sbc.local";
  to_user = "alice";
  authorizations = record { username = "alice"; realm = "sbc.local" } ∷ [];
  contacts = c ∷ [];
  expires = none;
  call_id = "1@192.0.2.1";
  cseq = pos 3;
  src_name = "192.0.2.1";
  src_port = pos 5060;
  user_agent = none;
}

abbrev readings : Readings
readings = record { now = 20; at_mirror = 21; at_reply = 22 }

abbrev registrar : BindingStore → Registrar
registrar s = record { bindings = s; has_sink = true; mirrored = [] }

-- A digest check that accepts the first credential for the realm, of a user on file.
abbrev verify_found : (String → String → Option String) → String → Option Credential → AuthStatus
verify_found lookup realm none = no_auth
verify_found lookup realm (some c) = if is_some (lookup c.username realm) then verified else no_auth

abbrev verify : (String → String → Option String) → String → RegisterRequest → AuthStatus
verify lookup realm req = verify_found lookup realm (find (is_for realm) req.authorizations)

abbrev registered : Binding
registered = record {
  contact_uri = uri;
  source_address = "192.0.2.1";
  source_port = pos 5060;
  transport = "udp";
  call_id = "1@192.0.2.1";
  cseq = pos 3;
  expires_at = 600000000020;
  refreshed_at = 20;
  mirrored_at = 20;
}

-- With a first header for another domain, the credential of another user is enough.
abbrev two_headers : RegisterRequest
two_headers = record (register contact) {
  authorizations =
      record { username = "alice"; realm = "elsewhere" }
      ∷ record { username = "bob"; realm = "sbc.local" }
      ∷ [];
}

abbrev two_users : UsersStore
two_users = record { snapshot = record { users = alice ∷ record alice { username = "bob" } ∷ [] } }

foreign_header_registers :
    contacts_of "alice@sbc.local"
      (handle verify two_users config readings two_headers (registrar empty)).1.bindings
    ≡ (uri, registered) ∷ []
unfolding handle lookup_credential process_registration process_contacts decide_mirrors
    apply_contacts any_conflict make_aor mirror_decided find_live names_equal_ci
foreign_header_registers = refl

abbrev later_readings : Readings
later_readings = record { now = 30; at_mirror = 31; at_reply = 32 }

mirror_may_lapse_example :
    let first =
      (process_contacts readings
        (register contact)
        "alice@sbc.local"
        (phone 1 20 ∷ [])
        (registrar empty)).1 in
    let second =
      (process_contacts later_readings
        (register contact)
        "alice@sbc.local"
        (phone 2 30 ∷ [])
        first).1 in
    (first.mirrored ≡ mirrored_of readings (register contact) "alice@sbc.local" (phone 1 20) ∷ [])
    × (second.mirrored ≡ first.mirrored)
    × (find_live "alice@sbc.local" 80 second.bindings
        ≡ record (phone 2 30) { mirrored_at = 20 } ∷ [])
unfolding conflicts
mirror_may_lapse_example =
    mirror_may_lapse readings later_readings (register contact) (register contact) "alice@sbc.local"
      (phone 1 20) (phone 2 30) 60 (registrar empty) refl refl refl refl refl refl refl refl refl
      refl refl (omega arith) (omega arith)

abbrev long_contact : ContactHeader
long_contact = record contact { expires = 2147483648 }

long_expiry_too_brief_example :
    process_registration config readings (register long_contact) "sbc.local" (registrar store)
    ≡ (too_brief (pos 60), registrar store)
long_expiry_too_brief_example =
    long_expiry_too_brief config readings (register long_contact) "sbc.local" long_contact 60
      (registrar store) refl refl refl (omega arith) (omega arith)
