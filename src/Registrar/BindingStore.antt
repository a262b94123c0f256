-- ===== src/Registrar/BindingStore.antt =====
-- The location service: engine/src/sip/registrar/binding_store.hpp and .cpp. The two unordered maps
-- are association lists, a time point is a number of ticks.
pub mod Contacts
pub mod Live
pub mod Preferred
pub mod Replay
use sbc.Base.{
  ℕ, String, Bool, true, false, ◌&&◌, if◌then◌else◌, leb, ltb, Option, none, some, List, [], ◌∷◌,
  str_eq, keep,
}
use sbc.Base.Int.{ℤ, leb_ℤ}
use sbc.Base.Assoc.{lookup, insert, erase}

pub record Binding : Type 0 where
  pub contact_uri : String
  pub source_address : String
  pub source_port : ℤ
  pub transport : String
  pub call_id : String
  pub cseq : ℤ
  pub expires_at : ℕ
  pub refreshed_at : ℕ
  pub mirrored_at : ℕ

abbrev pub Contacts : Type 0
Contacts = List (String × Binding)

pub record BindingStore : Type 0 where
  pub bindings : List (String × Contacts)

pub data ApplyResult : Type 0 where
  applied call_id_cseq_conflict : ApplyResult

unfoldable pub conflicts : Binding → Binding → Bool
conflicts existing incoming =
    str_eq existing.call_id incoming.call_id && leb_ℤ incoming.cseq existing.cseq

-- The contacts of an address, none where there is no entry.
abbrev pub contacts_of : String → BindingStore → Contacts
contacts_of aor s = elim (lookup aor s.bindings) [ none ↦ [] | some cs ↦ cs ]

-- The first loop: does any contact fail the Call-ID and CSeq check?
unfoldable pub any_conflict : Contacts → List Binding → Bool
unfolding conflicts
any_conflict existing [] = false
any_conflict existing (incoming ∷ rest) =
    let later = any_conflict existing rest in
    elim (lookup incoming.contact_uri existing) [
      | none ↦ later
      | some b ↦ if conflicts b incoming then true else later
    ]

-- The second loop's body.
unfoldable pub put_contact : Binding → Contacts → Contacts
put_contact incoming contact_map =
    if leb incoming.expires_at incoming.refreshed_at
    then erase incoming.contact_uri contact_map
    else insert incoming.contact_uri incoming contact_map

unfoldable pub put_contacts : List Binding → Contacts → Contacts
unfolding put_contact
put_contacts [] contact_map = contact_map
put_contacts (incoming ∷ rest) contact_map = put_contacts rest (put_contact incoming contact_map)

abbrev pub store_contacts : String → Contacts → List (String × Contacts) → List (String × Contacts)
store_contacts aor [] bindings = erase aor bindings
store_contacts aor (c ∷ cs) bindings = insert aor (c ∷ cs) bindings

unfoldable pub apply_contacts : String → List Binding → BindingStore → ApplyResult × BindingStore
unfolding any_conflict put_contacts
apply_contacts aor contacts s =
    if any_conflict (contacts_of aor s) contacts then (call_id_cseq_conflict, s) else (
      applied,
      record s {
        bindings = store_contacts aor (put_contacts contacts (contacts_of aor s)) s.bindings;
      },
    )

unfoldable pub remove_all : String → BindingStore → BindingStore
remove_all aor s = record s { bindings = erase aor s.bindings }

-- `std::ranges::sort` by falling `refreshed_at`; it leaves the order of equal keys open.
unfoldable pub sort_in : Binding → List Binding → List Binding
sort_in b [] = b ∷ []
sort_in b (c ∷ cs) = if leb c.refreshed_at b.refreshed_at then b ∷ c ∷ cs else c ∷ sort_in b cs

unfoldable pub sort : List Binding → List Binding
unfolding sort_in
sort [] = []
sort (b ∷ bs) = sort_in b (sort bs)

unfoldable pub live_of : ℕ → Contacts → List Binding
live_of now [] = []
live_of now ((uri, b) ∷ cs) = if ltb now b.expires_at then b ∷ live_of now cs else live_of now cs

unfoldable pub find_live : String → ℕ → BindingStore → List Binding
unfolding live_of sort
find_live aor now s = sort (live_of now (contacts_of aor s))

abbrev pub front : List Binding → Option Binding
front [] = none
front (b ∷ bs) = some b

unfoldable pub find_preferred : String → ℕ → BindingStore → Option Binding
unfolding find_live
find_preferred aor now s = front (find_live aor now s)

unfoldable pub unexpired : ℕ → Contacts → Contacts
unexpired now [] = []
unexpired now ((uri, b) ∷ cs) =
    if leb b.expires_at now then unexpired now cs else (uri, b) ∷ unexpired now cs

abbrev keep_some : String → Contacts → List (String × Contacts) → List (String × Contacts)
keep_some aor [] rest = rest
keep_some aor (c ∷ cs) rest = (aor, c ∷ cs) ∷ rest

unfoldable pub sweep_all : ℕ → List (String × Contacts) → List (String × Contacts)
unfolding unexpired
sweep_all now [] = []
sweep_all now ((aor, cs) ∷ rest) = keep_some aor (unexpired now cs) (sweep_all now rest)

unfoldable pub sweep : ℕ → BindingStore → BindingStore
unfolding sweep_all
sweep now s = record s { bindings = sweep_all now s.bindings }
