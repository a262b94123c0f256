-- ===== src/Registrar/BindingStore/Replay.antt =====
-- Late REGISTERs for a contact that is still bound: engine/src/sip/registrar/binding_store.cpp.
use sbc.Base.{
  false, true, Bool, not, ◌&&◌, if◌then◌else◌, any, String, ◌≡◌, refl, leb, Option, some, List, [],
  ◌∷◌, str_eq, eq_iff, arith, Bool-cases, inl, inr,
}
use sbc.Base.Int.{ℤ, pos, negsuc, leb_ℤ, leb_ℤ_trans, leb_ℤ_refl}
use sbc.Base.Assoc.{lookup}
use sbc.Registrar.BindingStore.{
  Binding, Contacts, BindingStore, contacts_of, any_conflict, call_id_cseq_conflict, apply_contacts,
}
use sbc.Registrar.BindingStore.Contacts.{binding_at, decided, apply_contacts-binding_at}

-- A contact that is as late as the one for `uri` it would replace.
abbrev pub is_stale : String → Binding → Binding → Bool
is_stale uri b c = str_eq c.contact_uri uri && str_eq b.call_id c.call_id && leb_ℤ c.cseq b.cseq

-- The entries for `uri` are refreshes under the Call-ID.
abbrev pub refreshes : String → String → List Binding → Bool
refreshes uri call_id [] = true
refreshes uri call_id (c ∷ cs) =
    (if str_eq c.contact_uri uri
      then str_eq c.call_id call_id && not (leb c.expires_at c.refreshed_at)
      else true)
    && refreshes uri call_id cs

-- Each REGISTER, by its address and contacts, either is for another address or only refreshes.
abbrev pub all_refresh : String → String → String → List (String × List Binding) → Bool
all_refresh aor uri call_id [] = true
all_refresh aor uri call_id ((a, cs) ∷ history) =
    (if str_eq a aor then refreshes uri call_id cs else true) && all_refresh aor uri call_id history

abbrev pub apply_all : List (String × List Binding) → BindingStore → BindingStore
apply_all [] s = s
apply_all ((a, cs) ∷ history) s = apply_all history (apply_contacts a cs s).1

any_conflict_stale :
    (uri : String) (b : Binding) (m : Contacts) (cs : List Binding)
    → lookup uri m ≡ some b
    → any (is_stale uri b) cs ≡ true
    → any_conflict m cs ≡ true
unfolding any_conflict
any_conflict_stale uri b m [] h k = cc
any_conflict_stale uri b m (c ∷ cs) h k =
    ground (arith, eq_iff c.contact_uri uri, any_conflict_stale uri b m cs h)

later_of : (a b : ℤ) → leb_ℤ a b ≡ false → leb_ℤ b a ≡ true
later_of (pos a) (pos b) h = ground arith
later_of (negsuc a) (negsuc b) h = ground arith
later_of a b h = ground arith

-- A binding that has replaced `b` by refreshes.
record Succeeds (b : Binding) (o : Option Binding) : Type 0 where
  pub at : Binding
  pub bound : o ≡ some at
  pub same : at.call_id ≡ b.call_id
  pub later : leb_ℤ b.cseq at.cseq ≡ true

entry-later :
    (uri : String) (b x c : Binding) (m : Contacts) (cs : List Binding)
    → lookup uri m ≡ some x
    → x.call_id ≡ b.call_id
    → leb_ℤ b.cseq x.cseq ≡ true
    → any_conflict m (c ∷ cs) ≡ false
    → c.contact_uri ≡ uri
    → c.call_id ≡ b.call_id
    → leb_ℤ b.cseq c.cseq ≡ true
unfolding any_conflict
entry-later uri b x c m cs l s n h e i =
    ground (
      arith,
      eq_iff x.call_id c.call_id,
      later_of c.cseq x.cseq,
      leb_ℤ_trans b.cseq x.cseq c.cseq n,
    )

any_conflict-rest :
    (m : Contacts) (c : Binding) (cs : List Binding)
    → any_conflict m (c ∷ cs) ≡ false
    → any_conflict m cs ≡ false
unfolding any_conflict
any_conflict-rest m c cs h = ground arith

decided-Succeeds :
    (uri : String) (b x y : Binding) (m : Contacts) (cs : List Binding)
    → lookup uri m ≡ some x
    → x.call_id ≡ b.call_id
    → leb_ℤ b.cseq x.cseq ≡ true
    → any_conflict m cs ≡ false
    → refreshes uri b.call_id cs ≡ true
    → y.call_id ≡ b.call_id
    → leb_ℤ b.cseq y.cseq ≡ true
    → Succeeds b (decided uri cs (some y))
decided-Succeeds uri b x y m [] l s n h r s' n' = record {
  at = y;
  bound = refl;
  same = s';
  later = n';
}
decided-Succeeds uri b x y m (c ∷ cs) l s n h r s' n' =
    let rest = any_conflict-rest m c cs h in
    elim (Bool-cases (str_eq c.contact_uri uri)) [
      | inl e ↦
          let granted : leb c.expires_at c.refreshed_at ≡ false = ground arith in
          let id : c.call_id ≡ b.call_id = ground (arith, eq_iff c.call_id b.call_id) in
          let here : c.contact_uri ≡ uri = ground (arith, eq_iff c.contact_uri uri) in
          rw (e, granted)
            (decided-Succeeds uri b x c m cs l s n rest (ground arith) id
              (entry-later uri b x c m cs l s n h here id))
      | inr e ↦ rw e (decided-Succeeds uri b x y m cs l s n rest (ground arith) s' n')
    ]

apply_contacts-Succeeds :
    (aor uri a : String) (b : Binding) (cs : List Binding) (s : BindingStore)
    → Succeeds b (binding_at aor uri s)
    → (if str_eq a aor then refreshes uri b.call_id cs else true) ≡ true
    → Succeeds b (binding_at aor uri (apply_contacts a cs s).1)
apply_contacts-Succeeds aor uri a b cs s h r =
    rw (apply_contacts-binding_at a cs s aor uri)
      (elim (Bool-cases (any_conflict (contacts_of a s) cs)) [
        | inl c ↦ rw c h
        | inr c ↦ elim (Bool-cases (str_eq a aor)) [
          | inl e ↦
              rw (c, e, h.bound)
                (decided-Succeeds uri b h.at h.at (contacts_of a s) cs
                  (ground (arith, eq_iff a aor, h.bound)) h.same h.later c (ground arith) h.same
                  h.later)
          | inr e ↦ rw (c, e) h
        ]
      ])

apply_all-Succeeds :
    (aor uri : String) (b : Binding) (history : List (String × List Binding)) (s : BindingStore)
    → Succeeds b (binding_at aor uri s)
    → all_refresh aor uri b.call_id history ≡ true
    → Succeeds b (binding_at aor uri (apply_all history s))
apply_all-Succeeds aor uri b [] s h r = h
apply_all-Succeeds aor uri b ((a, cs) ∷ history) s h r =
    apply_all-Succeeds aor uri b history (apply_contacts a cs s).1
      (apply_contacts-Succeeds aor uri a b cs s h (ground arith)) (ground arith)

stale-Succeeds :
    (uri : String) (b x : Binding) (late : List Binding)
    → x.call_id ≡ b.call_id
    → leb_ℤ b.cseq x.cseq ≡ true
    → any (is_stale uri b) late ≡ true
    → any (is_stale uri x) late ≡ true
stale-Succeeds uri b x [] s n h = cc
stale-Succeeds uri b x (c ∷ late) s n h = ground (
  arith,
  eq_iff b.call_id c.call_id,
  eq_iff x.call_id c.call_id,
  leb_ℤ_trans c.cseq b.cseq x.cseq,
  stale-Succeeds uri b x late s n,
)

-- A REGISTER is not accepted late while the contact is bound: if a contact has the binding `b`, and
-- whatever REGISTERs came after it, those for its address having only refreshed the contact under
-- the same Call-ID, another for the address with an entry for the contact, of that Call-ID and
-- without a CSeq above that of `b`, is refused and changes nothing, also where the entry would
-- remove the contact. Once a contact is removed nothing is remembered of it.
pub apply_contacts_no_replay :
    (aor uri : String) (b : Binding) (history : List (String × List Binding)) (late : List Binding)
    (s : BindingStore)
    → binding_at aor uri s ≡ some b
    → all_refresh aor uri b.call_id history ≡ true
    → any (is_stale uri b) late ≡ true
    → let s' = apply_all history s in apply_contacts aor late s' ≡ (call_id_cseq_conflict, s')
unfolding apply_contacts
apply_contacts_no_replay aor uri b history late s h r k =
    let f =
      apply_all-Succeeds aor uri b history s
        (record { at = b; bound = h; same = refl; later = leb_ℤ_refl b.cseq }) r in
    rw
      (any_conflict_stale uri f.at (contacts_of aor (apply_all history s)) late f.bound
        (stale-Succeeds uri b f.at late f.same f.later k))
      refl
