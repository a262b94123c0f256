-- ===== src/Registrar/BindingStore/Live.antt =====
-- What the lookups of engine/src/sip/registrar/binding_store.cpp return, and what a sweep keeps.
use mathlib.Core.Path.{subst}
use mathlib.Core.Option.{some}
use sbc.Base.{
  Option, none, some, inr, inl, leb, ◌≢◌, Bool-cases, ℕ, String, ◌≡◌, refl, ◌≤◌, ◌<◌, ◌∙◌, ap, none,
  List, [], ◌∷◌, eq_iff, arith, All,
}
use mathlib.Core.List.{Perm}
use mathlib.Core.List.Perm
use sbc.Base.Assoc.{insert-IsMap, erase-IsMap, lookup, IsMap}
use sbc.Registrar.BindingStore.{
  put_contacts, store_contacts, front, any_conflict, remove_all, apply_contacts, find_preferred,
  Binding, Contacts, BindingStore, contacts_of, sort_in, sort, live_of, find_live, unexpired,
  sweep_all, sweep,
}

-- No binding further on was refreshed later.
abbrev IsNewestFirst : List Binding → Type 0
IsNewestFirst [] = Unit {0}
IsNewestFirst (b ∷ bs) = All (λ c. c.refreshed_at ≤ b.refreshed_at) bs × IsNewestFirst bs

All-mono :
    (m n : ℕ) (bs : List Binding)
    → m ≤ n
    → All (λ c. c.refreshed_at ≤ m) bs
    → All (λ c. c.refreshed_at ≤ n) bs
All-mono m n [] h a = tt
All-mono m n (b ∷ bs) h a = (omega arith, All-mono m n bs h a.1)

sort_in-All :
    (n : ℕ) (b : Binding) (bs : List Binding)
    → b.refreshed_at ≤ n
    → All (λ c. c.refreshed_at ≤ n) bs
    → All (λ c. c.refreshed_at ≤ n) (sort_in b bs)
unfolding sort_in
sort_in-All n b [] h a = (h, tt)
sort_in-All n b (c ∷ bs) h a = ground (arith, sort_in-All n b bs h a.1)

sort_in-IsNewestFirst :
    (b : Binding) (bs : List Binding) → IsNewestFirst bs → IsNewestFirst (sort_in b bs)
unfolding sort_in
sort_in-IsNewestFirst b [] h = (tt, tt)
sort_in-IsNewestFirst b (c ∷ bs) h = ground (
  arith,
  sort_in-IsNewestFirst b bs h.1,
  All-mono c.refreshed_at b.refreshed_at bs,
  sort_in-All c.refreshed_at b bs,
)

sort-IsNewestFirst : (bs : List Binding) → IsNewestFirst (sort bs)
unfolding sort
sort-IsNewestFirst [] = tt
sort-IsNewestFirst (b ∷ bs) = sort_in-IsNewestFirst b (sort bs) (sort-IsNewestFirst bs)

sort_in-perm : (b : Binding) (bs : List Binding) → Perm (sort_in b bs) (b ∷ bs)
unfolding sort_in
sort_in-perm b [] = Perm.refl _
sort_in-perm b (c ∷ bs) =
    let rest = Perm.trans (Perm.cons c (sort_in-perm b bs)) (Perm.swap b c bs) in
    ground (arith, rest, Perm.refl (b ∷ c ∷ bs))

sort-perm : (bs : List Binding) → Perm (sort bs) bs
unfolding sort
sort-perm [] = Perm.refl _
sort-perm (b ∷ bs) = Perm.trans (sort_in-perm b (sort bs)) (Perm.cons b (sort-perm bs))

-- The live contacts are the unexpired bindings of the address, each once, the most recently
-- refreshed first.
find_live_lem :
    (aor : String) (now : ℕ) (s : BindingStore)
    → IsNewestFirst (find_live aor now s)
      × Perm (find_live aor now s) (live_of now (contacts_of aor s))
unfolding find_live
find_live_lem aor now s = (
  sort-IsNewestFirst (live_of now (contacts_of aor s)),
  sort-perm (live_of now (contacts_of aor s)),
)

live_of-All : (now : ℕ) (cs : Contacts) → All (λ b. now < b.expires_at) (live_of now cs)
unfolding live_of
live_of-All now [] = tt
live_of-All now (c ∷ cs) = ground (arith, live_of-All now cs)

live_of-unexpired :
    (now later : ℕ) (cs : Contacts)
    → now ≤ later
    → live_of later (unexpired now cs) ≡ live_of later cs
unfolding live_of unexpired
live_of-unexpired now later [] h = refl
live_of-unexpired now later (c ∷ cs) h = ground (arith, live_of-unexpired now later cs h)

lookup-sweep_none :
    (now : ℕ) (aor : String) (m : List (String × Contacts))
    → lookup aor m ≡ none
    → lookup aor (sweep_all now m) ≡ none
unfolding sweep_all
lookup-sweep_none now aor [] h = refl
lookup-sweep_none now aor ((a, cs) ∷ m) h =
    ground (arith, eq_iff a aor, lookup-sweep_none now aor m)

contacts_of-sweep :
    (now : ℕ) (aor : String) (m : List (String × Contacts))
    → IsMap m
    → contacts_of aor (record { bindings = sweep_all now m })
      ≡ unexpired now (contacts_of aor (record { bindings = m }))
unfolding sweep_all unexpired
contacts_of-sweep now aor [] h = refl
contacts_of-sweep now aor ((a, cs) ∷ m) h =
    ground (arith, eq_iff a aor, lookup-sweep_none now a m h.0, contacts_of-sweep now aor m h.1)

-- A sweep of a store with one entry for an address cannot be seen: at its time and after it, every
-- address has the live contacts that it would have had without the sweep.
pub find_live-sweep :
    (aor : String) (now later : ℕ) (s : BindingStore)
    → IsMap s.bindings
    → now ≤ later
    → find_live aor later (sweep now s) ≡ find_live aor later s
unfolding find_live sweep
find_live-sweep aor now later s h k = ap sort (
    ap (live_of later) (contacts_of-sweep now aor s.bindings h)
    ∙ live_of-unexpired now later (contacts_of aor s) k)

preferred_of :
    (bs : List Binding)
    → IsNewestFirst bs
    → (b : Binding) → front bs ≡ some b
    → All (λ c. c.refreshed_at ≤ b.refreshed_at) bs
preferred_of [] h b e = tt
preferred_of (c ∷ cs) h b e = ground arith

All-head :
    (P : Binding → Type 0) (bs : List Binding) (b : Binding) → All P bs → front bs ≡ some b → P b
All-head P [] b a e = cc
All-head P (c ∷ cs) b a e = let e' : c ≡ b = cc in subst P e' a.0

sort_in-All' :
    (P : Binding → Type 0) (b : Binding) (bs : List Binding) → P b → All P bs → All P (sort_in b bs)
unfolding sort_in
sort_in-All' P b [] h a = (h, tt)
sort_in-All' P b (c ∷ bs) h a = elim (Bool-cases (leb c.refreshed_at b.refreshed_at)) [
  | inl e ↦ rw e (h, a)
  | inr e ↦ rw e (a.0, sort_in-All' P b bs h a.1)
]

sort-All : (P : Binding → Type 0) (bs : List Binding) → All P bs → All P (sort bs)
unfolding sort
sort-All P [] a = tt
sort-All P (b ∷ bs) a = sort_in-All' P b (sort bs) a.0 (sort-All P bs a.1)

sort_in-cons : (b : Binding) (bs : List Binding) → sort_in b bs ≢ []
unfolding sort_in
sort_in-cons b [] = cc
sort_in-cons b (c ∷ bs) = ground arith

sort-eq-nil : (bs : List Binding) → sort bs ≡ [] → bs ≡ []
unfolding sort
sort-eq-nil [] h = refl
sort-eq-nil (b ∷ bs) h = absurd (sort_in-cons b (sort bs) h)

empty_of : (bs : List Binding) → front bs ≡ none → bs ≡ []
empty_of [] e = refl
empty_of (c ∷ cs) e = cc

-- What is true of the preferred contact, or of there being none.
abbrev pub IsPreferred : List Binding → List Binding → ℕ → Option Binding → Type 0
IsPreferred live found now none = live ≡ []
IsPreferred live found now (some b) =
    (now < b.expires_at) × All (λ c. c.refreshed_at ≤ b.refreshed_at) found

-- The preferred contact is live at the given time and no live contact of the address was refreshed
-- later; there is none only when the address has no live contact.
pub find_preferred_lem :
    (aor : String) (now : ℕ) (s : BindingStore)
    → IsPreferred
        (live_of now (contacts_of aor s))
        (find_live aor now s)
        now
        (find_preferred aor now s)
unfolding find_preferred find_live
find_preferred_lem aor now s = go (front (sort live)) refl
  where
    live : List Binding
    live = live_of now (contacts_of aor s)

    go : (o : Option Binding) → front (sort live) ≡ o → IsPreferred live (sort live) now o
    go none e = sort-eq-nil live (empty_of (sort live) e)
    go (some b) e = (
      All-head (λ b. now < b.expires_at) (sort live) b
          (sort-All (λ b. now < b.expires_at) live (live_of-All now (contacts_of aor s))) e,
      preferred_of (sort live) (sort-IsNewestFirst live) b e,
    )

sweep_all-IsMap : (now : ℕ) (m : List (String × Contacts)) → IsMap m → IsMap (sweep_all now m)
unfolding sweep_all
sweep_all-IsMap now [] h = tt
sweep_all-IsMap now ((a, cs) ∷ m) h =
    ground (arith, lookup-sweep_none now a m h.0, sweep_all-IsMap now m h.1)

store_contacts-IsMap :
    (aor : String) (cs : Contacts) (m : List (String × Contacts))
    → IsMap m
    → IsMap (store_contacts aor cs m)
store_contacts-IsMap aor [] m h = erase-IsMap aor m h
store_contacts-IsMap aor (c ∷ cs) m h = insert-IsMap aor (c ∷ cs) m h

-- Every operation keeps one entry for an address.
pub bindings-IsMap :
    (aor : String) (contacts : List Binding) (now : ℕ) (s : BindingStore)
    → IsMap s.bindings
    → IsMap (apply_contacts aor contacts s).1.bindings
      × IsMap (remove_all aor s).bindings
      × IsMap (sweep now s).bindings
unfolding apply_contacts remove_all sweep
bindings-IsMap aor contacts now s h = (
  elim (Bool-cases (any_conflict (contacts_of aor s) contacts)) [
    | inl e ↦ rw e h
    | inr e ↦
        rw e (store_contacts-IsMap aor (put_contacts contacts (contacts_of aor s)) s.bindings h)
  ],
  erase-IsMap aor s.bindings h,
  sweep_all-IsMap now s.bindings h,
)
