-- ===== src/Registrar/BindingStore/Preferred.antt =====
-- Where the preferred contact comes from: engine/src/sip/registrar/binding_store.cpp.
use sbc.Base.{ℕ, ◌≡◌, refl, ◌⊎◌, inl, inr, Option, none, some, List, [], ◌∷◌, String, arith}
use sbc.Registrar.BindingStore.{
  Binding, BindingStore, contacts_of, live_of, sort, sort_in, front, find_live, find_preferred,
}
use sbc.Registrar.BindingStore.Live.{IsPreferred, find_preferred_lem}

abbrev IsAmong : Binding → List Binding → Type 0
IsAmong b [] = ⊥
IsAmong b (c ∷ cs) = (c ≡ b) ⊎ IsAmong b cs

sort_in-IsAmong :
    (b c : Binding) (cs : List Binding) → IsAmong b (sort_in c cs) → IsAmong b (c ∷ cs)
unfolding sort_in
sort_in-IsAmong b c [] h = h
sort_in-IsAmong b c (d ∷ cs) h = ground (arith, sort_in-IsAmong b c cs)

sort-IsAmong : (b : Binding) (cs : List Binding) → IsAmong b (sort cs) → IsAmong b cs
unfolding sort
sort-IsAmong b [] h = h
sort-IsAmong b (c ∷ cs) h = elim (sort_in-IsAmong b c (sort cs) h) [
  | inl e ↦ inl e
  | inr m ↦ inr (sort-IsAmong b cs m)
]

front-IsAmong : (b : Binding) (cs : List Binding) → front cs ≡ some b → IsAmong b cs
front-IsAmong b [] h = cc
front-IsAmong b (c ∷ cs) h = inl cc

-- The latest live binding of an address, or that it has none.
abbrev pub IsLatest : String → ℕ → BindingStore → Option Binding → Type 0
IsLatest aor now s none = live_of now (contacts_of aor s) ≡ []
IsLatest aor now s (some b) =
    IsAmong b (live_of now (contacts_of aor s))
    × IsPreferred (live_of now (contacts_of aor s)) (find_live aor now s) now (some b)

pub find_preferred-IsLatest :
    (aor : String) (now : ℕ) (s : BindingStore) → IsLatest aor now s (find_preferred aor now s)
unfolding find_preferred
find_preferred-IsLatest aor now s =
    go (front (sort (live_of now (contacts_of aor s)))) refl (find_preferred_lem aor now s)
  where
    go :
        (o : Option Binding)
        → front (sort (live_of now (contacts_of aor s))) ≡ o
        → IsPreferred (live_of now (contacts_of aor s)) (find_live aor now s) now o
        → IsLatest aor now s o
    go none e p = p
    go (some b) e p = (sort-IsAmong b (live_of now (contacts_of aor s)) (front-IsAmong b _ e), p)
