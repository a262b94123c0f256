-- ===== src/Call/Manager/Existing.antt =====
-- How many calls there are, in the table or retired.
use sbc.Base.{
  ℕ, ◌+◌, String, Bool, none, some, List, [], ◌∷◌, count, count-append, eq_iff, ◌≡◌, refl, arith,
  if◌then◌else◌, Option-cases, inl, inr,
}
use sbc.Base.Assoc.{lookup, insert, erase, IsMap, erase-IsMap}
use sbc.Call.Manager.{CallManager, schedule_remove}

module _ {C : Type 0} (p : C → Bool) where
  abbrev pub weight : C → ℕ
  weight c = if p c then 1 else 0

  -- The calls with a trait that exist: in the table, or retired.
  abbrev pub existing : CallManager C → ℕ
  existing m = count (λ (e : String × C). p e.1) m.sessions + count p m.retired_sessions

  erase-absent : (k : String) (m : List (String × C)) → lookup k m ≡ none → erase k m ≡ m
  erase-absent k [] h = refl
  erase-absent k ((i, c) ∷ m) h = ground (arith, λ (e : lookup k m ≡ none). erase-absent k m e)

  count-erase :
      (k : String) (c : C) (m : List (String × C))
      → IsMap m
      → lookup k m ≡ some c
      → count (λ e. p e.1) (erase k m) + weight c ≡ count (λ e. p e.1) m
  count-erase k c [] h l = ground arith
  count-erase k c ((i, d) ∷ m) h l = ground (
    arith,
    eq_iff i k,
    eq_iff k i,
    λ (e : lookup k m ≡ none). erase-absent k m e,
    λ (e : lookup k m ≡ some c). count-erase k c m h.1 e,
  )

  pub count-insert_new :
      (k : String) (c : C) (m : List (String × C))
      → lookup k m ≡ none
      → count (λ e. p e.1) (insert k c m) ≡ count (λ e. p e.1) m + weight c
  count-insert_new k c [] h = omega arith
  count-insert_new k c ((i, d) ∷ m) h =
      ground (arith, λ (e : lookup k m ≡ none). count-insert_new k c m e)

  pub count-insert_same :
      (k : String) (old c : C) (m : List (String × C))
      → lookup k m ≡ some old
      → p c ≡ p old
      → count (λ e. p e.1) (insert k c m) ≡ count (λ e. p e.1) m
  count-insert_same k old c [] h s = ground arith
  count-insert_same k old c ((i, d) ∷ m) h s =
      ground (arith, λ (e : lookup k m ≡ some old). count-insert_same k old c m e s)

  -- What an operation keeps: each id once, and every call with the trait.
  abbrev pub Keeps : CallManager C → CallManager C → Type 0
  Keeps m m' = IsMap m'.sessions × (existing m' ≡ existing m)

  pub schedule_remove-Keeps :
      (id : String) (m : CallManager C) → IsMap m.sessions → Keeps m (schedule_remove id m)
  unfolding schedule_remove
  schedule_remove-Keeps id m h = elim (Option-cases (lookup id m.sessions)) [
    | inl e ↦ ground arith
    | inr (c, e) ↦ ground (
      arith,
      erase-IsMap id m.sessions h,
      count-erase id c m.sessions h e,
      count-append p m.retired_sessions (c ∷ []),
    )
  ]
