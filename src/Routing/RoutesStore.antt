-- ===== src/Routing/RoutesStore.antt =====
-- The routing table: engine/src/sip/route_table/routes_store.cpp. Its lock makes each call one step,
-- so a call is a function on the snapshot; the flat map is iterated in the order of its keys.
use sbc.Base.{
  inr, inl, Bool-cases, ◌⊎◌, String, ◌≡◌, refl, Bool, false, ◌||◌, if◌then◌else◌, Option, none,
  some, List, [], ◌∷◌, ◌++◌, str_eq, eq_iff, any, arith,
}
use sbc.Base.Int.{ℤ}
use sbc.Protocols.{SipRouteRule, SipRouteSnapshot}

pub record RoutesStore : Type 0 where
  pub snapshot : SipRouteSnapshot

unfoldable pub set_snapshot : SipRouteSnapshot → RoutesStore → RoutesStore
set_snapshot snapshot s = record s { snapshot = snapshot }

abbrev matches : String → ℤ × SipRouteRule → Bool
matches request_uri entry = str_eq entry.1.uri "*" || str_eq entry.1.uri request_uri

abbrev first_match : String → List (ℤ × SipRouteRule) → Option SipRouteRule
first_match request_uri [] = none
first_match request_uri (entry ∷ rest) =
    if matches request_uri entry then some entry.1 else first_match request_uri rest

unfoldable pub find_route : String → RoutesStore → Option SipRouteRule
find_route request_uri s = first_match request_uri s.snapshot.routes

unfoldable pub version : RoutesStore → ℤ
version s = s.snapshot.version

-- A route that is found is in the table, for the request's URI or for every URI, and no rule ahead
-- of it matches.
find_route_first :
    (request_uri : String) (s : RoutesStore) (rule : SipRouteRule)
    → find_route request_uri s ≡ some rule
    → (before after : List (ℤ × SipRouteRule)) × (priority : ℤ) × (s.snapshot.routes
        ≡ before ++ (priority, rule) ∷ after)
      × (any (matches request_uri) before ≡ false)
      × ((rule.uri ≡ "*") ⊎ (rule.uri ≡ request_uri))
unfolding find_route
find_route_first request_uri s rule h = go s.snapshot.routes h
  where
    go :
        (routes : List (ℤ × SipRouteRule))
        → first_match request_uri routes ≡ some rule
        → (before after : List (ℤ × SipRouteRule)) × (priority : ℤ) × (routes
            ≡ before ++ (priority, rule) ∷ after)
          × (any (matches request_uri) before ≡ false)
          × ((rule.uri ≡ "*") ⊎ (rule.uri ≡ request_uri))
    go [] h = absurd (ground arith)
    go (entry ∷ rest) h = elim (Bool-cases (matches request_uri entry)) [
      | inl e ↦ (
        [],
        rest,
        entry.0,
        ground arith,
        refl,
        ground (arith, eq_iff entry.1.uri "*", eq_iff entry.1.uri request_uri),
      )
      | inr e ↦
          let (before, after, priority, split, clear, fits) = go rest (ground arith) in
          (entry ∷ before, after, priority, ground arith, ground arith, fits)
    ]
