-- ===== src/Routing/Resolve/Choice.antt =====
-- Which destination `SetupActions::resolve_route` of engine/src/sip/call/setup_actions.cpp chooses.
use mathlib.Core.Path.{subst}
use sbc.Base.{
  refl, sym, ◌&&◌, inl, inr, ◌⊎◌, ℕ, String, ◌≡◌, true, false, Option, none, some, List, str_eq,
  any, arith,
}
use sbc.Base.Int.{ℤ, pos, eq_ℤ}
use sbc.Protocols.{SupportedCodec, SipRouteRule, find_supported_codec_by_name}
use sbc.Sm.Setup.{RouteKind, found}
use sbc.Registrar.BindingStore.{Binding, BindingStore}
use sbc.Routing.RoutesStore.{RoutesStore, find_route}
use sbc.Routing.Uri.{extract_uri_user}
use sbc.Routing.Resolve.{
  resolve_local, resolve_static, resolve_rule, RouteResolution, Stores, Listener, resolve_route,
  registered_uri, refusal, sip_uri, resolve_rule, resolve_local, resolve_static,
}

-- What is true of a call that follows `rule`.
pub record Followed (print_int : ℤ → String) (listener : Listener) (offered : List String)
    (rule : SipRouteRule) (r : RouteResolution) : Type 0 where
  pub to : r.destination ≡ sip_uri print_int (extract_uri_user rule.uri) rule.sip_address rule.port
  pub elsewhere :
      (str_eq rule.sip_address listener.local_ip && eq_ℤ rule.port (pos listener.sip_port)) ≡ false
  pub codec :
      (r.required_codec ≡ none) × (rule.codec ≡ none)
      ⊎ (name : String) × (codec : SupportedCodec) × (rule.codec ≡ some name)
        × (r.required_codec ≡ some codec)
        × (find_supported_codec_by_name name ≡ some codec)
        × (any (λ offer. str_eq offer codec.name) offered ≡ true)

-- The call goes to the binding, or fails where there is none.
abbrev pub Reached : (ℤ → String) → String → Option Binding → RouteResolution → Type 0
Reached print_int user none r = r.kind ≡ RouteKind.failed
Reached print_int user (some b) r =
    (r.kind ≡ found)
    × (r.destination ≡ registered_uri print_int user b.source_address b.source_port)
    × (r.required_codec ≡ none)

module _ (print_int : ℤ → String) where
  -- What the binding of a user makes of a call.
  abbrev to_binding : String → Option Binding → RouteResolution
  to_binding user none = refusal RouteKind.failed
  to_binding user (some b) = record {
    kind = found;
    destination = registered_uri print_int user b.source_address b.source_port;
    required_codec = none;
  }

  -- A rule is followed where it points, never back to this engine's own listener, and a codec that
  -- it forces is one this build has and the caller offers.
  resolve_rule_found :
      (listener : Listener) (offered : List String) (rule : SipRouteRule)
      → (resolve_rule print_int listener offered rule).kind ≡ found
      → Followed print_int listener offered rule (resolve_rule print_int listener offered rule)
  unfolding resolve_rule
  resolve_rule_found listener offered rule k = go rule.codec refl
    where
      with_codec :
          (name : String)
          → rule.codec ≡ some name
          → (supported : Option SupportedCodec) → find_supported_codec_by_name name ≡ supported
          → (name : String) × (codec : SupportedCodec) × (rule.codec ≡ some name)
            × ((resolve_rule print_int listener offered rule).required_codec ≡ some codec)
            × (find_supported_codec_by_name name ≡ some codec)
            × (any (λ offer. str_eq offer codec.name) offered ≡ true)
      with_codec name e none f = absurd (ground arith)
      with_codec name e (some c) f = (name, c, e, ground arith, f, ground arith)

      go :
          (forced : Option String)
          → rule.codec ≡ forced
          → Followed print_int listener offered rule (resolve_rule print_int listener offered rule)
      go none e = record {
        to = ground arith;
        elsewhere = ground arith;
        codec = inl (ground arith, e);
      }
      go (some name) e = record {
        to = ground arith;
        elsewhere = ground arith;
        codec = inr (with_codec name e (find_supported_codec_by_name name) refl);
      }

  -- A call that is found, and that no provisioned user decides, goes where the table's rule for it
  -- points, which is not this engine's own listener, and requires a codec exactly if the rule forces
  -- one: the supported codec of that name, which the caller offers.
  pub resolve_route_static :
      (stores : Stores) (listener : Listener) (now : ℕ) (offered : List String)
      (request_uri : String)
      → resolve_local print_int stores now request_uri ≡ none
      → (resolve_route print_int stores listener now offered request_uri).kind ≡ found
      → (routes : RoutesStore) × (rule : SipRouteRule) × (stores.routes ≡ some routes)
        × (find_route request_uri routes ≡ some rule)
        × Followed print_int listener offered rule
            (resolve_route print_int stores listener now offered request_uri)
  unfolding resolve_route resolve_static
  resolve_route_static stores listener now offered request_uri unknown k = go stores.routes refl
    where
      Outcome : Type 0
      Outcome =
          (routes : RoutesStore) × (rule : SipRouteRule) × (stores.routes ≡ some routes)
          × (find_route request_uri routes ≡ some rule)
          × Followed print_int listener offered rule
              (resolve_route print_int stores listener now offered request_uri)

      by_rule :
          (routes : RoutesStore)
          → stores.routes ≡ some routes
          → (r : Option SipRouteRule) → find_route request_uri routes ≡ r
          → Outcome
      by_rule routes e none f = absurd (ground arith)
      by_rule routes e (some rule) f =
          let same : resolve_route print_int stores listener now offered request_uri
              ≡ resolve_rule print_int listener offered rule =
            ground arith in
          (
            routes,
            rule,
            e,
            f,
            subst (Followed print_int listener offered rule) (sym same)
                (resolve_rule_found listener offered rule (ground arith)),
          )

      go : (routes : Option RoutesStore) → stores.routes ≡ routes → Outcome
      go none e = absurd (ground arith)
      go (some routes) e = by_rule routes e (find_route request_uri routes) refl
