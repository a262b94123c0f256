-- ===== src/Routing/Resolve.antt =====
-- Routing of a call in setup: `SetupActions::resolve_route` of
-- engine/src/sip/call/setup_actions.cpp. `offered` are the codec names that the SDP parser finds in
-- the caller's offer, `print_int` is what `std::format` makes of an integer.
pub mod Choice
use sbc.Base.{
  ℕ, String, concat, Bool, true, false, ◌&&◌, if◌then◌else◌, Option, none, some, List, [], ◌∷◌,
  str_eq, any,
}
use sbc.Base.Int.{ℤ, pos, eq_ℤ}
use sbc.Protocols.{SupportedCodec, SipRouteRule, find_supported_codec_by_name}
use sbc.Sm.Setup.{RouteKind, RouteResolution}
use sbc.Registrar.Users.{UsersStore, is_local_domain, find_user}
use sbc.Registrar.BindingStore.{Binding, BindingStore, find_preferred}
use sbc.Routing.RoutesStore.{RoutesStore, find_route}
use sbc.Routing.Uri.{extract_uri_user, extract_uri_host, make_aor}

pub record Stores : Type 0 where
  pub users : Option UsersStore
  pub bindings : Option BindingStore
  pub routes : Option RoutesStore

pub record Listener : Type 0 where
  pub local_ip : String
  pub sip_port : ℕ

abbrev pub refusal : RouteKind → RouteResolution
refusal kind = record { kind = kind; destination = ""; required_codec = none }

module _ (print_int : ℤ → String) where
  -- "sip:user@address:port", without the user and its at sign where there is no user.
  abbrev pub sip_uri : String → String → ℤ → String
  sip_uri user address port =
      let host = concat address (concat ":" (print_int port)) in
      concat "sip:" (if str_eq user "" then host else concat user (concat "@" host))

  abbrev pub registered_uri : String → String → ℤ → String
  registered_uri user address port =
      concat "sip:" (concat user (concat "@" (concat address (concat ":" (print_int port)))))

  -- The answer for a user of a local domain; `none` where the static table decides.
  unfoldable pub resolve_local : Stores → ℕ → String → Option RouteResolution
  resolve_local stores now request_uri = elim stores.users [
    | none ↦ none
    | some users ↦ elim stores.bindings [
      | none ↦ none
      | some bindings ↦
          let host = extract_uri_host request_uri in
          let user = extract_uri_user request_uri in
          if is_local_domain host users
          then elim (find_user user host users) [
            | none ↦ none
            | some _ ↦ elim (find_preferred (make_aor user host) now bindings) [
              | none ↦ some (refusal RouteKind.failed)
              | some b ↦ some (record {
                kind = RouteKind.found;
                destination = registered_uri user b.source_address b.source_port;
                required_codec = none;
              })
            ]
          ]
          else none
    ]
  ]

  -- A rule that forces a codec: this build must have it, and the caller must offer it.
  unfoldable pub resolve_rule : Listener → List String → SipRouteRule → RouteResolution
  resolve_rule listener offered rule =
      if str_eq rule.sip_address listener.local_ip && eq_ℤ rule.port (pos listener.sip_port)
      then refusal RouteKind.loop
      else (let to : Option SupportedCodec → RouteResolution = λ codec. record {
        kind = RouteKind.found;
        destination = sip_uri (extract_uri_user rule.uri) rule.sip_address rule.port;
        required_codec = codec;
      } in
          elim rule.codec [
            | none ↦ to none
            | some name ↦ elim (find_supported_codec_by_name name) [
              | none ↦ refusal RouteKind.codec_mismatch
              | some supported ↦
                  if any (λ offer. str_eq offer supported.name) offered
                  then to (some supported)
                  else refusal RouteKind.codec_mismatch
            ]
          ])

  unfoldable pub resolve_static : Stores → Listener → List String → String → RouteResolution
  unfolding resolve_rule
  resolve_static stores listener offered request_uri = elim stores.routes [
    | none ↦ refusal RouteKind.failed
    | some routes ↦ elim (find_route request_uri routes) [
      | none ↦ refusal RouteKind.failed
      | some rule ↦ resolve_rule listener offered rule
    ]
  ]

  unfoldable pub resolve_route : Stores → Listener → ℕ → List String → String → RouteResolution
  unfolding resolve_local resolve_static
  resolve_route stores listener now offered request_uri =
      elim (resolve_local stores now request_uri) [
        | some r ↦ r
        | none ↦ resolve_static stores listener offered request_uri
      ]
