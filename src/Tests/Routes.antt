-- ===== src/Tests/Routes.antt =====
-- A call to a registered user and a call through the table: engine/src/sip/call/setup_actions.cpp.
use sbc.Base.{if◌then◌else◌, arith, String, ◌≡◌, refl, none, some, List, [], ◌∷◌}
use sbc.Base.Int.{ℤ, pos, eq_ℤ}
use sbc.Protocols.{SipRouteRule, find_supported_codec_by_name}
use sbc.Registrar.Users.{find_user, is_local_domain}
use sbc.Routing.Uri.{extract_uri_user, extract_uri_host}
use sbc.Routing.Uri.Parts.{uri_of, extract_uri_host-bracket}
use sbc.Routing.RoutesStore.{RoutesStore, find_route}
use sbc.Routing.Resolve.{Stores, Listener, resolve_route, resolve_local}
use sbc.Routing.Resolve.Choice.{Followed, resolve_route_static}
use sbc.Tests.Registrations.{users, store}

-- The two ports of the examples.
abbrev print_int : ℤ → String
print_int port = if eq_ℤ port (pos 5060) then "5060" else "5080"

abbrev gateway : SipRouteRule
gateway = record { uri = "*"; sip_address = "192.0.2.9"; port = pos 5080; codec = some "PCMA" }

abbrev local_rule : SipRouteRule
local_rule = record {
  uri = "sip:echo@sbc.local";
  sip_address = "192.0.2.8";
  port = pos 5060;
  codec = none;
}

abbrev routes : RoutesStore
routes = record {
  snapshot = record {
    table_id = "t";
    version = pos 1;
    routes = (pos 1, local_rule) ∷ (pos 2, gateway) ∷ [];
  };
}

abbrev stores : Stores
stores = record { users = some users; bindings = some store; routes = some routes }

abbrev listener : Listener
listener = record { local_ip = "192.0.2.100"; sip_port = 5060 }

abbrev offered : List String
offered = "PCMU" ∷ "PCMA" ∷ []

resolve_route_static_example :
    (routes : RoutesStore) × (rule : SipRouteRule) × (stores.routes ≡ some routes)
    × (find_route "sip:bob@example.org" routes ≡ some rule)
    × Followed print_int listener offered rule
        (resolve_route print_int stores listener 30 offered "sip:bob@example.org")
unfolding resolve_route find_route resolve_local find_supported_codec_by_name extract_uri_user
    extract_uri_host find_user is_local_domain
resolve_route_static_example =
    resolve_route_static print_int stores listener 30 offered "sip:bob@example.org" refl refl

extract_uri_host-bracket_example :
    extract_uri_host (uri_of "sip" "bob" "[2001:db8::1]:5060") ≡ "2001:db8::1"
extract_uri_host-bracket_example =
    extract_uri_host-bracket "sip" "bob" "2001:db8::1" (ground arith) (ground arith) (ground arith)
      ":5060" (ground arith)
