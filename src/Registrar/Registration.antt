-- ===== src/Registrar/Registration.antt =====
-- The REGISTER responder: engine/src/sip/registrar/registrar_actions.cpp. PJSIP's parser and digest
-- verification are parameters: a request arrives parsed, `verify` is `pjsip_auth_srv_verify`. A
-- reply that PJSIP fails to send is only logged, so a reply is a value.
pub mod Access
pub mod Mirror
pub mod Expiry
use sbc.Routing.Uri.{make_aor}
use sbc.Base.{
  concat, ℕ, zero, suc, String, ◌+◌, ◌-◌, ◌*◌, ◌/◌, ◌%◌, Bool, true, false, not, ◌&&◌, ◌||◌,
  if◌then◌else◌, leb, ◌==◌, Option, none, some, List, [], ◌∷◌, ◌++◌, map, str_eq, any, find, length,
}
use sbc.Base.Int.{ℤ, pos, negsuc, leb_ℤ, to_int32, eq_ℤ}
use mathlib.Core.Option
use sbc.Protocols.{SipUser}
use sbc.Registrar.Users.{UsersStore, is_local_domain, find_user}
use sbc.Registrar.BindingStore.{
  Binding, BindingStore, ApplyResult, applied, call_id_cseq_conflict, apply_contacts, remove_all,
  find_live,
}

-- A steady-clock tick is a nanosecond.
abbrev pub second : ℕ
second = 1000000000

-- `now + std::chrono::seconds(s)`.
abbrev add_seconds : ℕ → ℤ → ℕ
add_seconds now (pos s) = now + s * second
add_seconds now (negsuc s) = now - suc s * second

abbrev negated : ℕ → ℤ
negated zero = pos 0
negated (suc k) = negsuc k

-- The whole seconds from `now` to `then'`, truncated towards 0.
abbrev pub whole_seconds : ℕ → ℕ → ℤ
whole_seconds until now =
    if leb now until then pos ((until - now) / second) else negated ((now - until) / second)

abbrev expires_not_specified : ℕ
expires_not_specified = 4294967295

-- A Contact header; `printed` is its URI as `print_contact_uri` gives it.
pub record ContactHeader : Type 0 where
  pub star : Bool
  pub printed : String
  pub expires : ℕ  -- pj_uint32_t

-- An Authorization header's digest credential, as far as it is read.
pub record Credential : Type 0 where
  pub username : String
  pub realm : String

pub record RegisterRequest : Type 0 where
  pub to_is_sip : Bool
  pub to_host : String
  pub to_user : String
  pub authorizations : List Credential
  pub contacts : List ContactHeader
  pub expires : Option ℕ  -- pj_uint32_t
  pub call_id : String
  pub cseq : ℤ
  pub src_name : String
  pub src_port : ℤ
  pub user_agent : Option String

pub record RegistrarConfig : Type 0 where
  pub min_expires_s : ℤ
  pub max_expires_s : ℤ

pub record RegistrationEvent : Type 0 where
  pub aor : String
  pub contact_uri : String
  pub source_address : String
  pub source_port : ℤ
  pub transport : String
  pub user_agent : Option String
  pub expires_in_s : ℤ
  pub removed : Bool

-- What is sent back: a bare status, a challenge, 423 with Min-Expires, 200 with the live contacts.
pub data Reply : Type 0 where
  status : ℕ → Reply
  challenge : String → Reply
  too_brief : ℤ → Reply
  ok : List (String × ℕ) → Reply

-- What `pjsip_auth_srv_verify` reports: success, PJSIP_EAUTHNOAUTH, or another failure with the
-- status code that it has set.
pub data AuthStatus : Type 0 where
  verified : AuthStatus
  no_auth : AuthStatus
  refused : ℕ → AuthStatus

-- The store, and the events that the sink was given, if there is one.
pub record Registrar : Type 0 where
  pub bindings : BindingStore
  pub has_sink : Bool
  pub mirrored : List RegistrationEvent

-- The readings of the steady clock: by `process_registration`, by `mirror_registration`, by
-- `send_ok`.
pub record Readings : Type 0 where
  pub now : ℕ
  pub at_mirror : ℕ
  pub at_reply : ℕ

unfoldable raw_expires_for_contact : ContactHeader → Option ℤ → ℤ → ℤ
raw_expires_for_contact contact top_level default_expires =
    if not (contact.expires == expires_not_specified)
    then to_int32 contact.expires
    else elim top_level [ none ↦ default_expires | some e ↦ e ]

abbrev pub is_removed : Binding → Bool
is_removed b = leb b.expires_at b.refreshed_at

-- `now - mirrored_at >= granted / 2`, with the subtraction moved over.
unfoldable pub should_mirror : Option Binding → Binding → Bool → ℕ → Bool
should_mirror none incoming removed now = true
should_mirror (some previous) incoming removed now =
    if removed
    then true
    else if not (str_eq previous.source_address incoming.source_address)
        || not (eq_ℤ previous.source_port incoming.source_port)
        || not (str_eq previous.transport incoming.transport)
    then true
    else leb (previous.mirrored_at + (incoming.expires_at - incoming.refreshed_at) / 2) now

abbrev mirrored_at_or : ℕ → Option Binding → ℕ
mirrored_at_or now none = now
mirrored_at_or now (some previous) = previous.mirrored_at

-- The decision for one contact, with its `mirrored_at` set.
unfoldable pub decide_mirror : List Binding → ℕ → Binding → Bool × Binding
unfolding should_mirror
decide_mirror live now b =
    let previous = find (λ p. str_eq p.contact_uri b.contact_uri) live in
    let mirror = should_mirror previous b (is_removed b) now in
    (mirror, record b { mirrored_at = if mirror then now else mirrored_at_or now previous })

unfoldable pub decide_mirrors : String → List Binding → ℕ → BindingStore → List (Bool × Binding)
unfolding decide_mirror
decide_mirrors aor bs now s = map (decide_mirror (find_live aor now s) now) bs

unfoldable pub mirror_registration :
    Readings → String → Binding → Bool → Option String → Registrar → Registrar
mirror_registration t aor b removed user_agent r = if not r.has_sink then r else record r {
  mirrored =
      r.mirrored
      ++ record {
        aor = aor;
        contact_uri = b.contact_uri;
        source_address = b.source_address;
        source_port = b.source_port;
        transport = b.transport;
        user_agent = user_agent;
        expires_in_s = if removed then pos 0 else whole_seconds b.expires_at t.at_mirror;
        removed = removed;
      }
        ∷ [];
}

unfoldable pub mirror_removed :
    Readings → String → Option String → List Binding → Registrar → Registrar
unfolding mirror_registration
mirror_removed t aor user_agent [] r = r
mirror_removed t aor user_agent (b ∷ bs) r =
    mirror_removed t aor user_agent bs (mirror_registration t aor b true user_agent r)

unfoldable pub mirror_decided :
    Readings → String → Option String → List (Bool × Binding) → Registrar → Registrar
unfolding mirror_registration
mirror_decided t aor user_agent [] r = r
mirror_decided t aor user_agent ((mirror, b) ∷ bs) r =
    mirror_decided t aor user_agent bs
      (if mirror then mirror_registration t aor b (is_removed b) user_agent r else r)

unfoldable pub is_too_brief : RegistrarConfig → Option ℤ → ContactHeader → Bool
unfolding raw_expires_for_contact
is_too_brief config top_level contact =
    let raw = raw_expires_for_contact contact top_level config.max_expires_s in
    not (eq_ℤ raw (pos 0) || leb_ℤ config.min_expires_s raw)

abbrev min_ℤ : ℤ → ℤ → ℤ
min_ℤ a b = if leb_ℤ a b then a else b

unfoldable pub granted_expires : RegistrarConfig → Option ℤ → ContactHeader → ℤ
unfolding raw_expires_for_contact
granted_expires config top_level contact =
    let raw = raw_expires_for_contact contact top_level config.max_expires_s in
    if eq_ℤ raw (pos 0) then pos 0 else min_ℤ raw config.max_expires_s

unfoldable pub new_binding :
    RegistrarConfig → RegisterRequest → Option ℤ → ℕ → ContactHeader → Binding
unfolding granted_expires
new_binding config req top_level now contact = record {
  contact_uri = contact.printed;
  source_address = req.src_name;
  source_port = req.src_port;
  transport = "udp";
  call_id = req.call_id;
  cseq = req.cseq;
  expires_at = add_seconds now (granted_expires config top_level contact);
  refreshed_at = now;
  mirrored_at = 0;
}

-- `send_ok`: the contact URIs with the seconds that are left, as a `pj_uint32_t`.
unfoldable pub send_ok : Readings → String → BindingStore → Reply
send_ok t aor s = ok (
    map (λ (b : Binding). (b.contact_uri, ((b.expires_at - t.at_reply) / second) % 4294967296))
      (find_live aor t.at_reply s))

-- A single `*` with an expiry of 0 removes every binding.
unfoldable pub process_star :
    RegistrarConfig
    → Readings
    → RegisterRequest
    → Option ℤ
    → String
    → List ContactHeader
    → Registrar
    → Reply × Registrar
unfolding raw_expires_for_contact
process_star config t req top_level aor (contact ∷ []) r =
    if not (eq_ℤ (raw_expires_for_contact contact top_level config.max_expires_s) (pos 0))
    then (status 400, r)
    else (let r' = mirror_removed t aor req.user_agent (find_live aor t.now r.bindings) r in
        let r'' = record r' { bindings = remove_all aor r'.bindings } in
        (send_ok t aor r''.bindings, r''))
process_star config t req top_level aor _ r = (status 400, r)

-- Behind the checks: decide the mirrors, apply the contacts, mirror, answer.
unfoldable pub process_contacts :
    Readings → RegisterRequest → String → List Binding → Registrar → Reply × Registrar
process_contacts t req aor bs r =
    let decided = decide_mirrors aor bs t.now r.bindings in
    let (result, s) = apply_contacts aor (map (λ (d : Bool × Binding). d.1) decided) r.bindings in
    elim result [
      | call_id_cseq_conflict ↦ (status 400, r)
      | applied ↦
          let r' = mirror_decided t aor req.user_agent decided (record r { bindings = s }) in
          (send_ok t aor r'.bindings, r')
    ]

unfoldable pub process_registration :
    RegistrarConfig → Readings → RegisterRequest → String → Registrar → Reply × Registrar
unfolding is_too_brief new_binding
process_registration config t req realm r =
    let aor = make_aor req.to_user realm in
    let top_level = Option.map to_int32 req.expires in
    elim req.contacts [
      | [] ↦ (send_ok t aor r.bindings, r)
      | c ∷ cs ↦
          if any (λ c. c.star) (c ∷ cs)
          then process_star config t req top_level aor (c ∷ cs) r
          else if any (is_too_brief config top_level) (c ∷ cs)
          then (too_brief config.min_expires_s, r)
          else if any (λ c. str_eq c.printed "") (c ∷ cs)
          then (status 400, r)
          else process_contacts t req aor (map (new_binding config req top_level t.now) (c ∷ cs)) r
    ]

unfoldable local_domain : UsersStore → RegisterRequest → Option String
unfolding is_local_domain
local_domain users req =
    if not req.to_is_sip
    then none
    else if not (is_local_domain req.to_host users)
    then none
    else some req.to_host

-- PJSIP's lookup of a credential: the HA1 of the user, by `lookup_credential`.
unfoldable pub lookup_credential : UsersStore → String → String → Option String
unfolding find_user
lookup_credential users username realm =
    Option.map (λ (u : SipUser). u.ha1) (find_user username realm users)

-- `authenticated_username`: of the first Authorization header, whichever one was verified.
unfoldable pub authenticated_username : RegisterRequest → Option String
authenticated_username req = elim req.authorizations [ [] ↦ none | c ∷ _ ↦ some c.username ]

abbrev pub is_user : Option String → String → Bool
is_user none user = false
is_user (some name) user = str_eq name user

module _ (verify : (String → String → Option String) → String → RegisterRequest → AuthStatus) where
  unfoldable pub handle :
      UsersStore → RegistrarConfig → Readings → RegisterRequest → Registrar → Reply × Registrar
  unfolding local_domain authenticated_username
  handle users config t req r = elim (local_domain users req) [
    | none ↦ (status 404, r)
    | some realm ↦ elim (verify (lookup_credential users) realm req) [
      | verified ↦
          if not (is_user (authenticated_username req) req.to_user)
          then (status 403, r)
          else process_registration config t req realm r
      | no_auth ↦ (challenge realm, r)
      | refused code ↦ (status (if leb 400 code then code else 403), r)
    ]
  ]
