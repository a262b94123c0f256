-- ===== src/Routing/Uri.antt =====
-- The URI helpers of engine/src/sip/router/extract_utils.cpp. Positions count characters, not bytes;
-- the delimiters are ASCII, so the parts are the same.
pub mod Parts
use sbc.Base.{
  ℕ, suc, String, concat, ◌+◌, ◌-◌, Bool, true, false, ◌||◌, if◌then◌else◌, leb, ltb, ◌==◌, Option,
  none, some,
}
use Prim.Native.Char.{code}
use sbc.Base.Text.{size, drop, take, find_char}

-- `uri.find(c)` and `uri.find(c, from)`.
abbrev pub is_char : ℕ → ℕ → Bool
is_char c d = d == c

abbrev pub find_from : (ℕ → Bool) → ℕ → String → Option ℕ
find_from p from s = elim (find_char p (drop from s)) [ none ↦ none | some i ↦ some (from + i) ]

-- `uri.substr(from, count)`.
abbrev substr : ℕ → ℕ → String → String
substr from count s = take count (drop from s)

abbrev user_between : Option ℕ → Option ℕ → String → String
user_between (some scheme_end) (some at_pos) uri =
    if leb at_pos scheme_end then "" else substr (scheme_end + 1) (at_pos - scheme_end - 1) uri
user_between _ _ uri = ""

unfoldable pub extract_uri_user : String → String
extract_uri_user uri =
    user_between (find_char (is_char b':') uri) (find_char (is_char b'@') uri) uri

-- The port colon, a parameter or a header ends the host.
abbrev pub ends_host : ℕ → Bool
ends_host c = c == b':' || c == b';' || c == b'?'

unfoldable host_start_of : String → Option ℕ
host_start_of uri = elim (find_char (is_char b'@') uri) [
  | some at_pos ↦ some (at_pos + 1)
  | none ↦ elim (find_char (is_char b':') uri) [
    | none ↦ none
    | some scheme_end ↦ some (scheme_end + 1)
  ]
]

abbrev pub starts_bracket : String → Bool
starts_bracket String.[] = false
starts_bracket (String.◌∷◌ c s) = code c == b'['

abbrev pub plain_host : ℕ → String → String
plain_host host_start uri = elim (find_from ends_host host_start uri) [
  | none ↦ substr host_start (size uri - host_start) uri
  | some end' ↦ substr host_start (end' - host_start) uri
]

unfoldable pub host_from : ℕ → String → String
host_from host_start uri =
    if starts_bracket (drop host_start uri)
    then elim (find_from (is_char b']') (host_start + 1) uri) [
      | none ↦ plain_host host_start uri
      | some close ↦ substr (host_start + 1) (close - host_start - 1) uri
    ]
    else plain_host host_start uri

unfoldable pub extract_uri_host : String → String
unfolding host_start_of host_from
extract_uri_host uri = elim (host_start_of uri) [ none ↦ "" | some start ↦ host_from start uri ]

unfoldable pub make_aor : String → String → String
make_aor user host = concat user (concat "@" host)
