-- ===== src/Routing/Uri/Parts.antt =====
-- The parts that the helpers of engine/src/sip/router/extract_utils.cpp take from a URI.
use Prim.Native.Char.{Char, code}
use Prim.Native.String.append
use text.Mathlib.TextLemmas.{append_assoc}
use sbc.Base.{
  zero, leb, sym, ℕ, suc, String, concat, ◌+◌, ◌-◌, ◌≡◌, refl, ap, ◌∙◌, Bool, true, false, none,
  some, arith,
}
use sbc.Base.Text.{
  size, drop, find_char, Without, find_char-append, find_char-none, take-append, size-append,
  take-size,
}
use sbc.Routing.Uri.{
  plain_host, extract_uri_user, starts_bracket, extract_uri_host, host_from, ends_host, is_char,
  find_from,
}

-- A text behind a scheme, its colon and an at sign: `scheme:user@tail`.
abbrev pub uri_of : String → String → String → String
uri_of scheme user tail = concat scheme (String.◌∷◌ ":" (concat user (String.◌∷◌ "@" tail)))

drop_at : (a b : String) (c : Char) → drop (size a + 1) (concat a (String.◌∷◌ c b)) ≡ b
drop_at String.[] b c = rw append.nil (ground arith)
drop_at (String.◌∷◌ d a) b c =
    let e : suc (size a) + 1 ≡ suc (size a + 1) = omega arith in
    rw append.cons (rw e (drop_at a b c))

Without-append : (p : ℕ → Bool) (a b : String) → Without p a → Without p b → Without p (concat a b)
Without-append p String.[] b h k = rw append.nil k
Without-append p (String.◌∷◌ c a) b h k = rw append.cons (h.0, Without-append p a b h.1 k)

-- All of a URI before its at sign.
abbrev before_at : String → String → String
before_at scheme user = concat scheme (String.◌∷◌ ":" user)

uri-split :
    (scheme user tail : String)
    → uri_of scheme user tail ≡ concat (before_at scheme user) (String.◌∷◌ "@" tail)
uri-split scheme user tail =
    ap (concat scheme) (sym (append.cons ":" user (String.◌∷◌ "@" tail)))
    ∙ sym (append_assoc scheme (String.◌∷◌ ":" user) (String.◌∷◌ "@" tail))

module _ (scheme user tail : String) (no_colon : Without (is_char b':') scheme)
    (no_at : Without (is_char b'@') scheme) (no_at' : Without (is_char b'@') user) where
  colon_at : find_char (is_char b':') (uri_of scheme user tail) ≡ some (size scheme)
  colon_at = find_char-append (is_char b':') scheme ":" _ no_colon refl

  at_at : find_char (is_char b'@') (uri_of scheme user tail) ≡ some (size (before_at scheme user))
  at_at = rw (uri-split scheme user tail) (
      find_char-append (is_char b'@') (before_at scheme user) "@" tail
        (Without-append (is_char b'@') scheme _ no_at (refl, no_at')) refl)

  -- The user of `scheme:user@tail` is read back, where the scheme has no colon and neither has an
  -- at sign.
  extract_uri_user-uri_of : extract_uri_user (uri_of scheme user tail) ≡ user
  unfolding extract_uri_user
  extract_uri_user-uri_of =
      let longer : leb (size (before_at scheme user)) (size scheme) ≡ false =
        ground (arith, size-append scheme (String.◌∷◌ ":" user)) in
      let count : size (before_at scheme user) - size scheme - 1 ≡ size user =
        omega (arith, size-append scheme (String.◌∷◌ ":" user)) in
      rw (colon_at, at_at)
        (rw longer (
          rw (count, drop_at scheme (concat user (String.◌∷◌ "@" tail)) ":")
            (take-append user (String.◌∷◌ "@" tail))))

  drop-tail : drop (size (before_at scheme user) + 1) (uri_of scheme user tail) ≡ tail
  drop-tail = rw (uri-split scheme user tail) (drop_at (before_at scheme user) tail "@")

  host_of :
      extract_uri_host (uri_of scheme user tail)
      ≡ host_from (size (before_at scheme user) + 1) (uri_of scheme user tail)
  unfolding extract_uri_host
  host_of = rw (at_at, extract_uri_host)

  size-uri : size (uri_of scheme user tail) ≡ size (before_at scheme user) + 1 + size tail
  size-uri =
      rw (uri-split scheme user tail)
        (omega (arith, size-append (before_at scheme user) (String.◌∷◌ "@" tail)))

-- The same, over what stands behind the host's position.
plain_host-ended :
    (start : ℕ) (uri host rest : String) (c : Char)
    → drop start uri ≡ concat host (String.◌∷◌ c rest)
    → Without ends_host host
    → ends_host (code c) ≡ true
    → plain_host start uri ≡ host
plain_host-ended start uri host rest c d h e =
    let count : start + size host - start ≡ size host = omega arith in
    let found : find_from ends_host start uri ≡ some (start + size host) =
      rw (d, find_from) (rw (find_char-append ends_host host c rest h e)) in
    rw (found, plain_host) (rw (count, d) (take-append host _))

plain_host-last :
    (start : ℕ) (uri host : String)
    → drop start uri ≡ host
    → size uri ≡ start + size host
    → Without ends_host host
    → plain_host start uri ≡ host
plain_host-last start uri host d s h =
    let count : size uri - start ≡ size host = omega arith in
    let missing : find_from ends_host start uri ≡ none =
      rw (d, find_from) (rw (find_char-none ends_host host h)) in
    rw (missing, plain_host) (rw (count, d) (take-size host))

not_bracket :
    (host rest : String) (c : Char)
    → starts_bracket host ≡ false
    → ends_host (code c) ≡ true
    → starts_bracket (concat host (String.◌∷◌ c rest)) ≡ false
not_bracket String.[] rest c b e = rw append.nil (ground arith)
not_bracket (String.◌∷◌ d host) rest c b e = rw append.cons b

drop-suc : (n : ℕ) (s : String) → drop (n + 1) s ≡ drop 1 (drop n s)
drop-suc zero s = refl
drop-suc (suc n) String.[] = let e : suc n + 1 ≡ suc (n + 1) = omega arith in rw e
drop-suc (suc n) (String.◌∷◌ c s) =
    let e : suc n + 1 ≡ suc (n + 1) = omega arith in rw e (drop-suc n s)

module _ (scheme user host : String) (no_colon : Without (is_char b':') scheme)
    (no_at : Without (is_char b'@') scheme) (no_at' : Without (is_char b'@') user) where
  -- The host of `scheme:user@host` with nothing, a port, a parameter or a header behind it is read
  -- back, where the scheme has no colon, scheme and user have no at sign, and the host has none of
  -- the characters that end it and no leading bracket.
  extract_uri_host-uri_of :
      (c : Char) (rest : String)
      → Without ends_host host
      → starts_bracket host ≡ false
      → ends_host (code c) ≡ true
      → (extract_uri_host (uri_of scheme user (concat host (String.◌∷◌ c rest))) ≡ host)
        × (extract_uri_host (uri_of scheme user host) ≡ host)
  unfolding host_from
  extract_uri_host-uri_of c rest h b e = (
    rw (host_of scheme user (concat host (String.◌∷◌ c rest)) no_colon no_at no_at') (
        rw (drop-tail scheme user (concat host (String.◌∷◌ c rest)) no_colon no_at no_at') (
          rw (not_bracket host rest c b e) (
            plain_host-ended (size (before_at scheme user) + 1)
              (uri_of scheme user (concat host (String.◌∷◌ c rest))) host rest c
              (drop-tail scheme user (concat host (String.◌∷◌ c rest)) no_colon no_at no_at') h
              e))),
    rw (host_of scheme user host no_colon no_at no_at') (
        rw (drop-tail scheme user host no_colon no_at no_at') (
          rw b (
            plain_host-last (size (before_at scheme user) + 1) (uri_of scheme user host) host
              (drop-tail scheme user host no_colon no_at no_at')
              (size-uri scheme user host no_colon no_at no_at') h))),
  )

  -- Of a bracketed IPv6 address in such a URI the host is what the brackets hold, its colons
  -- included.
  pub extract_uri_host-bracket :
      (rest : String)
      → Without (is_char b']') host
      → extract_uri_host (uri_of scheme user (String.◌∷◌ "[" (concat host (String.◌∷◌ "]" rest))))
        ≡ host
  unfolding host_from
  extract_uri_host-bracket rest h =
      let tail : String = String.◌∷◌ "[" (concat host (String.◌∷◌ "]" rest)) in
      let start : ℕ = size (before_at scheme user) + 1 in
      let inside : drop (start + 1) (uri_of scheme user tail) ≡ concat host (String.◌∷◌ "]" rest) =
        drop-suc start (uri_of scheme user tail)
        ∙ ap (drop 1) (drop-tail scheme user tail no_colon no_at no_at') in
      let found : find_from (is_char b']') (start + 1) (uri_of scheme user tail)
          ≡ some (start + 1 + size host) =
        rw (inside, find_from) (rw (find_char-append (is_char b']') host "]" rest h refl)) in
      let count : start + 1 + size host - start - 1 ≡ size host = omega arith in
      rw (host_of scheme user tail no_colon no_at no_at') (
        rw (drop-tail scheme user tail no_colon no_at no_at')
          (rw (found, find_from) (rw (count, inside) (take-append host (String.◌∷◌ "]" rest)))))
