-- ===== src/Registrar/Users.antt =====
-- The provisioned users: engine/src/sip/registrar/users_store.cpp. Its lock makes each call one
-- step, so a call is a function on the snapshot.
use sbc.Base.{
  String, ◌≡◌, Bool, true, ◌&&◌, Option, some, List, [], ◌∷◌, str_eq, eq_iff, any, find, arith,
}
use sbc.Protocols.{SipUser, SipUserSnapshot}

pub record UsersStore : Type 0 where
  pub snapshot : SipUserSnapshot

unfoldable pub set_snapshot : SipUserSnapshot → UsersStore → UsersStore
set_snapshot snapshot s = record s { snapshot = snapshot }

unfoldable pub is_local_domain : String → UsersStore → Bool
is_local_domain realm s = any (λ u. u.enabled && str_eq u.realm realm) s.snapshot.users

unfoldable pub find_user : String → String → UsersStore → Option SipUser
find_user username realm s =
    find (λ u. u.enabled && str_eq u.username username && str_eq u.realm realm) s.snapshot.users

-- A user that is found is enabled and the one that was asked for, and makes its realm local.
pub find_user_sound :
    (username realm : String) (s : UsersStore) (u : SipUser)
    → find_user username realm s ≡ some u
    → (u.enabled ≡ true)
      × (u.username ≡ username)
      × (u.realm ≡ realm)
      × (is_local_domain realm s ≡ true)
unfolding find_user is_local_domain
find_user_sound username realm s u h = go s.snapshot.users h
  where
    go :
        (us : List SipUser)
        → find (λ u. u.enabled && str_eq u.username username && str_eq u.realm realm) us ≡ some u
        → (u.enabled ≡ true)
          × (u.username ≡ username)
          × (u.realm ≡ realm)
          × (any (λ u. u.enabled && str_eq u.realm realm) us ≡ true)
    go [] h = cc
    go (v ∷ us) h = ground (arith, eq_iff v.username username, eq_iff v.realm realm, go us)
