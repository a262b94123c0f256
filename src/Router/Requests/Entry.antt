-- ===== src/Router/Requests/Entry.antt =====
-- Which INVITE becomes a call.
use sbc.Base.{
  ℕ, ◌+◌, String, Bool, true, false, if◌then◌else◌, Option, none, some, str_eq, ◌≡◌, ◌∙◌, sym, ap,
  refl, arith, Option-cases, inl, inr,
}
use sbc.Base.Assoc.{lookup, lookup-insert}
use sbc.Call.Legs.{ReplacementTarget}
use sbc.Call.Outbound.{outbound_max_forwards}
use sbc.Call.Manager.{CallManager, create_session, find_by_call_id}
use sbc.Router.Requests.{
  Invite, Resolved, Admission, replied, ignored, admitted, resolved, rejected, admit, vet,
  create_call, is_known, is_zero, resolve_replacement,
}

-- The admitted Call-ID, where there is one.
abbrev id_of : Admission → Option String
id_of (admitted id _) = some id
id_of _ = none

abbrev pub is_admitted : Admission → Bool
is_admitted (admitted _ _) = true
is_admitted _ = false

-- The table after an admission.
abbrev table_at :
    {C : Type 0}
    → (String → Option ReplacementTarget → C)
    → String
    → Option C
    → Admission
    → Option C
table_at make j old (admitted id target) = if str_eq id j then some (make id target) else old
table_at make j old _ = old

admit-new :
    (known : Bool) (target : Option ReplacementTarget) (r : Invite)
    → is_admitted (admit known target r) ≡ true
    → (known ≡ false)
      × (admit known target r ≡ admitted r.call_id target)
      × (is_zero r.max_forwards ≡ false)
unfolding admit
admit-new known target r h = ground arith

-- The admission that a resolved replacement leads to.
abbrev after : {C : Type 0} → Invite → CallManager C → Resolved → Admission
after r m (rejected (some code)) = replied code
after r m (rejected none) = ignored
after r m (resolved target) = admit (is_known r.call_id m) target r

after-new :
    {C : Type 0}
    → (r : Invite) (m : CallManager C) (o : Resolved) → is_admitted (after r m o) ≡ true
    → (is_known r.call_id m ≡ false)
      × (id_of (after r m o) ≡ some r.call_id)
      × (is_zero r.max_forwards ≡ false)
after-new r m (rejected none) h = ground arith
after-new r m (rejected (some code)) h = ground arith
after-new r m (resolved target) h =
    let p = admit-new (is_known r.call_id m) target r h in (p.0, ap id_of p.1, p.2)

vet-new :
    {C : Type 0}
    → (r : Invite) (m : CallManager C) → is_admitted (vet r m) ≡ true
    → (is_known r.call_id m ≡ false)
      × (id_of (vet r m) ≡ some r.call_id)
      × (is_zero r.max_forwards ≡ false)
unfolding vet
vet-new r m h = after-new r m (resolve_replacement r) h

unknown :
    {C : Type 0}
    → (id : String) (m : CallManager C) → is_known id m ≡ false
    → lookup id m.sessions ≡ none
unfolding find_by_call_id
unknown id m h = elim (Option-cases (lookup id m.sessions)) [
  | inl e ↦ e
  | inr (c, e) ↦ ground arith
]

create_session-lookup :
    {C : Type 0}
    → (id j : String) (new : C) (m : CallManager C) → lookup id m.sessions ≡ none
    → lookup j (create_session id new m).1.sessions
      ≡ (if str_eq id j then some new else lookup j m.sessions)
unfolding create_session
create_session-lookup id j new m h = ground (arith, lookup-insert id j new m.sessions)

-- What the table has at `j` after an admission, and what it was admitted for.
abbrev pub IsEntry :
    {C : Type 0}
    → (String → Option ReplacementTarget → C)
    → Invite
    → CallManager C
    → String
    → Admission
    → CallManager C
    → Type 0
IsEntry make r m j (admitted id target) m' =
    (id ≡ r.call_id)
    × (lookup id m.sessions ≡ none)
    × (is_zero r.max_forwards ≡ false)
    × (lookup j m'.sessions ≡ (if str_eq id j then some (make id target) else lookup j m.sessions))
IsEntry make r m j _ m' = lookup j m'.sessions ≡ lookup j m.sessions

made-IsEntry :
    {C : Type 0}
    → (make : String → Option ReplacementTarget → C) (r : Invite) (m : CallManager C) (j : String)
      (a : Admission)
    → (is_admitted a ≡ true
        → (is_known r.call_id m ≡ false)
          × (id_of a ≡ some r.call_id)
          × (is_zero r.max_forwards ≡ false))
    → let x : Admission × CallManager C = elim a [
      | replied code ↦ (replied code, m)
      | ignored ↦ (ignored, m)
      | admitted id target ↦ (admitted id target, (create_session id (make id target) m).1)
    ] in
      IsEntry make r m j x.0 x.1
made-IsEntry make r m j (replied code) h = refl
made-IsEntry make r m j ignored h = refl
made-IsEntry make r m j (admitted id target) h =
    let p = h refl in
    let new = unknown r.call_id m p.0 in
    ground (arith, p.1, p.2, new, create_session-lookup r.call_id j (make id target) m new)

-- An INVITE that becomes a call adds one session under its Call-ID, which no call had, and has hops
-- left; any other INVITE leaves the table as it is.
pub create_call-IsEntry :
    {C : Type 0}
    → (make : String → Option ReplacementTarget → C) (r : Invite) (m : CallManager C) (j : String)
    → IsEntry make r m j (create_call make r m).0 (create_call make r m).1
unfolding create_call
create_call-IsEntry make r m j = made-IsEntry make r m j (vet r m) (vet-new r m)

made-0 :
    {C : Type 0}
    → (make : String → Option ReplacementTarget → C) (m : CallManager C) (a : Admission)
    → let x : Admission × CallManager C = elim a [
      | replied code ↦ (replied code, m)
      | ignored ↦ (ignored, m)
      | admitted id target ↦ (admitted id target, (create_session id (make id target) m).1)
    ] in
      x.0 ≡ a
made-0 make m (replied code) = refl
made-0 make m ignored = refl
made-0 make m (admitted id target) = refl

create_call-0 :
    {C : Type 0}
    → (make : String → Option ReplacementTarget → C) (r : Invite) (m : CallManager C)
    → (create_call make r m).0 ≡ vet r m
unfolding create_call
create_call-0 make r m = made-0 make m (vet r m)

hops_left :
    (o : Option ℕ) (n : ℕ)
    → is_zero o ≡ false
    → o ≡ some n
    → outbound_max_forwards (some (record { max_forwards = o })) + 1 ≡ n
unfolding outbound_max_forwards
hops_left o n h k = ground arith

-- A loop of calls through this engine ends: a call that is admitted with a Max-Forwards goes out
-- with one that is smaller by one.
outbound_max_forwards-create_call :
    {C : Type 0}
    → (make : String → Option ReplacementTarget → C) (r : Invite) (m : CallManager C) (n : ℕ)
    → is_admitted (create_call make r m).0 ≡ true
    → r.max_forwards ≡ some n
    → outbound_max_forwards (some (record { max_forwards = r.max_forwards })) + 1 ≡ n
outbound_max_forwards-create_call make r m n h k =
    hops_left r.max_forwards n ((vet-new r m (sym (ap is_admitted (create_call-0 make r m)) ∙ h)).2)
      k
