-- ===== src/Tests/Managers.antt =====
-- The theorems on the table of calls and on the router, at small tables.
use sbc.Base.{
  ℕ, ◌==◌, arith, ◌+◌, ◌≡◌, refl, String, Bool, true, false, Option, none, some, List, [], ◌∷◌,
}
use sbc.Base.Assoc.{lookup, IsMap}
use sbc.Sm.Types.{hold_timeout}
use sbc.Sm.Machine.{Ends}
use sbc.Sm.Dialog.{is_ending, DialogEvent, call_ended}
use sbc.Call.Legs.{ReplacementTarget}
use sbc.Call.Manager.{
  CallOps, CallManager, ManagerOp, creates, removes, queues, replaces, ends_held, terminates,
  manager_run, manager_step, process_pending_hold_timeouts, is_held_too_long,
}
use sbc.Call.Manager.Existing.{existing}
use sbc.Call.Manager.Removal.{only_purge_destroys}
use sbc.Call.Manager.Scan.{visited, lookup-process_pending_hold_timeouts}
use sbc.Router.Requests.{Invite, unmatched, create_call}
use sbc.Router.Requests.Entry.{IsEntry, create_call-IsEntry}

-- A call that only says whether it was held too long and whether it has ended.
abbrev held_call : Bool × Bool
held_call = (true, false)

abbrev ops : CallOps (Bool × Bool)
ops = record {
  is_established = λ c. true;
  can_terminate = λ c. true;
  rtp_inactivity_expired = λ now timeout c. false;
  hold_timeout_expired = λ c. c.0;
  leg_a_port = λ c. some 4000;
  leg_b_port = λ c. some 4002;
  cancel_setup = λ c. (c.0, true);
  end_dialog = λ e c. (c.0, true);
  wants_removal = λ c. c.1;
}

abbrev two_calls : CallManager (Bool × Bool)
two_calls = record {
  sessions = ("a", held_call) ∷ ("b", (false, false)) ∷ [];
  retired_sessions = [];
  pending_replacements = [];
  rtp_inactivity_timer = none;
}

two_calls-IsMap : IsMap two_calls.sessions
two_calls-IsMap = (refl, (refl, tt))

lookup-process_pending_hold_timeouts_example :
    lookup "a" (process_pending_hold_timeouts ops two_calls).sessions
    ≡ visited ops (is_held_too_long ops) (call_ended hold_timeout) (some held_call)
lookup-process_pending_hold_timeouts_example =
    lookup-process_pending_hold_timeouts ops "a" two_calls two_calls-IsMap

-- A call with its number and how far its end is: told to end, then gone.
abbrev ending_ops : CallOps (ℕ × ℕ)
ending_ops = record {
  is_established = λ c. true;
  can_terminate = λ c. c.1 == 0;
  rtp_inactivity_expired = λ now timeout c. false;
  hold_timeout_expired = λ c. true;
  leg_a_port = λ c. some 4000;
  leg_b_port = λ c. some 4002;
  cancel_setup = λ c. (c.0, 2);
  end_dialog = λ e c. (c.0, c.1 + 1);
  wants_removal = λ c. c.1 == 2;
}

abbrev is_first : ℕ × ℕ → Bool
is_first c = c.0 == 1

abbrev numbered_calls : CallManager (ℕ × ℕ)
numbered_calls = record {
  sessions = ("a", (1, 0)) ∷ ("b", (2, 0)) ∷ [];
  retired_sessions = [];
  pending_replacements = [];
  rtp_inactivity_timer = none;
}

abbrev some_ops : List (ManagerOp (ℕ × ℕ))
some_ops =
    creates "a" (3, 0)
    ∷ creates "c" (1, 0)
    ∷ queues "b" true
    ∷ replaces
    ∷ ends_held
    ∷ removes "c"
    ∷ terminates
    ∷ []

ending_stays :
    (e : DialogEvent) (c : ℕ × ℕ)
    → is_ending e ≡ true
    → ending_ops.can_terminate c ≡ true
    → ending_ops.wants_removal (ending_ops.end_dialog e c) ≡ false
ending_stays e c i h = ground arith

only_purge_destroys_example :
    Ends
      (λ m. IsMap m.sessions × (existing is_first m ≡ 1 + 1))
      (manager_run ending_ops some_ops numbered_calls)
unfolding manager_step
only_purge_destroys_example =
    only_purge_destroys ending_ops is_first (λ e c. refl) (λ c. refl) ending_stays some_ops
      numbered_calls (refl, (refl, tt)) refl

abbrev first_invite : Invite
first_invite = record {
  has_message = true;
  has_replaces = false;
  has_single_tags = false;
  verified = unmatched;
  call_id = "d";
  is_acceptable = true;
  max_forwards = some 70;
  sdp = "offer";
  makes_dialog = true;
  makes_session = true;
  takes_usage = true;
}

abbrev make : String → Option ReplacementTarget → Bool × Bool
make id target = (false, false)

create_call-IsEntry_example :
    IsEntry make first_invite two_calls "a"
      (create_call make first_invite two_calls).0
      (create_call make first_invite two_calls).1
create_call-IsEntry_example = create_call-IsEntry make first_invite two_calls "a"
