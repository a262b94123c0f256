-- ===== src/Sm/Dialog/Trace.antt =====
-- What the dialog machine of engine/src/sip/sm/dialog_sm.hpp calls over its life, for every
-- implementation of its actions: the calls are recorded beside the implementation's own state.
use sbc.Base.{◌≡◌, Bool, true, false, if◌then◌else◌, List, [], ◌∷◌, count, arith}
use sbc.Sm.Machine.{Ends, drain, process_event, run, run-Ends}
use sbc.Sm.Dialog.{
  DialogActions, DialogState, DialogEvent, active, reinviting, referring, terminated, dialog_done,
  dialog_table, dialog_process,
}

-- The calls that are counted: an exchange or a REFER that is begun, one that is turned away, the
-- end of the call, and the cleanup.
pub data DialogCall : Type 0 where
  begins collides tears_down cleans : DialogCall

abbrev pub is_begin : DialogCall → Bool
is_begin begins = true
is_begin _ = false

abbrev is_tear_down : DialogCall → Bool
is_tear_down tears_down = true
is_tear_down _ = false

abbrev pub is_clean : DialogCall → Bool
is_clean cleans = true
is_clean _ = false

-- The given actions, with a record of the counted calls.
unfoldable pub traced : {S : Type 0} → DialogActions S → DialogActions (S × List DialogCall)
traced a = record {
  forward_bye_to_other_leg = λ l s. (a.forward_bye_to_other_leg l s.0, tears_down ∷ s.1);
  answer_reinvite = λ d l s. let (o, s') = a.answer_reinvite d l s.0 in (o, (s', begins ∷ s.1));
  reject_reinvite_491_request_pending =
      λ l s. (a.reject_reinvite_491_request_pending l s.0, collides ∷ s.1);
  answer_update = λ d l s. let (o, s') = a.answer_update d l s.0 in (o, (s', begins ∷ s.1));
  reject_update_collision = λ l s. (a.reject_update_collision l s.0, collides ∷ s.1);
  refer_started = λ l s. let (b, s') = a.refer_started l s.0 in (b, (s', begins ∷ s.1));
  refer_completed = λ o s. (a.refer_completed o s.0, s.1);
  refer_busy = λ l s. (a.refer_busy l s.0, collides ∷ s.1);
  terminate_call = λ r s. (a.terminate_call r s.0, tears_down ∷ s.1);
  cleanup = λ s. (a.cleanup s.0, cleans ∷ s.1);
}

-- The call is up.
abbrev pub can_terminate : DialogState → Bool
can_terminate active = true
can_terminate reinviting = true
can_terminate referring = true
can_terminate _ = false

abbrev is_done : DialogState → Bool
is_done dialog_done = true
is_done _ = false

abbrev pub is_transient : DialogState → Bool
is_transient terminated = true
is_transient _ = false

abbrev is_busy : DialogState → Bool
is_busy reinviting = true
is_busy referring = true
is_busy _ = false

-- How the calls made so far fit the state.
pub record Accounts (st : DialogState) (log : List DialogCall) : Type 0 where
  pub waits : is_transient st ≡ false
  pub torn_down : count is_tear_down log ≡ (if can_terminate st then 0 else 1)
  pub cleaned_once : count is_clean log ≡ (if is_done st then 1 else 0)

module _ {S : Type 0} (a : DialogActions S) where
  step-Accounts :
      (st : DialogState) (e : DialogEvent) (s : S × List DialogCall)
      → Accounts st s.1
      → Ends (λ r. Accounts r.state r.actions.1) (process_event (dialog_table (traced a)) 1 st e s)
  unfolding dialog_table drain process_event traced
  step-Accounts st e s h = ground arith

  -- Whatever events an answered call gets, there is a result, and the calls fit the state: the call is
  -- torn down once, when it stops being up, and cleaned up once, when it is done.
  pub dialog_run-Accounts :
      (s : S) (es : List DialogEvent)
      → Ends (λ r. Accounts r.state r.actions.1) (run (dialog_table (traced a)) 1 active (s, []) es)
  dialog_run-Accounts s es =
      run-Ends (dialog_table (traced a)) 1 (λ st s. Accounts st s.1) step-Accounts active (s, []) es
        (ground arith)

  -- While an exchange or a REFER is under way no event begins another one.
  dialog_one_at_a_time :
      (st : DialogState) (e : DialogEvent) (s : S) (log : List DialogCall)
      → is_busy st ≡ true
      → Ends
          (λ r. count is_begin r.actions.1 ≡ count is_begin log)
          (dialog_process (traced a) st e (s, log))
  unfolding dialog_process dialog_table drain process_event traced
  dialog_one_at_a_time st e s log h = ground arith
