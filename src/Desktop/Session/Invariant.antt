-- ===== src/Desktop/Session/Invariant.antt =====
-- What holds of the manager between two calls.
pub mod Attempts
use bx_ssh.Common.{
  ℕ, suc, ◌+◌, ◌≤◌, ◌<◌, ◌≡◌, ◌⊎◌, refl, sym, ap, ◌∙◌, Bool, true, false, Option, none, some, List,
  [], ◌∷◌, Bool-cases, Option-cases, Result-cases, Result, ok, err, inl, inr, arith, if◌then◌else◌,
  length,
}
use bx_ssh.Common.Text.{Text, text_eq, text_eq_iff}
use bx_ssh.Common.Maps.{
  Map, Values, remove-Values, insert-Values, lookup, contains_key, insert, remove, lookup-insert,
  lookup-remove,
}
use bx_ssh.Ssh.Stage.{
  SshConnectionStage, connected, SshConnectionStateMachine, transition, valid_transition,
}
use bx_ssh.Ssh.Stage.History.{transition_cases}
use bx_ssh.Desktop.Session.{
  SessionKind, SshConnectionEvent, ConnectionAttempt, ManagedSession, ManagerState, initial,
  cancel_flag, begin_attempt, validate_attempt_id, owned_by, transition_attempt, next_session_id,
  complete_attempt, finish_attempt, cancel_attempt, remove_session, close_session, cancel_all,
  clear,
}
use bx_ssh.Desktop.Session.Calls.{
  Call, begin, advance, complete, finish, cancel, close, drop_session, clear_all, after_complete,
  perform, perform_all,
}
use bx_ssh.Desktop.Session.Cases.{
  begin_cases, transition_attempt_cases, complete_cases, finish_cases, cancel_cases,
  remove_session_cases, close_session_cases,
}
use bx_ssh.Desktop.CommandError.{CommandError}
use bx_ssh.Desktop.Session.Invariant.Attempts.{
  AttemptsInv, AttemptsInv-add, AttemptsInv-update, AttemptsInv-remove,
}

pub record Inv (is_random_uuid : Text → Bool) (s : ManagerState) : Type 0 where
  -- Attempts go by random UUIDs, and each has a cancellation of its own.
  pub attempts_inv : AttemptsInv is_random_uuid (λ id. lookup id s.attempts) s.next_flag
  pub values_used : Values (λ a. a.cancellation < s.next_flag) s.attempts
  -- Every session is connected.
  pub sessions_up :
      (id : Text) (m : ManagedSession) → lookup id s.sessions ≡ some m → m.state.current ≡ connected
  -- A cancellation that was not given out is not set.
  pub flags_clear : (n : ℕ) → s.next_flag ≤ n → s.flags n ≡ false

Values-suc :
    (n : ℕ) (m : Map ConnectionAttempt)
    → Values (λ a. a.cancellation < n) m
    → Values (λ a. a.cancellation < n + 1) m
Values-suc n [] h = tt
Values-suc n ((k, a) ∷ m) h = (omega arith, Values-suc n m h.1)

-- Cancelling every attempt sets no handle that is not used.
cancel_all_clear :
    (n k : ℕ) (m : Map ConnectionAttempt) (flags : ℕ → Bool)
    → Values (λ a. a.cancellation < n) m
    → n ≤ k
    → flags k ≡ false
    → cancel_all m flags k ≡ false
unfolding cancel_all
cancel_all_clear n k [] flags h l f = f
cancel_all_clear n k ((j, a) ∷ m) flags h l f =
    cancel_all_clear n k m (cancel_flag a.cancellation flags) h.1 l
      (unfold cancel_flag in ground arith)

module _ {uuid : Text → Bool} {s : ManagerState} (v : Inv uuid s) where
  -- Only the attempts change, and they stay in order.
  attempts-Inv :
      (attempts : Map ConnectionAttempt)
      → AttemptsInv uuid (λ id. lookup id attempts) s.next_flag
      → Values (λ a. a.cancellation < s.next_flag) attempts
      → Inv uuid (record s { attempts = attempts })
  attempts-Inv attempts a u = record {
    attempts_inv = a;
    values_used = u;
    sessions_up = v.sessions_up;
    flags_clear = v.flags_clear;
  }

  remove-AttemptsInv :
      (id : Text) → AttemptsInv uuid (λ j. lookup j (remove id s.attempts)) s.next_flag
  remove-AttemptsInv id = AttemptsInv-remove v.attempts_inv id (λ j. lookup-remove id j s.attempts)

  abbrev IsUsed : ConnectionAttempt → Type 0
  IsUsed a = a.cancellation < s.next_flag

  remove-IsUsed : (id : Text) → Values IsUsed (remove id s.attempts)
  remove-IsUsed id = remove-Values IsUsed id s.attempts v.values_used

  put_back-IsUsed :
      (id : Text) (a : ConnectionAttempt)
      → lookup id s.attempts ≡ some a
      → Values IsUsed (insert id a (remove id s.attempts))
  put_back-IsUsed id a g =
      insert-Values IsUsed id a (remove id s.attempts) (v.attempts_inv.used id a g)
        (remove-IsUsed id)

  put_back-AttemptsInv :
      (id : Text) (a : ConnectionAttempt)
      → lookup id s.attempts ≡ some a
      → AttemptsInv uuid (λ j. lookup j (insert id a (remove id s.attempts))) s.next_flag
  put_back-AttemptsInv id a g = AttemptsInv-update v.attempts_inv id a a g refl (λ j.
      ground (arith, lookup-insert id j a (remove id s.attempts), lookup-remove id j s.attempts))

  begin-Inv :
      (owner id : Text) (kind : SessionKind) → Inv uuid (begin_attempt uuid owner id kind s).0
  begin-Inv owner id kind = elim (begin_cases s owner id uuid kind) [
    | inl (e, _, _) ↦ rw e v
    | inr (u, _, e) ↦ rw e (record {
      attempts_inv =
          AttemptsInv-add v.attempts_inv id _ u refl (λ j. lookup-insert id j _ s.attempts);
      values_used =
          insert-Values (λ a. a.cancellation < s.next_flag + 1) id _ s.attempts (omega arith)
            (Values-suc s.next_flag s.attempts v.values_used);
      sessions_up = v.sessions_up;
      flags_clear = λ n h. v.flags_clear n (omega arith);
    })
  ]

  advance-Inv :
      (owner id : Text) (stage : SshConnectionStage)
      → Inv uuid (transition_attempt owner id stage s).0
  advance-Inv owner id stage = elim (transition_attempt_cases s owner id stage) [
    | inl e ↦ rw e v
    | inr (a, _, inl (_, e)) ↦ rw e v
    | inr (a, (g, _), inr (_, e)) ↦ rw e (
        attempts-Inv _
          (AttemptsInv-update v.attempts_inv id a _ g refl (λ j. lookup-insert id j _ s.attempts))
          (insert-Values IsUsed id _ s.attempts (v.attempts_inv.used id a g) v.values_used))
  ]

  complete-Inv :
      (owner id : Text) (draws : ℕ → Text)
      → Inv uuid (after_complete s (complete_attempt owner id draws s))
  complete-Inv owner id draws = elim (complete_cases s owner id draws) [
    | inl e ↦ rw e v
    | inr (a, (g, _), inl (_, e)) ↦
        rw e (attempts-Inv _ (put_back-AttemptsInv id a g) (put_back-IsUsed id a g))
    | inr (a, _, inr (inl (_, _, e))) ↦ rw e v
    | inr (a, _, inr (inr (_, k, _, e))) ↦ rw e (record {
      attempts_inv = remove-AttemptsInv id;
      values_used = remove-IsUsed id;
      sessions_up = λ j m h. ground (
        arith,
        lookup-insert k j
            (record { owner = a.owner; kind = a.kind; state = record { current = connected } })
            s.sessions,
        v.sessions_up j m,
      );
      flags_clear = v.flags_clear;
    })
  ]

  finish-Inv :
      (owner id : Text) (stage : SshConnectionStage) → Inv uuid (finish_attempt owner id stage s).0
  finish-Inv owner id stage = elim (finish_cases s owner id stage) [
    | inl (_, e) ↦ rw e v
    | inr (inl (a, g, _, e)) ↦
        rw e (attempts-Inv _ (put_back-AttemptsInv id a g) (put_back-IsUsed id a g))
    | inr (inr (a, _, e)) ↦ rw e (attempts-Inv _ (remove-AttemptsInv id) (remove-IsUsed id))
  ]

  cancel-Inv : (owner id : Text) → Inv uuid (cancel_attempt owner id s).0
  cancel-Inv owner id = elim (cancel_cases s owner id) [
    | inl e ↦ rw e v
    | inr (a, (g, _), e) ↦ rw e (record {
      attempts_inv = v.attempts_inv;
      values_used = v.values_used;
      sessions_up = v.sessions_up;
      flags_clear =
          λ n h. unfold cancel_flag in ground (arith, v.attempts_inv.used id a g, v.flags_clear n);
    })
  ]

  drop_session-Inv : (id : Text) (kind : SessionKind) → Inv uuid (remove_session id kind s)
  drop_session-Inv id kind = elim (remove_session_cases s id kind) [
    | inl e ↦ rw e v
    | inr e ↦ rw e (record {
      attempts_inv = v.attempts_inv;
      values_used = v.values_used;
      sessions_up = λ j m h. ground (arith, lookup-remove id j s.sessions, v.sessions_up j m);
      flags_clear = v.flags_clear;
    })
  ]

  close-Inv :
      (owner id : Text) (kind : SessionKind) (closed : Result CommandError (Unit {0}))
      → Inv uuid (close_session owner id kind closed s).0
  close-Inv owner id kind closed = elim (close_session_cases s owner id kind closed) [
    | inl e ↦ rw e v
    | inr (_, _, _, e) ↦ rw e (record {
      attempts_inv = v.attempts_inv;
      values_used = v.values_used;
      sessions_up = λ j m h. ground (arith, lookup-remove id j s.sessions, v.sessions_up j m);
      flags_clear = v.flags_clear;
    })
  ]

  clear-Inv : Inv uuid (clear s)
  unfolding clear lookup
  clear-Inv = record {
    attempts_inv = record {
      uuid = λ id a h. cc h;
      used = λ id a h. cc h;
      unique = λ id j a b h. cc h;
    };
    values_used = tt;
    sessions_up = λ id m h. cc h;
    flags_clear = λ n h.
        cancel_all_clear s.next_flag n s.attempts s.flags v.values_used h (v.flags_clear n h);
  }

  perform-Inv : (c : Call) → Inv uuid (perform uuid s c)
  unfolding perform
  perform-Inv (begin owner id kind) = begin-Inv owner id kind
  perform-Inv (advance owner id stage) = advance-Inv owner id stage
  perform-Inv (complete owner id draws) = complete-Inv owner id draws
  perform-Inv (finish owner id stage) = finish-Inv owner id stage
  perform-Inv (cancel owner id) = cancel-Inv owner id
  perform-Inv (close owner id kind closed) = close-Inv owner id kind closed
  perform-Inv (drop_session id kind) = drop_session-Inv id kind
  perform-Inv clear_all = clear-Inv

perform_all-Inv :
    {uuid : Text → Bool} (s : ManagerState) (cs : List Call)
    → Inv uuid s
    → Inv uuid (perform_all uuid s cs)
unfolding perform_all
perform_all-Inv s [] v = v
perform_all-Inv {uuid} s (c ∷ cs) v = perform_all-Inv (perform uuid s c) cs (perform-Inv v c)

pub initial-Inv : (uuid : Text → Bool) → Inv uuid initial
unfolding lookup
initial-Inv uuid = record {
  attempts_inv = record {
    uuid = λ id a h. cc h;
    used = λ id a h. cc h;
    unique = λ id j a b h. cc h;
  };
  values_used = tt;
  sessions_up = λ id m h. cc h;
  flags_clear = λ n h. refl;
}

-- After any calls, by any windows and in any order: attempts go by random UUIDs, each has a
-- cancellation of its own that was given out, every session is connected, and no cancellation is set
-- before it was given out.
pub manager-Inv : (uuid : Text → Bool) (cs : List Call) → Inv uuid (perform_all uuid initial cs)
manager-Inv uuid cs = perform_all-Inv initial cs (initial-Inv uuid)
