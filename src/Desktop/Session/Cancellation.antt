-- ===== src/Desktop/Session/Cancellation.antt =====
-- Cancellation: whose flag a call sets, and what a window that opens a session finds afterwards.
use bx_ssh.Common.{
  ℕ, suc, ◌≡◌, ◌≢◌, ◌↔◌, refl, Bool, true, false, none, some, [], ◌∷◌, ok, Bool-cases, inl, inr,
  arith, length,
}
use bx_ssh.Common.Text.{Text, text_eq, text_eq_iff, text_eq_refl}
use bx_ssh.Common.Maps.{Map, lookup, contains_key, insert, remove, lookup-insert, lookup-remove}
use bx_ssh.Ssh.Stage.{connected}
use bx_ssh.Desktop.Session.{
  SessionKind, SshConnectionEvent, ConnectionAttempt, ManagedSession, ManagerState, cancel_flag,
  begin_attempt, owned_by, cancel_attempt, complete_attempt, cancel_all, clear, authorize_session,
}
use bx_ssh.Desktop.Session.Ids.{next_session_id_free}
use bx_ssh.Desktop.Session.Cases.{Owns, begin_cases, cancel_cases, complete_cases}
use bx_ssh.Desktop.Session.Invariant.{Inv}
use bx_ssh.Desktop.Session.Authorization.{authorize_session_iff}

cancel_attempt-owned :
    (s : ManagerState) (owner id : Text) (a : ConnectionAttempt)
    → Owns s owner id a
    → cancel_attempt owner id s ≡ (record s { flags = cancel_flag a.cancellation s.flags }, true)
unfolding cancel_attempt owned_by
cancel_attempt-owned s owner id a (g, o) = ground (arith, text_eq_iff a.owner owner)

-- While the manager's invariant holds, `cancel_attempt` answers true exactly if the window has an
-- attempt under the id. Then that attempt is cancelled, and no other is; every attempt and every session
-- stays in the table, as it was.
pub cancel_attempt_lem :
    {uuid : Text → Bool} (s : ManagerState) (owner id : Text)
    → Inv uuid s
    → let r = cancel_attempt owner id s in
      ((r.1 ≡ true) ↔ ((a : ConnectionAttempt) × Owns s owner id a))
      × ((a : ConnectionAttempt) → Owns s owner id a → r.0.flags a.cancellation ≡ true)
      × ((j : Text) (b : ConnectionAttempt)
          → lookup j s.attempts ≡ some b
          → j ≢ id
          → r.0.flags b.cancellation ≡ s.flags b.cancellation)
      × (r.0.attempts ≡ s.attempts)
      × (r.0.sessions ≡ s.sessions)
cancel_attempt_lem s owner id v = elim (cancel_cases s owner id) [
  | inl e ↦ rw e (
    (λ h. absurd (cc h), λ (a, g). absurd (ground (arith, cancel_attempt-owned s owner id a g))),
    (λ a g. absurd (ground (arith, cancel_attempt-owned s owner id a g))),
    λ j b h n. refl,
    refl,
    refl,
  )
  | inr (a, (g, o), e) ↦ rw e (
    (λ _. (a, (g, o)), λ _. refl),
    (λ a' (g', o'). unfold cancel_flag in ground arith),
    λ j b h n. unfold cancel_flag in ground (arith, v.attempts_inv.unique id j a b),
    refl,
    refl,
  )
]

-- While the manager's invariant holds, an attempt that begins is not cancelled: the handle that it
-- gets is unset, and no earlier attempt has it.
pub begin_attempt-flag :
    {uuid : Text → Bool} (s : ManagerState) (owner id : Text) (kind : SessionKind) (n : ℕ)
    → Inv uuid s
    → (begin_attempt uuid owner id kind s).1 ≡ ok n
    → ((begin_attempt uuid owner id kind s).0.flags n ≡ false)
      × ((j : Text) (b : ConnectionAttempt) → lookup j s.attempts ≡ some b → b.cancellation ≢ n)
begin_attempt-flag {uuid} s owner id kind n v h = elim (begin_cases s owner id uuid kind) [
  | inl (_, b, _) ↦ absurd (ground arith)
  | inr (_, _, e) ↦ (
    rw e (ground (arith, v.flags_clear s.next_flag)),
    λ j b g. ground (arith, v.attempts_inv.used j b),
  )
]

cancel_all_mono :
    (m : Map ConnectionAttempt) (flags : ℕ → Bool) (n : ℕ)
    → flags n ≡ true
    → cancel_all m flags n ≡ true
unfolding cancel_all
cancel_all_mono [] flags n h = h
cancel_all_mono ((k, a) ∷ m) flags n h =
    cancel_all_mono m (cancel_flag a.cancellation flags) n (unfold cancel_flag in ground arith)

cancel_all_sets :
    (m : Map ConnectionAttempt) (flags : ℕ → Bool) (j : Text) (b : ConnectionAttempt)
    → lookup j m ≡ some b
    → cancel_all m flags b.cancellation ≡ true
unfolding cancel_all lookup
cancel_all_sets [] flags j b h = absurd (cc h)
cancel_all_sets ((k, a) ∷ m) flags j b h = elim (Bool-cases (text_eq k j)) [
  | inl t ↦
      cancel_all_mono m (cancel_flag a.cancellation flags) b.cancellation
        (unfold cancel_flag in ground arith)
  | inr f ↦ cancel_all_sets m (cancel_flag a.cancellation flags) j b (ground arith)
]

-- `clear` cancels every attempt, and leaves neither an attempt nor a session.
pub clear_lem :
    (s : ManagerState)
    → ((j : Text) (b : ConnectionAttempt)
        → lookup j s.attempts ≡ some b
        → (clear s).flags b.cancellation ≡ true)
      × ((clear s).attempts ≡ [])
      × ((clear s).sessions ≡ [])
unfolding clear
clear_lem s = (λ j b h. cancel_all_sets s.attempts s.flags j b h, refl, refl)

-- The session that an attempt turns into.
abbrev opened : ConnectionAttempt → ManagedSession
opened a = record { owner = a.owner; kind = a.kind; state = record { current = connected } }

-- The session that `complete_attempt` gives out is new, belongs to the window and is authorized for
-- the kind of the attempt; the attempt is gone.
pub complete_attempt_opens :
    (owner id : Text) (draws : ℕ → Text) (s s' : ManagerState) (k : Text)
    (event : SshConnectionEvent)
    → complete_attempt owner id draws s ≡ some (s', ok (k, event))
    → (contains_key k s.sessions ≡ false)
      × (lookup id s'.attempts ≡ none)
      × ((a : ConnectionAttempt) × Owns s owner id a
          × (authorize_session owner k a.kind s' ≡ ok tt))
complete_attempt_opens owner id draws s s' k event h = elim (complete_cases s owner id draws) [
  | inl e ↦ absurd (ground arith)
  | inr (a, _, inl (_, e)) ↦ absurd (ground arith)
  | inr (a, _, inr (inl (_, _, e))) ↦ absurd (ground arith)
  | inr (a, (g, o), inr (inr (_, k', d, e))) ↦
      let at : s' ≡ record s {
        attempts = remove id s.attempts;
        sessions = insert k (opened a) s.sessions;
      } =
        cc (h, e) in
      (
        ground (arith, next_session_id_free draws (suc (length s.sessions)) 0 s.sessions k),
        rw at (ground (arith, lookup-remove id id s.attempts, text_eq_refl id)),
        (
          a,
          (g, o),
          (authorize_session_iff owner k a.kind s').1 (
            opened a,
            rw at (ground (arith, lookup-insert k k (opened a) s.sessions, text_eq_refl k)),
            o,
            refl,
            refl,
          ),
        ),
      )
]
