-- ===== src/Desktop/Session/Ownership.antt =====
-- A window's calls reach only its own attempts.
use bx_ssh.Common.{ℕ, ◌≡◌, ◌≢◌, ◌∙◌, refl, Bool, some, Result, inl, inr, arith}
use bx_ssh.Common.Text.{Text, text_eq_iff}
use bx_ssh.Common.Maps.{lookup, remove, lookup-insert, lookup-remove}
use bx_ssh.Ssh.Stage
use bx_ssh.Ssh.Stage.{SshConnectionStage, connected}
use bx_ssh.Desktop.Session.{
  SessionKind, ConnectionAttempt, ManagerState, cancel_flag, begin_attempt, transition_attempt,
  finish_attempt, cancel_attempt, complete_attempt, close_session,
}
use bx_ssh.Desktop.CommandError.{CommandError}
use bx_ssh.Desktop.Session.Cases.{
  begin_cases, transition_attempt_cases, complete_cases, finish_cases, cancel_cases,
  close_session_cases,
}
use bx_ssh.Desktop.Session.Invariant.{Inv}
use bx_ssh.Desktop.Session.Calls.{
  Call, begin, advance, complete, finish, cancel, close, drop_session, clear_all, IsBy,
  after_complete, perform,
}

-- What a call leaves as it was: an attempt with its cancellation.
abbrev pub Keeps : ManagerState → ManagerState → Text → ConnectionAttempt → Type 0
Keeps s s' j b =
    (lookup j s'.attempts ≡ some b) × (s'.flags b.cancellation ≡ s.flags b.cancellation)

module _ {uuid : Text → Bool} {s : ManagerState} (v : Inv uuid s) (owner j : Text)
    (b : ConnectionAttempt) (there : lookup j s.attempts ≡ some b) where
  begin_kept : (id : Text) (kind : SessionKind) → Keeps s (begin_attempt uuid owner id kind s).0 j b
  begin_kept id kind = elim (begin_cases s owner id uuid kind) [
    | inl (e, _, _) ↦ rw e (there, refl)
    | inr (_, free, e) ↦ rw e (
      ground (
        arith,
        lookup-insert id j
            (record { owner = owner; kind = kind; state = Stage.new; cancellation = s.next_flag })
            s.attempts,
        text_eq_iff id j,
      ),
      refl,
    )
  ]

  module _ (foreign : b.owner ≢ owner) where
    not_owned :
        (id : Text) (a : ConnectionAttempt)
        → lookup id s.attempts ≡ some a
        → a.owner ≡ owner
        → id ≢ j
    not_owned id a g o e = foreign (cc (e, g, o, there))

    advance_kept :
        (id : Text) (stage : SshConnectionStage)
        → Keeps s (transition_attempt owner id stage s).0 j b
    advance_kept id stage = elim (transition_attempt_cases s owner id stage) [
      | inl e ↦ rw e (there, refl)
      | inr (a, _, inl (_, e)) ↦ rw e (there, refl)
      | inr (a, (g, p), inr (_, e)) ↦ rw e (
        ground (
          arith,
          lookup-insert id j (record a { state = record { current = stage } }) s.attempts,
          text_eq_iff id j,
          not_owned id a,
        ),
        refl,
      )
    ]

    complete_kept :
        (id : Text) (draws : ℕ → Text)
        → Keeps s (after_complete s (complete_attempt owner id draws s)) j b
    complete_kept id draws = elim (complete_cases s owner id draws) [
      | inl e ↦ rw e (there, refl)
      | inr (a, (g, p), inl (_, e)) ↦ rw e (
        ground (
          arith,
          lookup-insert id j a (remove id s.attempts),
          lookup-remove id j s.attempts,
          text_eq_iff id j,
          not_owned id a,
        ),
        refl,
      )
      | inr (a, _, inr (inl (_, _, e))) ↦ rw e (there, refl)
      | inr (a, (g, p), inr (inr (_, k, _, e))) ↦
          rw e
            (ground (arith, lookup-remove id j s.attempts, text_eq_iff id j, not_owned id a), refl)
    ]

    finish_kept :
        (id : Text) (stage : SshConnectionStage) → Keeps s (finish_attempt owner id stage s).0 j b
    finish_kept id stage = elim (finish_cases s owner id stage) [
      | inl (_, e) ↦ rw e (there, refl)
      | inr (inl (a, g, _, e)) ↦ rw e (
        ground (
          arith,
          lookup-insert id j a (remove id s.attempts),
          lookup-remove id j s.attempts,
          text_eq_iff id j,
        ),
        refl,
      )
      | inr (inr (a, (g, p), e)) ↦
          rw e
            (ground (arith, lookup-remove id j s.attempts, text_eq_iff id j, not_owned id a), refl)
    ]

    cancel_kept : (id : Text) → Keeps s (cancel_attempt owner id s).0 j b
    cancel_kept id = elim (cancel_cases s owner id) [
      | inl e ↦ rw e (there, refl)
      | inr (a, (g, p), e) ↦ rw e (
        there,
        unfold cancel_flag in ground (arith, not_owned id a, v.attempts_inv.unique id j a b),
      )
    ]

close_kept :
    (s : ManagerState) (owner j : Text) (b : ConnectionAttempt)
    → lookup j s.attempts ≡ some b
    → (id : Text) (kind : SessionKind) (closed : Result CommandError (Unit {0}))
    → Keeps s (close_session owner id kind closed s).0 j b
close_kept s owner j b h id kind closed = elim (close_session_cases s owner id kind closed) [
  | inl e ↦ rw e (h, refl)
  | inr (_, _, _, e) ↦ rw e (h, refl)
]

-- While the manager's invariant holds, the calls of a window leave every attempt of another window
-- as it was, and its cancellation too.
pub foreign_attempt_kept :
    (uuid : Text → Bool) (s : ManagerState) (w j : Text) (b : ConnectionAttempt) (c : Call)
    → Inv uuid s
    → lookup j s.attempts ≡ some b
    → b.owner ≢ w
    → IsBy w c
    → Keeps s (perform uuid s c) j b
unfolding perform
foreign_attempt_kept uuid s w j b (begin owner id kind) v h f o = begin_kept v owner j b h id kind
foreign_attempt_kept uuid s w j b (advance owner id stage) v h f o =
    advance_kept v owner j b h (λ e. f (e ∙ o)) id stage
foreign_attempt_kept uuid s w j b (complete owner id draws) v h f o =
    complete_kept v owner j b h (λ e. f (e ∙ o)) id draws
foreign_attempt_kept uuid s w j b (finish owner id stage) v h f o =
    finish_kept v owner j b h (λ e. f (e ∙ o)) id stage
foreign_attempt_kept uuid s w j b (cancel owner id) v h f o =
    cancel_kept v owner j b h (λ e. f (e ∙ o)) id
foreign_attempt_kept uuid s w j b (close owner id kind closed) v h f o =
    close_kept s owner j b h id kind closed
foreign_attempt_kept uuid s w j b (drop_session _ _) v h f o = absurd o
foreign_attempt_kept uuid s w j b clear_all v h f o = absurd o
