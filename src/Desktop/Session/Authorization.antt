-- ===== src/Desktop/Session/Authorization.antt =====
-- Sessions: who is authorized for one, which calls take one away, and that opening one returns.
use bx_ssh.Common.{
  ℕ, suc, ◌≡◌, ◌↔◌, ◌⊎◌, ◌∙◌, Bool, true, none, Result, Bool-cases, some, ok, Option-cases, inl,
  inr, arith, length, is_some,
}
use bx_ssh.Common.Text.{Text, text_eq, text_eq_iff}
use bx_ssh.Common.Maps.{lookup, lookup-insert, lookup-remove}
use bx_ssh.Ssh.Stage.{SshConnectionStage, connected}
use bx_ssh.Desktop.Session.{
  SessionKind, ManagedSession, ManagerState, kind_eq, is_connected, begin_attempt,
  transition_attempt, finish_attempt, cancel_attempt, complete_attempt, authorize_session,
  close_session,
}
use bx_ssh.Desktop.Session.Ids.{IsFresh, next_session_id_free, next_session_id_total}
use bx_ssh.Desktop.CommandError.{CommandError}
use bx_ssh.Desktop.Session.Cases.{
  begin_cases, transition_attempt_cases, complete_cases, finish_cases, cancel_cases,
  close_session_cases,
}
use bx_ssh.Desktop.Session.Calls.{
  Call, begin, advance, complete, finish, cancel, close, drop_session, clear_all, IsBy,
  after_complete, perform,
}

kind_eq_iff : (a b : SessionKind) → (kind_eq a b ≡ true) ↔ (a ≡ b)
unfolding kind_eq
kind_eq_iff a b = ground arith

is_connected_iff : (s : SshConnectionStage) → (is_connected s ≡ true) ↔ (s ≡ connected)
unfolding is_connected
is_connected_iff s = ground arith

-- A session is authorized exactly if it exists, belongs to the window, has the kind that is asked for
-- and is connected.
pub authorize_session_iff :
    (owner id : Text) (kind : SessionKind) (s : ManagerState)
    → (authorize_session owner id kind s ≡ ok tt) ↔ (
        (m : ManagedSession) × (lookup id s.sessions ≡ some m)
        × (m.owner ≡ owner)
        × (m.kind ≡ kind)
        × (m.state.current ≡ connected))
unfolding authorize_session
authorize_session_iff owner id kind s = elim (Option-cases (lookup id s.sessions)) [
  | inl e ↦ (λ h. absurd (ground arith), λ (m, g, _, _, _). absurd (cc (e, g)))
  | inr (m, e) ↦ (
    λ h. (
      m,
      e,
      ground (arith, text_eq_iff m.owner owner),
      ground (arith, kind_eq_iff m.kind kind),
      ground (arith, is_connected_iff m.state.current),
    ),
    λ (m', g, o, k, c). ground (
      arith,
      text_eq_iff m.owner owner,
      kind_eq_iff m.kind kind,
      is_connected_iff m.state.current,
    ),
  )
]

module _ (uuid : Text → Bool) (s : ManagerState) (owner j : Text) (m : ManagedSession)
    (h : lookup j s.sessions ≡ some m) where
  begin_sessions :
      (id : Text) (kind : SessionKind)
      → lookup j (begin_attempt uuid owner id kind s).0.sessions ≡ some m
  begin_sessions id kind = elim (begin_cases s owner id uuid kind) [
    | inl (e, _, _) ↦ rw e h
    | inr (_, _, e) ↦ rw e h
  ]

  advance_sessions :
      (id : Text) (stage : SshConnectionStage)
      → lookup j (transition_attempt owner id stage s).0.sessions ≡ some m
  advance_sessions id stage = elim (transition_attempt_cases s owner id stage) [
    | inl e ↦ rw e h
    | inr (a, _, inl (_, e)) ↦ rw e h
    | inr (a, _, inr (_, e)) ↦ rw e h
  ]

  complete_sessions :
      (id : Text) (draws : ℕ → Text)
      → lookup j (after_complete s (complete_attempt owner id draws s)).sessions ≡ some m
  complete_sessions id draws = elim (complete_cases s owner id draws) [
    | inl e ↦ rw e h
    | inr (a, _, inl (_, e)) ↦ rw e h
    | inr (a, _, inr (inl (_, _, e))) ↦ rw e h
    | inr (a, _, inr (inr (_, k, d, e))) ↦ rw e (
        ground (
          arith,
          lookup-insert k j
              (record { owner = a.owner; kind = a.kind; state = record { current = connected } })
              s.sessions,
          text_eq_iff k j,
          next_session_id_free draws (suc (length s.sessions)) 0 s.sessions k d,
        ))
  ]

  finish_sessions :
      (id : Text) (stage : SshConnectionStage)
      → lookup j (finish_attempt owner id stage s).0.sessions ≡ some m
  finish_sessions id stage = elim (finish_cases s owner id stage) [
    | inl (_, e) ↦ rw e h
    | inr (inl (a, _, _, e)) ↦ rw e h
    | inr (inr (a, _, e)) ↦ rw e h
  ]

  cancel_sessions : (id : Text) → lookup j (cancel_attempt owner id s).0.sessions ≡ some m
  cancel_sessions id = elim (cancel_cases s owner id) [ inl e ↦ rw e h | inr (a, _, e) ↦ rw e h ]

  close_sessions :
      (id : Text) (kind : SessionKind) (closed : Result CommandError (Unit {0}))
      → (lookup j (close_session owner id kind closed s).0.sessions ≡ some m)
        ⊎ ((m.owner ≡ owner)
            × (id ≡ j)
            × (lookup j (close_session owner id kind closed s).0.sessions ≡ none))
  close_sessions id kind closed = elim (close_session_cases s owner id kind closed) [
    | inl e ↦ inl (rw e h)
    | inr (m', g, o, e) ↦ rw e (elim (Bool-cases (text_eq id j)) [
      | inl t ↦ inr (
        ground (arith, text_eq_iff id j),
        (text_eq_iff id j).0 t,
        ground (arith, lookup-remove id j s.sessions),
      )
      | inr f ↦ inl (ground (arith, lookup-remove id j s.sessions))
    ])
  ]

-- How a call may take a session away: its own window closes it.
abbrev pub Closes : Text → Text → ManagedSession → Call → Type 0
Closes w j m (close owner id _ _) = (m.owner ≡ w) × (owner ≡ w) × (id ≡ j)
Closes w j m _ = ⊥

-- The calls of a window leave every session as it was, except for one of its own that it closes, which
-- is then gone; a new session takes an id that was free.
pub sessions_kept :
    (uuid : Text → Bool) (s : ManagerState) (w j : Text) (m : ManagedSession) (c : Call)
    → lookup j s.sessions ≡ some m
    → IsBy w c
    → (lookup j (perform uuid s c).sessions ≡ some m)
      ⊎ (Closes w j m c × (lookup j (perform uuid s c).sessions ≡ none))
unfolding perform
sessions_kept uuid s w j m (begin owner id kind) h o =
    inl (begin_sessions uuid s owner j m h id kind)
sessions_kept uuid s w j m (advance owner id stage) h o =
    inl (advance_sessions uuid s owner j m h id stage)
sessions_kept uuid s w j m (complete owner id draws) h o =
    inl (complete_sessions uuid s owner j m h id draws)
sessions_kept uuid s w j m (finish owner id stage) h o =
    inl (finish_sessions uuid s owner j m h id stage)
sessions_kept uuid s w j m (cancel owner id) h o = inl (cancel_sessions uuid s owner j m h id)
sessions_kept uuid s w j m (close owner id kind closed) h o =
    elim (close_sessions uuid s owner j m h id kind closed) [
      | inl e ↦ inl e
      | inr (p, q, e) ↦ inr ((p ∙ o, o, q), e)
    ]
sessions_kept uuid s w j m (drop_session _ _) h o = absurd o
sessions_kept uuid s w j m clear_all h o = absurd o

-- If the first draws, one more than there are sessions, give different ids, a call of
-- `complete_attempt` returns.
pub complete_attempt_total :
    (owner id : Text) (draws : ℕ → Text) (s : ManagerState)
    → IsFresh (suc (length s.sessions)) draws
    → is_some (complete_attempt owner id draws s) ≡ true
complete_attempt_total owner id draws s fresh = elim (complete_cases s owner id draws) [
  | inl e ↦ rw e
  | inr (a, _, inl (_, e)) ↦ rw e
  | inr (a, _, inr (inl (_, d, e))) ↦
      let (k, found, _) = next_session_id_total draws s.sessions fresh in absurd (cc (d, found))
  | inr (a, _, inr (inr (_, k, _, e))) ↦ rw e
]
