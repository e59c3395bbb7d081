-- ===== src/Desktop/Session/Cases.antt =====
-- The ways in which each call of the manager can end, with the state that it leaves.
use bx_ssh.Common.{
  ℕ, suc, ◌+◌, ◌≡◌, ◌≢◌, ◌⊎◌, Bool, true, false, Option, none, some, Option-cases, Bool-cases, ok,
  err, Result, Result-cases, refl, inl, inr, is_err, arith, if◌then◌else◌, length,
}
use bx_ssh.Desktop.CommandError.{CommandError}
use bx_ssh.Common.Text.{Text, text_eq, text_eq_iff}
use bx_ssh.Common.Maps.{lookup, contains_key, insert, remove}
use bx_ssh.Ssh.Stage
use bx_ssh.Ssh.Stage.{
  SshConnectionStage, connected, SshConnectionStateMachine, transition, valid_transition,
}
use bx_ssh.Ssh.Stage.History.{transition_cases}
use bx_ssh.Desktop.Session.{
  SessionKind, ConnectionAttempt, ManagerState, cancel_flag, no_attempt, refused, begin_attempt,
  owned_by, transition_attempt, next_session_id, complete_attempt, finish_attempt, cancel_attempt,
  remove_session, close_session, ManagedSession, authorize_session,
}

module _ (s : ManagerState) (owner id : Text) where
  pub begin_cases :
      (is_random_uuid : Text → Bool) (kind : SessionKind)
      → let r = begin_attempt is_random_uuid owner id kind s in
        ((r.0 ≡ s)
          × (is_err r.1 ≡ true)
          × ((is_random_uuid id ≡ false) ⊎ (contains_key id s.attempts ≡ true)))
        ⊎ ((is_random_uuid id ≡ true)
            × (contains_key id s.attempts ≡ false)
            × (r ≡ (
              record s {
                attempts =
                    insert id
                      (record {
                        owner = owner;
                        kind = kind;
                        state = Stage.new;
                        cancellation = s.next_flag;
                      })
                      s.attempts;
                next_flag = s.next_flag + 1;
              },
              ok s.next_flag,
            )))
  unfolding begin_attempt
  begin_cases is_random_uuid kind = ground arith

  -- The attempt that the owner has under the id.
  abbrev pub Owns : ConnectionAttempt → Type 0
  Owns a = (lookup id s.attempts ≡ some a) × (a.owner ≡ owner)

  pub owned_cases :
      (owned_by owner (lookup id s.attempts) ≡ none)
      ⊎ ((a : ConnectionAttempt) × (owned_by owner (lookup id s.attempts) ≡ some a)
          × (lookup id s.attempts ≡ some a)
          × (a.owner ≡ owner))
  unfolding owned_by
  owned_cases = elim (Option-cases (lookup id s.attempts)) [
    | inl e ↦ inl (rw e)
    | inr (a, e) ↦ elim (Bool-cases (text_eq a.owner owner)) [
      | inl t ↦ inr (a, rw (e, t), e, (text_eq_iff a.owner owner).0 t)
      | inr f ↦ inl (rw (e, f))
    ]
  ]

  pub transition_attempt_cases :
      (stage : SshConnectionStage)
      → let r = transition_attempt owner id stage s in
        (r ≡ (s, err no_attempt))
        ⊎ ((a : ConnectionAttempt) × Owns a
            × (((valid_transition a.state.current stage ≡ false)
                  × (r ≡ (s, err (refused (record { from = a.state.current; to = stage }) stage))))
                ⊎ ((valid_transition a.state.current stage ≡ true)
                    × (r ≡ (
                      record s {
                        attempts =
                            insert id (record a { state = record { current = stage } }) s.attempts;
                      },
                      ok (record { attempt_id = id; stage = stage }),
                    )))))
  unfolding transition_attempt
  transition_attempt_cases stage = elim owned_cases [
    | inl e ↦ inl (ground arith)
    | inr (a, e, g, o) ↦ inr (a, (g, o), ground (arith, transition_cases a.state stage))
  ]

  pub cancel_cases :
      let r = cancel_attempt owner id s in
      (r ≡ (s, false))
      ⊎ ((a : ConnectionAttempt) × Owns a
          × (r ≡ (record s { flags = cancel_flag a.cancellation s.flags }, true)))
  unfolding cancel_attempt
  cancel_cases = elim owned_cases [
    | inl e ↦ inl (ground arith)
    | inr (a, e, g, o) ↦ inr (a, (g, o), ground arith)
  ]

  -- The loop for the id of the session.
  abbrev pub drawn : (ℕ → Text) → Option Text
  drawn draws = next_session_id (suc (length s.sessions)) draws 0 s.sessions

  pub complete_cases :
      (draws : ℕ → Text)
      → let r = complete_attempt owner id draws s in
        (r ≡ some (s, err no_attempt))
        ⊎ ((a : ConnectionAttempt) × Owns a
            × (((valid_transition a.state.current connected ≡ false)
                  × (r
                      ≡ some (
                        record s { attempts = insert id a (remove id s.attempts) },
                        err (refused (record { from = a.state.current; to = connected }) connected),
                      )))
                ⊎ ((valid_transition a.state.current connected ≡ true)
                    × (drawn draws ≡ none)
                    × (r ≡ none))
                ⊎ ((valid_transition a.state.current connected ≡ true)
                    × (k : Text) × (drawn draws ≡ some k)
                    × (r
                        ≡ some (
                          record s {
                            attempts = remove id s.attempts;
                            sessions =
                                insert k
                                  (record {
                                    owner = a.owner;
                                    kind = a.kind;
                                    state = record { current = connected };
                                  })
                                  s.sessions;
                          },
                          ok (k, record { attempt_id = id; stage = connected }),
                        )))))
  unfolding complete_attempt
  complete_cases draws = elim owned_cases [
    | inl e ↦ inl (ground arith)
    | inr (a, e, g, o) ↦ inr (
      a,
      (g, o),
      elim (transition_cases a.state connected) [
        | inr (n, t) ↦ inl (n, ground arith)
        | inl (y, t) ↦ inr (elim (Option-cases (drawn draws)) [
          | inl d ↦ inl (y, d, ground arith)
          | inr (k, d) ↦ inr (y, k, d, ground arith)
        ])
      ],
    )
  ]

  pub finish_cases :
      (stage : SshConnectionStage)
      → let r = finish_attempt owner id stage s in
        ((lookup id s.attempts ≡ none) × (r ≡ (s, none)))
        ⊎ ((a : ConnectionAttempt) × (lookup id s.attempts ≡ some a)
            × (a.owner ≢ owner)
            × (r ≡ (record s { attempts = insert id a (remove id s.attempts) }, none)))
        ⊎ ((a : ConnectionAttempt) × Owns a
            × (r ≡ (
              record s { attempts = remove id s.attempts },
              if valid_transition a.state.current stage
                  then some (record { attempt_id = id; stage = stage })
                  else none,
            )))
  unfolding finish_attempt
  finish_cases stage = elim (Option-cases (lookup id s.attempts)) [
    | inl e ↦ inl (e, ground arith)
    | inr (a, e) ↦ inr (elim (Bool-cases (text_eq a.owner owner)) [
      | inl t ↦
          inr (
            a,
            (e, (text_eq_iff a.owner owner).0 t),
            ground (arith, transition_cases a.state stage),
          )
      | inr f ↦ inl (a, e, (λ o. cc ((text_eq_iff a.owner owner).1 o, f)), ground arith)
    ])
  ]

pub remove_session_cases :
    (s : ManagerState) (id : Text) (kind : SessionKind)
    → (remove_session id kind s ≡ s)
      ⊎ (remove_session id kind s ≡ record s { sessions = remove id s.sessions })
unfolding remove_session
remove_session_cases s id kind = ground arith

-- What a window is authorized for is its own.
authorized-owner :
    (s : ManagerState) (owner id : Text) (kind : SessionKind)
    → authorize_session owner id kind s ≡ ok tt
    → (m : ManagedSession) × (lookup id s.sessions ≡ some m) × (m.owner ≡ owner)
unfolding authorize_session
authorized-owner s owner id kind h = elim (Option-cases (lookup id s.sessions)) [
  | inl e ↦ absurd (ground (arith, h, e))
  | inr (m, e) ↦ (m, e, ground (arith, h, e, text_eq_iff m.owner owner))
]

-- Closing changes nothing, or it takes away a session that the window owns.
pub close_session_cases :
    (s : ManagerState) (owner id : Text) (kind : SessionKind)
    (closed : Result CommandError (Unit {0}))
    → ((close_session owner id kind closed s).0 ≡ s)
      ⊎ ((m : ManagedSession) × (lookup id s.sessions ≡ some m)
          × (m.owner ≡ owner)
          × ((close_session owner id kind closed s).0
              ≡ record s { sessions = remove id s.sessions }))
unfolding close_session
close_session_cases s owner id kind closed =
    elim (Result-cases (authorize_session owner id kind s)) [
      | inr (x, e) ↦ inl (rw (close_session, e) refl)
      | inl (t, e) ↦
          let (m, g, o) = authorized-owner s owner id kind e in
          elim (remove_session_cases s id kind) [
            | inl f ↦ inl (rw (close_session, e) f)
            | inr f ↦ inr (m, g, o, rw (close_session, e) f)
          ]
    ]
