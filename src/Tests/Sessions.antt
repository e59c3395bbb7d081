-- ===== src/Tests/Sessions.antt =====
-- Tests of the session manager.
use bx_ssh.Common.{
  ℕ, suc, zero, ◌+◌, ◌≡◌, ◌≢◌, ◌↔◌, ◌⊎◌, inl, inr, refl, none, some, List, [], ◌∷◌, ok, err, true,
  false, is_some, is_err, arith, Bool, subst, sym, length,
}
use bx_ssh.Common.Text.{Text, codes, text_eq, text_eq_iff}
use bx_ssh.Common.Maps.{lookup, contains_key}
use bx_ssh.Ssh.Stage.{
  SshConnectionStage, resolving_dns, connecting_tcp, handshaking, authenticating, opening_channel,
  connected,
}
use bx_ssh.Desktop.Session.{
  terminal, sftp, ConnectionAttempt, ManagedSession, ManagerState, initial, begin_attempt,
  cancel_attempt, complete_attempt, clear, authorize_session,
}
use bx_ssh.Desktop.Session.Ids.{IsFresh}
use bx_ssh.Desktop.Session.Cases.{Owns}
use bx_ssh.Desktop.Session.Invariant.{Inv, manager-Inv}
use bx_ssh.Desktop.Session.Calls.{
  Call, begin, advance, complete, cancel, close, perform, perform_all,
}
use bx_ssh.Desktop.Session.Ownership.{Keeps, foreign_attempt_kept}
use bx_ssh.Desktop.Session.Authorization.{
  Closes, sessions_kept, authorize_session_iff, complete_attempt_total,
}
use bx_ssh.Desktop.Session.Cancellation.{cancel_attempt_lem, complete_attempt_opens}

abbrev any_id : Text → Bool
any_id _ = true

-- Two random UUIDs, of which the second is drawn again and again.
abbrev first_id : Text
first_id = codes "0b8a2c1e-5d3f-4a6b-9c7d-1e2f3a4b5c6d"

abbrev second_id : Text
second_id = codes "7f6e5d4c-3b2a-4190-8f7e-6d5c4b3a2910"

abbrev draws : ℕ → Text
draws zero = first_id
draws (suc n) = second_id

draws-IsFresh : IsFresh 2 draws
unfolding text_eq
draws-IsFresh zero (suc zero) l u e = cc ((text_eq_iff first_id second_id).1 e)
draws-IsFresh (suc i) (suc zero) l u e = omega (arith, l)
draws-IsFresh i zero l u e = omega (arith, l)
draws-IsFresh i (suc (suc j)) l u e = omega (arith, u)

-- Two windows connect, and the first gets as far as its last stage.
abbrev calls : List Call
calls =
    begin (codes "main") (codes "a") terminal
    ∷ begin (codes "other") (codes "b") sftp
    ∷ advance (codes "main") (codes "a") resolving_dns
    ∷ advance (codes "main") (codes "a") connecting_tcp
    ∷ advance (codes "main") (codes "a") handshaking
    ∷ advance (codes "main") (codes "a") authenticating
    ∷ advance (codes "main") (codes "a") opening_channel
    ∷ []

abbrev busy : ManagerState
busy = perform_all any_id initial calls

abbrev attempt_a : ConnectionAttempt
attempt_a = record {
  owner = codes "main";
  kind = terminal;
  state = record { current = opening_channel };
  cancellation = 0;
}

abbrev attempt_b : ConnectionAttempt
attempt_b = record {
  owner = codes "other";
  kind = sftp;
  state = record { current = SshConnectionStage.created };
  cancellation = 1;
}

busy_a : lookup (codes "a") busy.attempts ≡ some attempt_a
unfolding perform_all lookup perform bx_ssh.Desktop.Session.transition_attempt
    bx_ssh.Desktop.Session.owned_by begin_attempt bx_ssh.Common.Maps.insert
    bx_ssh.Common.Text.text_eq bx_ssh.Ssh.Stage.transition
busy_a = refl

busy_b : lookup (codes "b") busy.attempts ≡ some attempt_b
unfolding perform_all lookup perform bx_ssh.Desktop.Session.transition_attempt
    bx_ssh.Desktop.Session.owned_by begin_attempt bx_ssh.Common.Maps.insert
    bx_ssh.Common.Text.text_eq bx_ssh.Ssh.Stage.transition
busy_b = refl

manager-Inv_example : Inv any_id busy
manager-Inv_example = manager-Inv any_id calls

other_window : codes "other" ≢ codes "main"
other_window e = cc e

foreign_attempt_kept_example :
    Keeps busy (perform any_id busy (cancel (codes "main") (codes "b"))) (codes "b") attempt_b
foreign_attempt_kept_example =
    foreign_attempt_kept any_id busy (codes "main") (codes "b") attempt_b
      (cancel (codes "main") (codes "b")) (manager-Inv any_id calls) busy_b other_window refl

cancel_attempt_lem_example :
    let r = cancel_attempt (codes "main") (codes "a") busy in
    ((r.1 ≡ true) ↔ ((a : ConnectionAttempt) × Owns busy (codes "main") (codes "a") a))
    × ((a : ConnectionAttempt)
        → Owns busy (codes "main") (codes "a") a
        → r.0.flags a.cancellation ≡ true)
    × ((j : Text) (b : ConnectionAttempt)
        → lookup j busy.attempts ≡ some b
        → j ≢ codes "a"
        → r.0.flags b.cancellation ≡ busy.flags b.cancellation)
    × (r.0.attempts ≡ busy.attempts)
    × (r.0.sessions ≡ busy.sessions)
cancel_attempt_lem_example =
    cancel_attempt_lem busy (codes "main") (codes "a") (manager-Inv any_id calls)

begin_gives : (begin_attempt any_id (codes "main") (codes "c") terminal busy).1 ≡ ok 2
unfolding begin_attempt lookup perform_all perform bx_ssh.Desktop.Session.transition_attempt
    bx_ssh.Desktop.Session.owned_by bx_ssh.Common.Maps.insert bx_ssh.Common.Text.text_eq
    bx_ssh.Ssh.Stage.transition
begin_gives = refl

-- The manager when the first window's session is open.
abbrev session : ManagedSession
session = record { owner = codes "main"; kind = terminal; state = record { current = connected } }

abbrev opened : ManagerState
opened = perform any_id busy (complete (codes "main") (codes "a") draws)

completes :
    complete_attempt (codes "main") (codes "a") draws busy
    ≡ some (opened, ok (first_id, record { attempt_id = codes "a"; stage = connected }))
unfolding complete_attempt bx_ssh.Desktop.Session.owned_by lookup perform_all perform
    bx_ssh.Desktop.Session.transition_attempt begin_attempt bx_ssh.Common.Maps.insert
    bx_ssh.Common.Text.text_eq bx_ssh.Ssh.Stage.transition bx_ssh.Desktop.Session.next_session_id
completes = refl

complete_attempt_opens_example :
    (contains_key first_id busy.sessions ≡ false)
    × (lookup (codes "a") opened.attempts ≡ none)
    × ((a : ConnectionAttempt) × Owns busy (codes "main") (codes "a") a
        × (authorize_session (codes "main") first_id a.kind opened ≡ ok tt))
complete_attempt_opens_example =
    complete_attempt_opens (codes "main") (codes "a") draws busy opened first_id
      (record { attempt_id = codes "a"; stage = connected }) completes

-- The first window closes its session.
abbrev closing : Call
closing = close (codes "main") first_id terminal (ok tt)

-- The other window gets as far, when the session of the first has the id that is drawn first.
abbrev crowded : ManagerState
crowded = perform_all any_id opened (
    advance (codes "other") (codes "b") resolving_dns
    ∷ advance (codes "other") (codes "b") connecting_tcp
    ∷ advance (codes "other") (codes "b") handshaking
    ∷ advance (codes "other") (codes "b") authenticating
    ∷ advance (codes "other") (codes "b") opening_channel
    ∷ [])

one_session : suc (length crowded.sessions) ≡ 2
unfolding perform lookup complete_attempt bx_ssh.Desktop.Session.owned_by perform_all
    bx_ssh.Desktop.Session.transition_attempt begin_attempt bx_ssh.Common.Maps.insert
    bx_ssh.Common.Text.text_eq bx_ssh.Ssh.Stage.transition bx_ssh.Desktop.Session.next_session_id
one_session = refl

complete_attempt_total_example :
    is_some (complete_attempt (codes "other") (codes "b") draws crowded) ≡ true
complete_attempt_total_example =
    complete_attempt_total (codes "other") (codes "b") draws crowded
      (subst (λ n. IsFresh n draws) (sym one_session) draws-IsFresh)

opened_session : lookup first_id opened.sessions ≡ some session
unfolding perform lookup complete_attempt bx_ssh.Desktop.Session.owned_by perform_all
    bx_ssh.Desktop.Session.transition_attempt begin_attempt bx_ssh.Common.Maps.insert
    bx_ssh.Common.Text.text_eq bx_ssh.Ssh.Stage.transition bx_ssh.Desktop.Session.next_session_id
opened_session = refl

sessions_kept_example :
    (lookup first_id (perform any_id opened closing).sessions ≡ some session)
    ⊎ (Closes (codes "main") first_id session closing
        × (lookup first_id (perform any_id opened closing).sessions ≡ none))
sessions_kept_example =
    sessions_kept any_id opened (codes "main") first_id session closing opened_session refl

closed_session : lookup first_id (perform any_id opened closing).sessions ≡ none
unfolding perform lookup complete_attempt bx_ssh.Desktop.Session.owned_by perform_all
    bx_ssh.Desktop.Session.transition_attempt begin_attempt bx_ssh.Common.Maps.insert
    bx_ssh.Common.Text.text_eq bx_ssh.Ssh.Stage.transition bx_ssh.Desktop.Session.next_session_id
    bx_ssh.Desktop.Session.close_session authorize_session bx_ssh.Desktop.Session.remove_session
    bx_ssh.Common.Maps.remove bx_ssh.Desktop.Session.kind_eq bx_ssh.Desktop.Session.is_connected
closed_session = refl

authorize_session_iff_example :
    (authorize_session (codes "main") first_id terminal opened ≡ ok tt) ↔ (
      (m : ManagedSession) × (lookup first_id opened.sessions ≡ some m)
      × (m.owner ≡ codes "main")
      × (m.kind ≡ terminal)
      × (m.state.current ≡ connected))
authorize_session_iff_example = authorize_session_iff (codes "main") first_id terminal opened
