-- ===== src/Desktop/Terminal/Run/Ending.antt =====
-- How a session ends, as the frontend and the manager see it.
use bx_ssh.Common.{
  ℕ, ◌≡◌, ◌≢◌, inl, inr, refl, subst, Bool, false, Option, none, some, List, [], ◌∷◌, Result, ok,
  err, is_some, if◌then◌else◌, arith, Bool-cases, length, length-append,
}
use bx_ssh.Common.Text.{Text, text_eq_refl}
use bx_ssh.Common.Maps.{Map, lookup, remove, lookup-remove}
use bx_ssh.Ssh.Foreign.{Foreign}
use bx_ssh.Ssh.Error.{SshError}
use bx_ssh.Ssh.Shell.{
  ShellEvent, output, extended_output, exit_status_event, exit_signal_event, eof_event,
  closed_event,
}
use bx_ssh.Desktop.Session.{ManagerState, terminal, kind_eq, authorize_session, remove_session}
use bx_ssh.Desktop.Session.Authorization.{authorize_session_iff}
use bx_ssh.Desktop.Terminal.Flow.{can_read, push, should_flush, flush_deadline, flush}
use bx_ssh.Desktop.Terminal.Run.{
  SessionCommand, write, resize, acknowledge_output, close, exited, Turn, transport_ended, command,
  shell_event, flush_due, Task, start, Progress, running, stopped, Progress-cases, fail, ask,
  stop_on_error, stop_after, on_command, flush_or_stop, on_output, on_shell_event, turn, run,
  wind_up, run_session,
}

-- Up to the end, the frontend was told of an error if and only if the task failed, and then once.
abbrev pub IsTold : Task → Type 0
IsTold t = length t.events ≡ (if t.failed then 1 else 0)

abbrev pub Told : Progress → Type 0
Told (running t) = (t.events ≡ []) × (t.failed ≡ false)
Told (stopped t) = IsTold t

module _ {F : Foreign} (display : SshError F → Text) (accepts : ℕ → Bool) where
  -- A task to which nothing was reported yet.
  abbrev IsQuiet : Task → Type 0
  IsQuiet t = (t.events ≡ []) × (t.failed ≡ false)

  fail-Told : (e : SshError F) (t : Task) → IsQuiet t → IsTold (fail display e t)
  unfolding fail
  fail-Told e t (q, _) = rw q refl

  quiet-Told : (t : Task) → IsQuiet t → IsTold t
  quiet-Told t (q, f) = rw (q, f) refl

  stop_on_error-Told :
      (r : Result (SshError F) (Unit {0})) (t : Task) → IsQuiet t → Told (stop_on_error display r t)
  unfolding stop_on_error
  stop_on_error-Told (ok _) t q = q
  stop_on_error-Told (err e) t q = fail-Told e t q

  stop_after-Told :
      (r : Result (SshError F) (Unit {0})) (t : Task) → IsQuiet t → Told (stop_after display r t)
  unfolding stop_after
  stop_after-Told (ok _) t q = quiet-Told t q
  stop_after-Told (err e) t q = fail-Told e t q

  on_command-Told :
      (c : Option SessionCommand) (r : Result (SshError F) (Unit {0})) (t : Task)
      → IsQuiet t
      → Told (on_command display c r t)
  unfolding on_command ask
  on_command-Told (some (write _)) r t q = stop_on_error-Told r _ q
  on_command-Told (some (resize _)) r t q = stop_on_error-Told r _ q
  on_command-Told (some (acknowledge_output _)) r t q = q
  on_command-Told (some (close _)) r t q = stop_after-Told r _ q
  on_command-Told none r t q = stop_after-Told r _ q

  flush_or_stop-Told : (t : Task) → IsQuiet t → Told (flush_or_stop display accepts t)
  unfolding flush_or_stop
  flush_or_stop-Told t q = elim (Bool-cases (flush accepts t.flow t.frontend).1) [
    | inl e ↦ rw (Told, e) q
    | inr e ↦ rw (Told, e) (quiet-Told t q)
  ]

  on_output-Told :
      (now : ℕ) (bytes : List ℕ) (t : Task)
      → IsQuiet t
      → Told (on_output display accepts now bytes t)
  unfolding on_output
  on_output-Told now bytes t q = elim (Bool-cases (should_flush (push now bytes t.flow))) [
    | inl e ↦ rw (Told, e) (flush_or_stop-Told _ q)
    | inr e ↦ rw (Told, e) q
  ]

  on_shell_event-Told :
      (now : ℕ) (e : Result (SshError F) ShellEvent) (t : Task)
      → IsQuiet t
      → Told (on_shell_event display accepts now e t)
  unfolding on_shell_event
  on_shell_event-Told now (ok (output bytes)) t q = on_output-Told now bytes t q
  on_shell_event-Told now (ok (extended_output _ bytes)) t q = on_output-Told now bytes t q
  on_shell_event-Told now (ok (exit_status_event _)) t q = q
  on_shell_event-Told now (ok (exit_signal_event _ _ _)) t q = q
  on_shell_event-Told now (ok eof_event) t q = q
  on_shell_event-Told now (ok closed_event) t q = quiet-Told t q
  on_shell_event-Told now (err e) t q = fail-Told e t q

  turn-Told : (x : Turn F) (t : Task) → IsQuiet t → Told (turn display accepts x t)
  unfolding turn
  turn-Told (transport_ended r) t q = stop_after-Told r t q
  turn-Told (command c r) t q = on_command-Told c r t q
  turn-Told (shell_event now e) t q = elim (Bool-cases (can_read t.flow)) [
    | inl c ↦ rw (Told, c) (on_shell_event-Told now e t q)
    | inr c ↦ rw (Told, c) q
  ]
  turn-Told flush_due t q = elim (Bool-cases (is_some (flush_deadline t.flow))) [
    | inl c ↦ rw (Told, c) (flush_or_stop-Told t q)
    | inr c ↦ rw (Told, c) q
  ]

  run-Told : (xs : List (Turn F)) (t : Task) → IsQuiet t → Told (run display accepts xs t)
  unfolding run
  run-Told [] t q = q
  run-Told (x ∷ xs) t q = elim (Progress-cases (turn display accepts x t)) [
    | inl (t', e) ↦ rw (Told, e) (run-Told xs t' (subst Told e (turn-Told x t q)))
    | inr (t', e) ↦ rw (Told, e) (subst Told e (turn-Told x t q))
  ]

  wind_up-events : (t : Task) → IsTold t → length (wind_up display accepts t).events ≡ 1
  unfolding wind_up
  wind_up-events t h = elim (Bool-cases t.failed) [
    | inl e ↦ rw e (ground (arith, length-append t.events []))
    | inr e ↦ rw e (ground (arith, length-append t.events (exited t.exit_code t.exit_signal ∷ [])))
  ]

remove_session-gone :
    (id owner : Text) (s : ManagerState)
    → authorize_session owner id terminal (remove_session id terminal s) ≢ ok tt
unfolding remove_session kind_eq
remove_session-gone id owner s h =
    let (m, g, _, k, _) =
      (authorize_session_iff owner id terminal (remove_session id terminal s)).0 h in
    ground (arith, lookup-remove id id s.sessions, text_eq_refl id)

-- However a session ends, the frontend is told so by exactly one event, an error or an exit; and
-- then no window is authorized for the terminal session any more, and its channel of commands is
-- gone from the table.
pub run_session_ends_once :
    {F : Foreign} {Sender : Type 0} (display : SshError F → Text) (accepts : ℕ → Bool) (id : Text)
    (turns : List (Turn F)) (senders senders' : Map Sender) (manager manager' : ManagerState)
    (t : Task)
    → run_session display accepts id turns senders manager ≡ some (t, senders', manager')
    → (length t.events ≡ 1)
      × (lookup id senders' ≡ none)
      × ((owner : Text) → authorize_session owner id terminal manager' ≢ ok tt)
unfolding run_session
run_session_ends_once display accepts id turns senders senders' manager manager' t h =
    elim (Progress-cases (run display accepts turns start)) [
      | inl (l, e) ↦ absurd (ground arith)
      | inr (l, e) ↦
          let told : IsTold l = subst Told e (run-Told display accepts turns start (refl, refl)) in
          let ended : t ≡ wind_up display accepts l = ground arith in
          let closed : senders' ≡ remove id senders = ground arith in
          let left : manager' ≡ remove_session id terminal manager = ground arith in
          (
            rw ended (wind_up-events display accepts l told),
            rw closed (ground (arith, lookup-remove id id senders, text_eq_refl id)),
            λ owner. rw left (remove_session-gone id owner manager),
          )
    ]
