-- ===== src/Desktop/Terminal/Run.antt =====
-- `run_session` of apps/desktop/src-tauri/src/terminal.rs: the task of a terminal session. A turn of
-- its loop is what `select!` picks, with the result of the call that the branch makes; a branch whose
-- guard is false is not picked, and such a turn leaves the loop as it was. The channels to the
-- frontend are Tauri's: `accepts` says which sends of output succeed.
pub mod Window
pub mod Output
pub mod Ending
use bx_ssh.Common.{
  ℕ, ◌≡◌, ◌⊎◌, inl, inr, refl, Bool, true, false, not, Option, none, some, List, [], ◌∷◌, ◌++◌,
  Result, ok, err, is_some, if◌then◌else◌,
}
use bx_ssh.Common.Text.{Text}
use bx_ssh.Common.Maps.{Map, remove}
use bx_ssh.Ssh.Foreign.{Foreign}
use bx_ssh.Ssh.Error.{SshError}
use bx_ssh.Ssh.Shell.{
  TerminalSize, ShellEvent, output, extended_output, exit_status_event, exit_signal_event,
  eof_event, closed_event,
}
use bx_ssh.Desktop.CommandError.{CommandError, CommandErrorCode, from_ssh_error}
use bx_ssh.Desktop.Session.{ManagerState, remove_session, terminal}
use bx_ssh.Desktop.Terminal.Flow
use bx_ssh.Desktop.Terminal.Flow.{
  TerminalOutputFlow, Frontend, can_read, push, should_flush, flush_deadline, flush, acknowledge,
}

-- `Close` says whether somebody waits for the completion.
pub data SessionCommand : Type 0 where
  write : List ℕ → SessionCommand
  resize : TerminalSize → SessionCommand
  acknowledge_output : ℕ → SessionCommand
  close : Bool → SessionCommand

pub data TerminalEvent : Type 0 where
  exited : Option ℕ → Option Text → TerminalEvent
  error_event : CommandErrorCode → Text → TerminalEvent

pub data Turn (F : Foreign) : Type 0 where
  transport_ended : Result (SshError F) (Unit {0}) → Turn F
  -- `None` when every sender of commands is gone; the result is that of the call of the shell.
  command : Option SessionCommand → Result (SshError F) (Unit {0}) → Turn F
  -- The event of the shell, and the time.
  shell_event : ℕ → Result (SshError F) ShellEvent → Turn F
  flush_due : Turn F

-- The local variables of the task, with what it sent to the shell and to the frontend.
pub record Task : Type 0 where
  pub flow : TerminalOutputFlow
  pub frontend : Frontend
  pub requests : List SessionCommand
  pub events : List TerminalEvent
  pub exit_code : Option ℕ
  pub exit_signal : Option Text
  pub close_completion : Bool
  pub failed : Bool

abbrev pub start : Task
start = record {
  flow = Flow.new;
  frontend = record { tried = 0; delivered = [] };
  requests = [];
  events = [];
  exit_code = none;
  exit_signal = none;
  close_completion = false;
  failed = false;
}

pub data Progress : Type 0 where
  running stopped : Task → Progress

pub Progress-cases :
    (p : Progress) → ((t : Task) × (p ≡ running t)) ⊎ ((t : Task) × (p ≡ stopped t))
Progress-cases (running t) = inl (t, refl)
Progress-cases (stopped t) = inr (t, refl)

module _ {F : Foreign} (display : SshError F → Text) where
  -- `send_error`, and the `failed = true` that follows each call of it.
  unfoldable pub fail : SshError F → Task → Task
  fail e t =
      let error = from_ssh_error display e in
      record t { events = t.events ++ (error_event error.code error.message ∷ []); failed = true }

  -- A call of the shell, and what its result does: an error ends the loop, or is only reported where
  -- the loop ends in any case.
  unfoldable pub ask : SessionCommand → Task → Task
  ask c t = record t { requests = t.requests ++ (c ∷ []) }

  unfoldable pub stop_on_error : Result (SshError F) (Unit {0}) → Task → Progress
  unfolding fail
  stop_on_error (ok _) t = running t
  stop_on_error (err e) t = stopped (fail e t)

  unfoldable pub stop_after : Result (SshError F) (Unit {0}) → Task → Progress
  unfolding fail
  stop_after (ok _) t = stopped t
  stop_after (err e) t = stopped (fail e t)

  -- The branches on a command.
  unfoldable pub on_command :
      Option SessionCommand → Result (SshError F) (Unit {0}) → Task → Progress
  unfolding ask stop_on_error stop_after
  on_command (some (write bytes)) r t = stop_on_error r (ask (write bytes) t)
  on_command (some (resize size)) r t = stop_on_error r (ask (resize size) t)
  on_command (some (acknowledge_output n)) r t = running (record t { flow = acknowledge n t.flow })
  on_command (some (close completion)) r t =
      stop_after r (ask (close completion) (record t { close_completion = completion }))
  on_command none r t = stop_after r (ask (close false) t)

  -- `flush(..)`, whose error ends the loop.
  unfoldable pub flush_or_stop : (ℕ → Bool) → Task → Progress
  flush_or_stop accepts t =
      let ((flow, front), sent) = flush accepts t.flow t.frontend in
      if sent
      then running (record t { flow = flow; frontend = front })
      else stopped (record t { flow = flow; frontend = front })

  unfoldable pub on_output : (ℕ → Bool) → ℕ → List ℕ → Task → Progress
  unfolding flush_or_stop
  on_output accepts now bytes t =
      let pushed = record t { flow = push now bytes t.flow } in
      if should_flush pushed.flow then flush_or_stop accepts pushed else running pushed

  unfoldable pub on_shell_event : (ℕ → Bool) → ℕ → Result (SshError F) ShellEvent → Task → Progress
  unfolding on_output fail
  on_shell_event accepts now (ok (output bytes)) t = on_output accepts now bytes t
  on_shell_event accepts now (ok (extended_output _ bytes)) t = on_output accepts now bytes t
  on_shell_event accepts now (ok (exit_status_event code)) t =
      running (record t { exit_code = some code })
  on_shell_event accepts now (ok (exit_signal_event signal _ _)) t =
      running (record t { exit_signal = some signal })
  on_shell_event accepts now (ok eof_event) t = running t
  on_shell_event accepts now (ok closed_event) t = stopped t
  on_shell_event accepts now (err e) t = stopped (fail e t)

  unfoldable pub turn : (ℕ → Bool) → Turn F → Task → Progress
  unfolding stop_after on_command on_shell_event flush_or_stop
  turn accepts (transport_ended r) t = stop_after r t
  turn accepts (command c r) t = on_command c r t
  turn accepts (shell_event now e) t =
      if can_read t.flow then on_shell_event accepts now e t else running t
  turn accepts flush_due t =
      if is_some (flush_deadline t.flow) then flush_or_stop accepts t else running t

  -- The loop, for as many turns as are given.
  unfoldable pub run : (ℕ → Bool) → List (Turn F) → Task → Progress
  unfolding turn
  run accepts [] t = running t
  run accepts (x ∷ xs) t = elim (turn accepts x t) [
    | running t' ↦ run accepts xs t'
    | stopped t' ↦ stopped t'
  ]

  -- What follows the loop, before the session is removed.
  unfoldable pub wind_up : (ℕ → Bool) → Task → Task
  wind_up accepts t =
      let ((flow, front), _) = flush accepts t.flow t.frontend in
      record t {
        flow = flow;
        frontend = front;
        events = t.events ++ (if not t.failed then exited t.exit_code t.exit_signal ∷ [] else []);
      }

  -- `run_session`: the task when it has ended, and the two tables without the session. `none` while
  -- the loop still runs.
  unfoldable pub run_session :
      {Sender : Type 0}
      → (ℕ → Bool)
      → Text
      → List (Turn F)
      → Map Sender
      → ManagerState
      → Option (Task × Map Sender × ManagerState)
  unfolding run wind_up
  run_session accepts session_id turns senders manager = elim (run accepts turns start) [
    | running t ↦ none
    | stopped t ↦
        some
          (wind_up accepts t, remove session_id senders, remove_session session_id terminal manager)
  ]
