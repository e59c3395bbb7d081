-- ===== src/Tests/Terminal.antt =====
-- Tests of a terminal session.
use bx_ssh.Common.{
  ℕ, suc, ◌≡◌, ◌≢◌, ◌<◌, ◌≤◌, refl, none, some, List, [], ◌∷◌, ok, err, true, false, length,
  if◌then◌else◌, ltb, arith, Bool, Option,
}
use bx_ssh.Common.Text.{Text, codes}
use bx_ssh.Common.Maps.{Map, lookup}
use bx_ssh.Ssh.Error.{SshError}
use bx_ssh.Ssh.Shell.{output, exit_status_event, closed_event}
use bx_ssh.Desktop.Session.{ManagerState, initial, terminal, authorize_session}
use bx_ssh.Desktop.Terminal.Flow.{TerminalOutputFlow, acknowledge}
use bx_ssh.Desktop.Terminal.Flow.Bounds.{IsBounded}
use bx_ssh.Desktop.Terminal.Run
use bx_ssh.Desktop.Terminal.Run.{
  Turn, shell_event, flush_due, command, acknowledge_output, Task, start, running, run, run_session,
}
use bx_ssh.Desktop.Terminal.Run.Window.{run-IsBounded}
use bx_ssh.Desktop.Terminal.Run.Output.{arrived, taken, run_session_delivers}
use bx_ssh.Desktop.Terminal.Run.Ending.{run_session_ends_once}
use bx_ssh.Tests.Fixtures.{foreign}

abbrev show : SshError foreign → Text
show _ = codes "error"

abbrev always : ℕ → Bool
always _ = true

abbrev reading : List (Turn foreign)
reading =
    shell_event 0 (ok (output (104 ∷ 105 ∷ [])))
    ∷ flush_due
    ∷ shell_event 9 (ok (output (33 ∷ [])))
    ∷ command (some (acknowledge_output 1)) (ok tt)
    ∷ []

abbrev still_running : Task
still_running = record start {
  flow = record { pending = 33 ∷ []; pending_since = some 9; in_flight = []; next_sequence = 2 };
  frontend = record { tried = 1; delivered = (104 ∷ 105 ∷ []) ∷ [] };
}

reads : run show always reading start ≡ running still_running
unfolding run bx_ssh.Desktop.Terminal.Flow.can_read bx_ssh.Desktop.Terminal.Flow.should_flush
    bx_ssh.Desktop.Terminal.Flow.push bx_ssh.Desktop.Terminal.Flow.flush_deadline
    bx_ssh.Desktop.Terminal.Flow.flush acknowledge
reads = refl

run-IsBounded_example : IsBounded still_running.flow
run-IsBounded_example = run-IsBounded show always reading still_running reads

abbrev whole : List (Turn foreign)
whole =
    shell_event 0 (ok (output (104 ∷ 105 ∷ [])))
    ∷ shell_event 1 (ok (exit_status_event 0))
    ∷ shell_event 2 (ok closed_event)
    ∷ []

abbrev ended : Task
ended = record start {
  flow = record { pending = []; pending_since = none; in_flight = 1 ∷ []; next_sequence = 2 };
  frontend = record { tried = 1; delivered = (104 ∷ 105 ∷ []) ∷ [] };
  events = Run.exited (some 0) none ∷ [];
  exit_code = some 0;
}

abbrev senders : Map ℕ
senders = (codes "s", 7) ∷ []

abbrev no_senders : Map ℕ
no_senders = []

ends : run_session show always (codes "s") whole senders initial ≡ some (ended, [], initial)
unfolding run_session bx_ssh.Desktop.Terminal.Flow.can_read
    bx_ssh.Desktop.Terminal.Flow.should_flush bx_ssh.Desktop.Terminal.Flow.push
    bx_ssh.Desktop.Terminal.Flow.flush bx_ssh.Common.Maps.remove
    bx_ssh.Desktop.Session.remove_session bx_ssh.Common.Text.text_eq lookup
ends = refl

run_session_delivers_example : arrived ended.frontend ≡ taken show always whole start
run_session_delivers_example =
    run_session_delivers show always (codes "s") whole senders [] initial initial ended (λ n. refl)
      ends

run_session_ends_once_example :
    (length ended.events ≡ 1)
    × (lookup (codes "s") no_senders ≡ none)
    × ((owner : Text) → authorize_session owner (codes "s") terminal initial ≢ ok tt)
run_session_ends_once_example =
    run_session_ends_once show always (codes "s") whole senders [] initial initial ended ends

abbrev three_sent : TerminalOutputFlow
three_sent = record {
  pending = [];
  pending_since = none;
  in_flight = 1 ∷ 2 ∷ 3 ∷ [];
  next_sequence = 4;
}
