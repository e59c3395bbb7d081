-- ===== src/Desktop/Terminal/Run/Window.antt =====
-- The bounds on the output of a session while its loop runs.
use bx_ssh.Common.{
  ℕ, ◌<◌, ◌≡◌, ◌⊎◌, inl, inr, refl, subst, Bool, true, Option, none, some, List, [], ◌∷◌, Result,
  ok, err, length, is_empty, is_some, arith, Bool-cases,
}
use bx_ssh.Common.Text.{Text}
use bx_ssh.Ssh.Foreign.{Foreign}
use bx_ssh.Ssh.Error.{SshError}
use bx_ssh.Ssh.Shell.{
  ShellEvent, output, extended_output, exit_status_event, exit_signal_event, eof_event,
  closed_event,
}
use bx_ssh.Desktop.Terminal.Flow.{TerminalOutputFlow, can_read, flush_deadline, flush}
use bx_ssh.Desktop.Terminal.Flow.Bounds.{
  IsBounded, acknowledge-IsBounded, flush-IsBounded, push-IsBounded,
}
use bx_ssh.Desktop.Terminal.Run.{
  SessionCommand, write, resize, acknowledge_output, close, Turn, transport_ended, command,
  shell_event, flush_due, Task, start, Progress, running, stopped, Progress-cases, stop_on_error,
  stop_after, on_command, flush_or_stop, on_output, on_shell_event, turn, run,
}

-- A loop that still runs keeps the bounds.
abbrev pub Bounded : Progress → Type 0
Bounded (running t) = IsBounded t.flow
Bounded (stopped t) = Unit

module _ {F : Foreign} (display : SshError F → Text) (accepts : ℕ → Bool) where
  flush_or_stop-Bounded :
      (t : Task)
      → ((flush accepts t.flow t.frontend).1 ≡ true
          → IsBounded (flush accepts t.flow t.frontend).0.0)
      → Bounded (flush_or_stop display accepts t)
  unfolding flush_or_stop
  flush_or_stop-Bounded t h = elim (Bool-cases (flush accepts t.flow t.frontend).1) [
    | inl e ↦ rw e (h e)
    | inr e ↦ rw e tt
  ]

  on_output-Bounded :
      (now : ℕ) (bytes : List ℕ) (t : Task)
      → IsBounded t.flow
      → can_read t.flow ≡ true
      → Bounded (on_output display accepts now bytes t)
  unfolding on_output
  on_output-Bounded now bytes t v c =
      elim (push-IsBounded accepts now bytes t.flow t.frontend v c) [
        | inl (e, w) ↦ rw e w
        | inr (e, w) ↦ rw e (flush_or_stop-Bounded _ w)
      ]

  on_command-Bounded :
      (c : Option SessionCommand) (r : Result (SshError F) (Unit {0})) (t : Task)
      → IsBounded t.flow
      → Bounded (on_command display c r t)
  unfolding on_command stop_on_error stop_after
  on_command-Bounded (some (write bytes)) (ok _) t v = v
  on_command-Bounded (some (write bytes)) (err e) t v = tt
  on_command-Bounded (some (resize size)) (ok _) t v = v
  on_command-Bounded (some (resize size)) (err e) t v = tt
  on_command-Bounded (some (acknowledge_output n)) r t v = acknowledge-IsBounded n t.flow v
  on_command-Bounded (some (close _)) (ok _) t v = tt
  on_command-Bounded (some (close _)) (err e) t v = tt
  on_command-Bounded none (ok _) t v = tt
  on_command-Bounded none (err e) t v = tt

  on_shell_event-Bounded :
      (now : ℕ) (e : Result (SshError F) ShellEvent) (t : Task)
      → IsBounded t.flow
      → can_read t.flow ≡ true
      → Bounded (on_shell_event display accepts now e t)
  unfolding on_shell_event
  on_shell_event-Bounded now (ok (output bytes)) t v c = on_output-Bounded now bytes t v c
  on_shell_event-Bounded now (ok (extended_output _ bytes)) t v c =
      on_output-Bounded now bytes t v c
  on_shell_event-Bounded now (ok (exit_status_event _)) t v c = v
  on_shell_event-Bounded now (ok (exit_signal_event _ _ _)) t v c = v
  on_shell_event-Bounded now (ok eof_event) t v c = v
  on_shell_event-Bounded now (ok closed_event) t v c = tt
  on_shell_event-Bounded now (err e) t v c = tt

  flush-room :
      (f : TerminalOutputFlow)
      → IsBounded f
      → (length f.in_flight < 8) ⊎ (is_empty f.pending ≡ true)
  flush-room f v = elim (Bool-cases (is_empty f.pending)) [ inl e ↦ inr e | inr e ↦ inl (v.room e) ]

  turn-Bounded : (x : Turn F) (t : Task) → IsBounded t.flow → Bounded (turn display accepts x t)
  unfolding turn stop_after
  turn-Bounded (transport_ended (ok _)) t v = tt
  turn-Bounded (transport_ended (err e)) t v = tt
  turn-Bounded (command c r) t v = on_command-Bounded c r t v
  turn-Bounded (shell_event now e) t v = elim (Bool-cases (can_read t.flow)) [
    | inl c ↦ rw c (on_shell_event-Bounded now e t v c)
    | inr c ↦ rw c v
  ]
  turn-Bounded flush_due t v = elim (Bool-cases (is_some (flush_deadline t.flow))) [
    | inl c ↦ rw c (
        flush_or_stop-Bounded t
          (flush-IsBounded accepts t.flow t.frontend (flush-room t.flow v) v.window v.timed))
    | inr c ↦ rw c v
  ]

  run-Bounded :
      (xs : List (Turn F)) (t : Task) → IsBounded t.flow → Bounded (run display accepts xs t)
  unfolding run
  run-Bounded [] t v = v
  run-Bounded (x ∷ xs) t v = elim (Progress-cases (turn display accepts x t)) [
    | inl (t', e) ↦ rw (Bounded, e) (run-Bounded xs t' (subst Bounded e (turn-Bounded x t v)))
    | inr (t', e) ↦ rw (Bounded, e) tt
  ]

-- However the turns come, and whether or not sends succeed: while the loop runs, at most 8 batches are
-- in flight, fewer than 8 if bytes wait, less than 64 KiB wait, and the timer runs exactly if bytes wait.
pub run-IsBounded :
    {F : Foreign} (display : SshError F → Text) (accepts : ℕ → Bool) (turns : List (Turn F))
    (t : Task)
    → run display accepts turns start ≡ running t
    → IsBounded t.flow
run-IsBounded display accepts turns t h = subst Bounded h (
    run-Bounded display accepts turns start (record {
      window = omega arith;
      room = λ k. absurd (cc k);
      partial = omega arith;
      timed = refl;
    }))
