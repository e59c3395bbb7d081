-- ===== src/Desktop/Terminal/Run/Output.antt =====
-- What reaches the frontend: the bytes of the shell, in order.
use mathlib.Core.List.{flatten, append_assoc, append-nil}
use bx_ssh.Common.{
  ℕ, ◌≡◌, inl, inr, refl, sym, ap, subst, ◌∙◌, Bool, true, Option, none, some, List, [], ◌∷◌, ◌++◌,
  Result, ok, err, is_empty, is_some, if◌then◌else◌, arith, Bool-cases,
}
use bx_ssh.Common.Text.{Text}
use bx_ssh.Common.Maps.{Map}
use bx_ssh.Ssh.Foreign.{Foreign}
use bx_ssh.Ssh.Error.{SshError}
use bx_ssh.Ssh.Shell.{
  ShellEvent, output, extended_output, exit_status_event, exit_signal_event, eof_event,
  closed_event,
}
use bx_ssh.Desktop.Session.{ManagerState}
use bx_ssh.Desktop.Terminal.Flow.{
  TerminalOutputFlow, Frontend, can_read, push, should_flush, flush_deadline, flush, acknowledge,
}
use bx_ssh.Desktop.Terminal.Run.{
  SessionCommand, write, resize, acknowledge_output, close, Turn, transport_ended, command,
  shell_event, flush_due, Task, start, Progress, running, stopped, Progress-cases, fail, ask,
  stop_on_error, stop_after, on_command, flush_or_stop, on_output, on_shell_event, turn, run,
  wind_up, run_session,
}

abbrev pub task_of : Progress → Task
task_of (running t) = t
task_of (stopped t) = t

-- What arrived, and what arrived with what waits.
abbrev pub arrived : Frontend → List ℕ
arrived front = flatten front.delivered

abbrev pub seen : Task → List ℕ
seen t = arrived t.frontend ++ t.flow.pending

-- The bytes that the shell puts out in a turn.
abbrev pub bytes_of : {F : Foreign} → Turn F → List ℕ
bytes_of (shell_event _ (ok (output bytes))) = bytes
bytes_of (shell_event _ (ok (extended_output _ bytes))) = bytes
bytes_of _ = []

flatten-snoc : (xs : List (List ℕ)) (y : List ℕ) → flatten (xs ++ (y ∷ [])) ≡ flatten xs ++ y
unfolding flatten
flatten-snoc [] y = append-nil y
flatten-snoc (x ∷ xs) y =
    ap (λ (z : List ℕ). x ++ z) (flatten-snoc xs y) ∙ sym (append_assoc x (flatten xs) y)

acknowledge-pending : (n : ℕ) (f : TerminalOutputFlow) → (acknowledge n f).pending ≡ f.pending
unfolding acknowledge
acknowledge-pending n f = ground arith

push-pending :
    (now : ℕ) (bytes : List ℕ) (f : TerminalOutputFlow)
    → (push now bytes f).pending ≡ f.pending ++ bytes
unfolding push
push-pending now [] f = sym (append-nil f.pending)
push-pending now (b ∷ bytes) f = refl

module _ {F : Foreign} (display : SshError F → Text) (accepts : ℕ → Bool) where
  -- The bytes that the loop takes from the shell: those of the turns that find room in the window.
  unfoldable pub taken : List (Turn F) → Task → List ℕ
  taken [] t = []
  taken (x ∷ xs) t =
      (if can_read t.flow then bytes_of x else [])
      ++ (elim (turn display accepts x t) [ running t' ↦ taken xs t' | stopped t' ↦ [] ])

  module _ (open_channel : (n : ℕ) → accepts n ≡ true) where
    -- A flush moves what waits to the frontend, and empties `pending`.
    flush-seen :
        (f : TerminalOutputFlow) (front : Frontend)
        → let r = flush accepts f front in
          (arrived r.0.1 ≡ arrived front ++ f.pending) × (r.0.0.pending ≡ [])
    unfolding flush
    flush-seen f front = elim (Bool-cases (is_empty f.pending)) [
      | inl e ↦
          let none_waits : f.pending ≡ [] = ground arith in
          rw (e, none_waits) (sym (append-nil (arrived front)), refl)
      | inr e ↦
          let open_now : accepts front.tried ≡ true = open_channel front.tried in
          rw (e, open_now) (flatten-snoc front.delivered f.pending, refl)
    ]

    flush_or_stop-seen : (t : Task) → seen (task_of (flush_or_stop display accepts t)) ≡ seen t
    unfolding flush_or_stop
    flush_or_stop-seen t =
        let (moved, emptied) = flush-seen t.flow t.frontend in
        elim (Bool-cases (flush accepts t.flow t.frontend).1) [
          | inl e ↦ rw (e, moved, emptied) (append-nil _)
          | inr e ↦ rw (e, moved, emptied) (append-nil _)
        ]

    on_output-seen :
        (now : ℕ) (bytes : List ℕ) (t : Task)
        → seen (task_of (on_output display accepts now bytes t)) ≡ seen t ++ bytes
    unfolding on_output
    on_output-seen now bytes t =
        let pushed : seen (record t { flow = push now bytes t.flow }) ≡ seen t ++ bytes =
          ap (λ (z : List ℕ). arrived t.frontend ++ z) (push-pending now bytes t.flow)
          ∙ sym (append_assoc (arrived t.frontend) t.flow.pending bytes) in
        elim (Bool-cases (should_flush (push now bytes t.flow))) [
          | inl e ↦ rw e (flush_or_stop-seen _ ∙ pushed)
          | inr e ↦ rw e pushed
        ]

    on_command-seen :
        (c : Option SessionCommand) (r : Result (SshError F) (Unit {0})) (t : Task)
        → seen (task_of (on_command display c r t)) ≡ seen t
    unfolding on_command stop_on_error stop_after ask fail
    on_command-seen (some (write bytes)) (ok _) t = refl
    on_command-seen (some (write bytes)) (err e) t = refl
    on_command-seen (some (resize size)) (ok _) t = refl
    on_command-seen (some (resize size)) (err e) t = refl
    on_command-seen (some (acknowledge_output n)) r t =
        ap (λ (z : List ℕ). arrived t.frontend ++ z) (acknowledge-pending n t.flow)
    on_command-seen (some (close _)) (ok _) t = refl
    on_command-seen (some (close _)) (err e) t = refl
    on_command-seen none (ok _) t = refl
    on_command-seen none (err e) t = refl

    on_shell_event-seen :
        (now : ℕ) (e : Result (SshError F) ShellEvent) (t : Task)
        → seen (task_of (on_shell_event display accepts now e t))
          ≡ seen t ++ bytes_of {F = F} (shell_event now e)
    unfolding on_shell_event fail
    on_shell_event-seen now (ok (output bytes)) t = on_output-seen now bytes t
    on_shell_event-seen now (ok (extended_output _ bytes)) t = on_output-seen now bytes t
    on_shell_event-seen now (ok (exit_status_event _)) t = sym (append-nil _)
    on_shell_event-seen now (ok (exit_signal_event _ _ _)) t = sym (append-nil _)
    on_shell_event-seen now (ok eof_event) t = sym (append-nil _)
    on_shell_event-seen now (ok closed_event) t = sym (append-nil _)
    on_shell_event-seen now (err e) t = sym (append-nil _)

    unread : (t : Task) → seen t ≡ seen t ++ (if can_read t.flow then [] else [])
    unread t = elim (Bool-cases (can_read t.flow)) [
      | inl c ↦ rw c (sym (append-nil (seen t)))
      | inr c ↦ rw c (sym (append-nil (seen t)))
    ]

    turn-seen :
        (x : Turn F) (t : Task)
        → seen (task_of (turn display accepts x t))
          ≡ seen t ++ (if can_read t.flow then bytes_of x else [])
    unfolding turn stop_after fail
    turn-seen (transport_ended (ok _)) t = unread t
    turn-seen (transport_ended (err e)) t = unread t
    turn-seen (command c r) t = on_command-seen c r t ∙ unread t
    turn-seen (shell_event now e) t = elim (Bool-cases (can_read t.flow)) [
      | inl c ↦ rw c (on_shell_event-seen now e t)
      | inr c ↦ rw c (sym (append-nil (seen t)))
    ]
    turn-seen flush_due t = elim (Bool-cases (is_some (flush_deadline t.flow))) [
      | inl c ↦ rw c (flush_or_stop-seen t ∙ unread t)
      | inr c ↦ rw c (unread t)
    ]

    run-seen :
        (xs : List (Turn F)) (t : Task)
        → seen (task_of (run display accepts xs t)) ≡ seen t ++ taken xs t
    unfolding run taken
    run-seen [] t = sym (append-nil (seen t))
    run-seen (x ∷ xs) t = elim (Progress-cases (turn display accepts x t)) [
      | inl (t', e) ↦
          let step : seen t' ≡ seen t ++ (if can_read t.flow then bytes_of x else []) =
            subst (λ p. seen (task_of p) ≡ seen t ++ (if can_read t.flow then bytes_of x else [])) e
              (turn-seen x t) in
          rw (seen, task_of, run, e)
            (run-seen xs t'
              ∙ ap (λ (z : List ℕ). z ++ taken xs t') step
              ∙ append_assoc (seen t) _ (taken xs t'))
      | inr (t', e) ↦
          let step : seen t' ≡ seen t ++ (if can_read t.flow then bytes_of x else []) =
            subst (λ p. seen (task_of p) ≡ seen t ++ (if can_read t.flow then bytes_of x else [])) e
              (turn-seen x t) in
          rw (seen, task_of, run, e) (step ∙ ap (λ (z : List ℕ). seen t ++ z) (sym (append-nil _)))
    ]

-- If every send to the frontend succeeds, then by the end of the session the frontend has received
-- exactly the bytes that the loop took from the shell, in order.
pub run_session_delivers :
    {F : Foreign} {Sender : Type 0} (display : SshError F → Text) (accepts : ℕ → Bool) (id : Text)
    (turns : List (Turn F)) (senders senders' : Map Sender) (manager manager' : ManagerState)
    (t : Task)
    → ((n : ℕ) → accepts n ≡ true)
    → run_session display accepts id turns senders manager ≡ some (t, senders', manager')
    → arrived t.frontend ≡ taken display accepts turns start
unfolding run_session wind_up taken flatten
run_session_delivers display accepts id turns senders senders' manager manager' t opened h =
    elim (Progress-cases (run display accepts turns start)) [
      | inl (l, e) ↦ absurd (ground arith)
      | inr (l, e) ↦
          let same : t.frontend ≡ (flush accepts l.flow l.frontend).0.1 = ground arith in
          rw same (
            (flush-seen display accepts opened l.flow l.frontend).0
            ∙ subst (λ p. seen (task_of p) ≡ taken display accepts turns start) e
                (run-seen display accepts opened turns start))
    ]
