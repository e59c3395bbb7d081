-- ===== src/Desktop/Session/Calls.antt =====
-- The calls of the session manager, and the state that they leave.
use bx_ssh.Common.{ℕ, ◌≡◌, Bool, Option, none, some, List, [], ◌∷◌, Result}
use bx_ssh.Common.Text.{Text}
use bx_ssh.Ssh.Stage.{SshConnectionStage}
use bx_ssh.Desktop.Session.{
  SessionKind, SshConnectionEvent, ManagerState, begin_attempt, transition_attempt,
  complete_attempt, finish_attempt, cancel_attempt, close_session, remove_session, clear,
}
use bx_ssh.Desktop.CommandError.{CommandError}

-- The calls that change the manager.
pub data Call : Type 0 where
  begin : Text → Text → SessionKind → Call
  advance : Text → Text → SshConnectionStage → Call
  complete : Text → Text → (ℕ → Text) → Call
  finish : Text → Text → SshConnectionStage → Call
  cancel : Text → Text → Call
  close : Text → Text → SessionKind → Result CommandError (Unit {0}) → Call
  drop_session : Text → SessionKind → Call
  clear_all : Call

-- The state after a call. Where no id could be drawn the call does not return.
abbrev pub after_complete :
    ManagerState
    → Option (ManagerState × Result CommandError (Text × SshConnectionEvent))
    → ManagerState
after_complete s none = s
after_complete s (some r) = r.0

unfoldable pub perform : (Text → Bool) → ManagerState → Call → ManagerState
perform uuid s (begin owner id kind) = (begin_attempt uuid owner id kind s).0
perform uuid s (advance owner id stage) = (transition_attempt owner id stage s).0
perform uuid s (complete owner id draws) = after_complete s (complete_attempt owner id draws s)
perform uuid s (finish owner id stage) = (finish_attempt owner id stage s).0
perform uuid s (cancel owner id) = (cancel_attempt owner id s).0
perform uuid s (close owner id kind closed) = (close_session owner id kind closed s).0
perform uuid s (drop_session id kind) = remove_session id kind s
perform uuid s clear_all = clear s

unfoldable pub perform_all : (Text → Bool) → ManagerState → List Call → ManagerState
perform_all uuid s [] = s
perform_all uuid s (c ∷ cs) = perform_all uuid (perform uuid s c) cs

-- The window that makes a call; the application itself makes the last two,
-- when the task of a terminal ends and when the application does.
abbrev pub IsBy : Text → Call → Type 0
IsBy w (begin owner _ _) = owner ≡ w
IsBy w (advance owner _ _) = owner ≡ w
IsBy w (complete owner _ _) = owner ≡ w
IsBy w (finish owner _ _) = owner ≡ w
IsBy w (cancel owner _) = owner ≡ w
IsBy w (close owner _ _ _) = owner ≡ w
IsBy w (drop_session _ _) = ⊥
IsBy w clear_all = ⊥
