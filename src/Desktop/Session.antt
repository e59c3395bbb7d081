-- ===== src/Desktop/Session.antt =====
-- apps/desktop/src-tauri/src/session_manager.rs: connection attempts and sessions, each owned by a
-- window. A `ConnectionCancellation` is shared between the manager and the task that connects, so it
-- is a handle into a table of flags, which belongs to the state: `cancel` writes there, and every
-- holder of the handle sees it. Uuid is a library: `is_random_uuid` says whether a text parses as a
-- random UUID, and `draws` are the ids that `Uuid::new_v4` returns, in order.
pub mod Ids
pub mod Cases
pub mod Calls
pub mod Invariant
pub mod Ownership
pub mod Authorization
pub mod Cancellation
use bx_ssh.Common.{
  ℕ, zero, suc, ◌+◌, Bool, true, false, not, ◌&&◌, ◌||◌, Option, none, some, List, [], ◌∷◌, Result,
  ok, err, is_some_and, is_err, length, if◌then◌else◌, ◌==◌,
}
use bx_ssh.Common.Text.{Text, codes, text_eq}
use bx_ssh.Common.Maps.{Map, lookup, contains_key, insert, remove}
use bx_ssh.Ssh.Stage
use bx_ssh.Ssh.Stage.{
  SshConnectionStage, connected, SshConnectionStateMachine, SshStateTransitionError, transition,
  transition_message,
}
use bx_ssh.Desktop.CommandError.{
  CommandError, with_stage, session_not_found_error, connection_attempt_conflict,
  session_state_invalid, invalid_connection_attempt, new,
}

pub data SessionKind : Type 0 where
  terminal sftp : SessionKind

unfoldable pub kind_eq : SessionKind → SessionKind → Bool
kind_eq terminal terminal = true
kind_eq sftp sftp = true
kind_eq _ _ = false

pub record SshConnectionEvent : Type 0 where
  pub attempt_id : Text
  pub stage : SshConnectionStage

pub record ConnectionAttempt : Type 0 where
  pub owner : Text
  pub kind : SessionKind
  pub state : SshConnectionStateMachine
  pub cancellation : ℕ

pub record ManagedSession : Type 0 where
  pub owner : Text
  pub kind : SessionKind
  pub state : SshConnectionStateMachine

-- Handle n of a cancellation stands for the flag `flags n`; `next_flag` is the first unused handle.
pub record ManagerState : Type 0 where
  pub attempts : Map ConnectionAttempt
  pub sessions : Map ManagedSession
  pub flags : ℕ → Bool
  pub next_flag : ℕ

abbrev pub initial : ManagerState
initial = record { attempts = []; sessions = []; flags = λ n. false; next_flag = 0 }

-- `ConnectionCancellation::cancel` through handle n.
unfoldable pub cancel_flag : ℕ → (ℕ → Bool) → ℕ → Bool
cancel_flag n flags k = n == k || flags k

-- `validate_attempt_id`.
unfoldable pub validate_attempt_id : (Text → Bool) → Text → Result CommandError (Unit {0})
validate_attempt_id is_random_uuid attempt_id =
    if is_random_uuid attempt_id
    then ok tt
    else err
        (new invalid_connection_attempt (codes "SSH connection attempt ID must be a random UUID"))

unfoldable pub begin_attempt :
    (Text → Bool) → Text → Text → SessionKind → ManagerState → ManagerState × Result CommandError ℕ
unfolding validate_attempt_id
begin_attempt is_random_uuid owner attempt_id kind s =
    elim (validate_attempt_id is_random_uuid attempt_id) [
      | err e ↦ (s, err e)
      | ok _ ↦
          if contains_key attempt_id s.attempts
          then (
            s,
            err (
                new connection_attempt_conflict (codes "SSH connection attempt is already active")),
          )
          else (
            record s {
              attempts =
                  insert attempt_id
                    (record {
                      owner = owner;
                      kind = kind;
                      state = Stage.new;
                      cancellation = s.next_flag;
                    })
                    s.attempts;
              next_flag = s.next_flag + 1;
            },
            ok s.next_flag,
          )
    ]

-- The text of the error for a missing attempt.
pub no_attempt : CommandError
no_attempt = session_not_found_error (codes "SSH connection attempt")

-- The error for a transition that is refused on the way to a stage.
pub refused : SshStateTransitionError → SshConnectionStage → CommandError
refused error stage = with_stage (new session_state_invalid (transition_message error)) (some stage)

-- `.filter(|attempt| attempt.owner == owner)`.
unfoldable pub owned_by : Text → Option ConnectionAttempt → Option ConnectionAttempt
owned_by owner none = none
owned_by owner (some a) = if text_eq a.owner owner then some a else none

unfoldable pub transition_attempt :
    Text
    → Text
    → SshConnectionStage
    → ManagerState
    → ManagerState × Result CommandError SshConnectionEvent
transition_attempt owner attempt_id stage s = elim (owned_by owner (lookup attempt_id s.attempts)) [
  | none ↦ (s, err no_attempt)
  | some attempt ↦
      let (state, result) = transition attempt.state stage in
      elim result [
        | err error ↦ (s, err (refused error stage))
        | ok _ ↦ (
          record s { attempts = insert attempt_id (record attempt { state = state }) s.attempts },
          ok (record { attempt_id = attempt_id; stage = stage }),
        )
      ]
]

-- `next_session_id`: the first id drawn that no session has; `none` means that the fuel ran out.
unfoldable pub next_session_id : ℕ → (ℕ → Text) → ℕ → Map ManagedSession → Option Text
next_session_id zero draws i sessions = none
next_session_id (suc fuel) draws i sessions =
    let rest = next_session_id fuel draws (suc i) sessions in
    if not (contains_key (draws i) sessions) then some (draws i) else rest

-- The end of `complete_attempt`, once the attempt stands at `connected` and an id was found.
open_session :
    Text
    → ConnectionAttempt
    → SshConnectionStateMachine
    → Map ConnectionAttempt
    → ManagerState
    → Text
    → ManagerState × Result CommandError (Text × SshConnectionEvent)
open_session attempt_id attempt state attempts s session_id = (
  record s {
    attempts = attempts;
    sessions =
        insert session_id (record { owner = attempt.owner; kind = attempt.kind; state = state })
          s.sessions;
  },
  ok (session_id, record { attempt_id = attempt_id; stage = connected }),
)

-- `none` means that the loop that draws an id did not end.
unfoldable pub complete_attempt :
    Text
    → Text
    → (ℕ → Text)
    → ManagerState
    → Option (ManagerState × Result CommandError (Text × SshConnectionEvent))
unfolding open_session
complete_attempt owner attempt_id draws s = elim (owned_by owner (lookup attempt_id s.attempts)) [
  | none ↦ some (s, err no_attempt)
  | some attempt ↦
      let attempts = remove attempt_id s.attempts in
      let (state, result) = transition attempt.state connected in
      elim result [
        | err error ↦ some (
          record s { attempts = insert attempt_id (record attempt { state = state }) attempts },
          err (refused error connected),
        )
        | ok _ ↦ elim (next_session_id (suc (length s.sessions)) draws 0 s.sessions) [
          | none ↦ none
          | some session_id ↦ some (open_session attempt_id attempt state attempts s session_id)
        ]
      ]
]

-- An attempt whose last transition is refused is removed all the same.
unfoldable pub finish_attempt :
    Text → Text → SshConnectionStage → ManagerState → ManagerState × Option SshConnectionEvent
finish_attempt owner attempt_id stage s = elim (lookup attempt_id s.attempts) [
  | none ↦ (s, none)
  | some attempt ↦
      let attempts = remove attempt_id s.attempts in
      if not (text_eq attempt.owner owner)
      then (record s { attempts = insert attempt_id attempt attempts }, none)
      else if is_err (transition attempt.state stage).1
      then (record s { attempts = attempts }, none)
      else (
        record s { attempts = attempts },
        some (record { attempt_id = attempt_id; stage = stage }),
      )
]

unfoldable pub cancel_attempt : Text → Text → ManagerState → ManagerState × Bool
cancel_attempt owner attempt_id s = elim (owned_by owner (lookup attempt_id s.attempts)) [
  | none ↦ (s, false)
  | some attempt ↦ (record s { flags = cancel_flag attempt.cancellation s.flags }, true)
]

kind_name : SessionKind → Text
kind_name terminal = codes "terminal"
kind_name sftp = codes "SFTP"

-- `session.state.current() == SshConnectionStage::Connected`.
unfoldable pub is_connected : SshConnectionStage → Bool
is_connected connected = true
is_connected _ = false

unfoldable pub authorize_session :
    Text → Text → SessionKind → ManagerState → Result CommandError (Unit {0})
unfolding kind_name kind_eq is_connected
authorize_session owner session_id kind s =
    if is_some_and
      (λ session.
        text_eq session.owner owner
        && kind_eq session.kind kind
        && is_connected session.state.current)
      (lookup session_id s.sessions)
    then ok tt
    else err (session_not_found_error (kind_name kind))

unfoldable pub remove_session : Text → SessionKind → ManagerState → ManagerState
unfolding kind_eq
remove_session session_id kind s =
    if is_some_and (λ session. kind_eq session.kind kind) (lookup session_id s.sessions)
    then record s { sessions = remove session_id s.sessions }
    else s

-- `close_terminal_session`, for the window `owner`: what `TerminalSessionManager::close` answers is
-- `closed`, and its wait for that answer is left out. `close_sftp_session` calls the manager in the same
-- way for the other kind, once its own table had the session.
unfoldable pub close_session :
    Text
    → Text
    → SessionKind
    → Result CommandError (Unit {0})
    → ManagerState
    → ManagerState × Result CommandError (Unit {0})
unfolding authorize_session remove_session
close_session owner session_id kind closed s = elim (authorize_session owner session_id kind s) [
  | err e ↦ (s, err e)
  | ok _ ↦ (remove_session session_id kind s, closed)
]

-- `for attempt in inner.attempts.values() { attempt.cancellation.cancel(); }`.
unfoldable pub cancel_all : Map ConnectionAttempt → (ℕ → Bool) → ℕ → Bool
cancel_all [] flags = flags
cancel_all ((k, a) ∷ m) flags = cancel_all m (cancel_flag a.cancellation flags)

unfoldable pub clear : ManagerState → ManagerState
clear s = record s { attempts = []; sessions = []; flags = cancel_all s.attempts s.flags }

-- `cancel_ssh_connection`, for the window `owner`.
unfoldable pub cancel_ssh_connection :
    (Text → Bool) → Text → Text → ManagerState → ManagerState × Result CommandError Bool
unfolding validate_attempt_id cancel_attempt
cancel_ssh_connection is_random_uuid owner attempt_id s =
    elim (validate_attempt_id is_random_uuid attempt_id) [
      | err e ↦ (s, err e)
      | ok _ ↦ let (s', found) = cancel_attempt owner attempt_id s in (s', ok found)
    ]
