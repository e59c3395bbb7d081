-- ===== src/Ssh/Stage.antt =====
-- crates/contracts/src/lib.rs: `SshConnectionStage`, and crates/ssh-core/src/connection_state.rs:
-- the state machine of one connection.
pub mod History
use bx_ssh.Common.{
  Bool, true, false, not, ◌&&◌, ◌||◌, Result, ok, err, if◌then◌else◌, List, [], ◌∷◌, ◌++◌,
}
use bx_ssh.Common.Text.{Text, codes}

pub data SshConnectionStage : Type 0 where
  created resolving_dns connecting_tcp handshaking authenticating : SshConnectionStage
  opening_channel connected closing closed cancelled failed : SshConnectionStage

pub record SshConnectionStateMachine : Type 0 where
  pub current : SshConnectionStage

pub record SshStateTransitionError : Type 0 where
  pub from : SshConnectionStage
  pub to : SshConnectionStage

-- `Debug` of a stage, and `Display` of the error.
unfoldable pub stage_debug : SshConnectionStage → Text
stage_debug created = codes "Created"
stage_debug resolving_dns = codes "ResolvingDns"
stage_debug connecting_tcp = codes "ConnectingTcp"
stage_debug handshaking = codes "Handshaking"
stage_debug authenticating = codes "Authenticating"
stage_debug opening_channel = codes "OpeningChannel"
stage_debug connected = codes "Connected"
stage_debug closing = codes "Closing"
stage_debug closed = codes "Closed"
stage_debug cancelled = codes "Cancelled"
stage_debug failed = codes "Failed"

unfoldable pub transition_message : SshStateTransitionError → Text
unfolding stage_debug
transition_message e =
    codes "invalid SSH connection transition from "
    ++ (stage_debug e.from ++ (codes " to " ++ stage_debug e.to))

abbrev pub new : SshConnectionStateMachine
new = record { current = created }

-- The listed pairs of `matches!((from, to), …)`.
is_step : SshConnectionStage → SshConnectionStage → Bool
is_step created resolving_dns = true
is_step resolving_dns connecting_tcp = true
is_step connecting_tcp handshaking = true
is_step handshaking authenticating = true
is_step authenticating opening_channel = true
is_step opening_channel connected = true
is_step connected closing = true
is_step closing closed = true
is_step connected closed = true
is_step _ _ = false

-- `matches!(from, Connected | Closing | Closed | Cancelled | Failed)`.
is_past_setup : SshConnectionStage → Bool
is_past_setup connected = true
is_past_setup closing = true
is_past_setup closed = true
is_past_setup cancelled = true
is_past_setup failed = true
is_past_setup _ = false

-- `matches!(to, Cancelled | Failed)`.
is_abort : SshConnectionStage → Bool
is_abort cancelled = true
is_abort failed = true
is_abort _ = false

unfoldable pub valid_transition : SshConnectionStage → SshConnectionStage → Bool
unfolding is_step is_past_setup is_abort
valid_transition from to = is_step from to || (not (is_past_setup from) && is_abort to)

-- `transition`: the machine after the call, and its result.
unfoldable pub transition :
    SshConnectionStateMachine
    → SshConnectionStage
    → SshConnectionStateMachine × Result SshStateTransitionError (Unit {0})
unfolding valid_transition
transition m next =
    if not (valid_transition m.current next)
    then (m, err (record { from = m.current; to = next }))
    else (record m { current = next }, ok tt)

-- A sequence of calls of `transition`, and the stages that were accepted, in order.
unfoldable pub run : SshConnectionStateMachine → List SshConnectionStage → SshConnectionStateMachine
run m [] = m
run m (s ∷ ss) = run (transition m s).0 ss

unfoldable pub accepted :
    SshConnectionStateMachine → List SshConnectionStage → List SshConnectionStage
accepted m [] = []
accepted m (s ∷ ss) =
    let rest = accepted (transition m s).0 ss in
    if valid_transition m.current s then s ∷ rest else rest
