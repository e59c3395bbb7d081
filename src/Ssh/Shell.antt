-- ===== src/Ssh/Shell.antt =====
-- crates/ssh-core/src/shell.rs: the size of a terminal, the replies to channel requests, and the
-- events of a shell. The messages that `Channel::wait` returns are a list here, whose end is the
-- `None` of a channel that is gone; a signal is the text that its `Debug` prints.
use bx_ssh.Common.{
  ℕ, ◌≡◌, ◌⊎◌, inl, inr, refl, ap, Bool, true, false, ◌||◌, Option, none, some, List, [], ◌∷◌, ◌++◌,
  Result, ok, err, ◌==◌, if◌then◌else◌, All,
}
use bx_ssh.Common.Text.{Text}
use bx_ssh.Ssh.Foreign.{Foreign}
use bx_ssh.Ssh.Error.{SshError, invalid_terminal_size, channel_request_rejected, channel_closed}

pub record TerminalSize : Type 0 where
  pub columns : ℕ  -- u32
  pub rows : ℕ  -- u32
  pub pixel_width : ℕ  -- u32
  pub pixel_height : ℕ  -- u32

-- `TerminalSize::with_pixels`.
unfoldable pub with_pixels : {F : Foreign} → ℕ → ℕ → ℕ → ℕ → Result (SshError F) TerminalSize
with_pixels columns rows pixel_width pixel_height =
    if columns == 0 || rows == 0
    then err invalid_terminal_size
    else ok (record {
      columns = columns;
      rows = rows;
      pixel_width = pixel_width;
      pixel_height = pixel_height;
    })

-- `russh::ChannelMsg`: the messages that the program names, and all the others.
pub data ChannelMsg : Type 0 where
  data_msg : List ℕ → ChannelMsg
  extended_data : List ℕ → ℕ → ChannelMsg
  exit_status : ℕ → ChannelMsg
  exit_signal : Text → Bool → Text → ChannelMsg
  eof_msg close_msg success failure other_msg : ChannelMsg

pub data ShellEvent : Type 0 where
  output : List ℕ → ShellEvent
  extended_output : ℕ → List ℕ → ShellEvent
  exit_status_event : ℕ → ShellEvent
  exit_signal_event : Text → Bool → Text → ShellEvent
  eof_event closed_event : ShellEvent

unfoldable pub map_channel_message : ChannelMsg → Option ShellEvent
map_channel_message (data_msg d) = some (output d)
map_channel_message (extended_data d ext) = some (extended_output ext d)
map_channel_message (exit_status s) = some (exit_status_event s)
map_channel_message (exit_signal name core message) = some (exit_signal_event name core message)
map_channel_message eof_msg = some eof_event
map_channel_message close_msg = some closed_event
map_channel_message _ = none

-- `SshShell::next_event`: the event, and the messages that are left.
unfoldable pub next_event : List ChannelMsg → ShellEvent × List ChannelMsg
unfolding map_channel_message
next_event [] = (closed_event, [])
next_event (m ∷ ms) =
    let later = next_event ms in
    elim (map_channel_message m) [ none ↦ later | some event ↦ (event, ms) ]

-- `await_request_reply`: the result, and the messages that are left.
unfoldable pub await_request_reply :
    {F : Foreign} → Text → List ChannelMsg → Result (SshError F) (Unit {0}) × List ChannelMsg
await_request_reply request [] = (err (channel_closed request), [])
await_request_reply request (success ∷ ms) = (ok tt, ms)
await_request_reply request (failure ∷ ms) = (err (channel_request_rejected request), ms)
await_request_reply request (eof_msg ∷ ms) = (err (channel_closed request), ms)
await_request_reply request (close_msg ∷ ms) = (err (channel_closed request), ms)
await_request_reply request (_ ∷ ms) = await_request_reply request ms

-- The messages that a request waits past.
abbrev pub is_reply : ChannelMsg → Bool
is_reply success = true
is_reply failure = true
is_reply eof_msg = true
is_reply close_msg = true
is_reply _ = false

-- What the first reply, or the end of the channel, makes of a request.
pub data Replied {F : Foreign} (request : Text) (ms : List ChannelMsg)
    : Result (SshError F) (Unit {0}) × List ChannelMsg → Type 0 where
  replied :
      (skipped : List ChannelMsg) (rest : List ChannelMsg) (reply : ChannelMsg)
      (r : Result (SshError F) (Unit {0}))
      → All (λ m. is_reply m ≡ false) skipped
      → ms ≡ skipped ++ reply ∷ rest
      → ((reply ≡ success) × (r ≡ ok tt))
        ⊎ ((reply ≡ failure) × (r ≡ err (channel_request_rejected request)))
        ⊎ (((reply ≡ eof_msg) ⊎ (reply ≡ close_msg)) × (r ≡ err (channel_closed request)))
      → Replied request ms (r, rest)
  ended : All (λ m. is_reply m ≡ false) ms → Replied request ms (err (channel_closed request), [])

Replied-cons :
    {F : Foreign} {request : Text} {ms : List ChannelMsg}
    {r : Result (SshError F) (Unit {0}) × List ChannelMsg} (m : ChannelMsg)
    → is_reply m ≡ false
    → Replied request ms r
    → Replied request (m ∷ ms) r
Replied-cons m n (replied skipped rest reply r s e d) =
    replied (m ∷ skipped) rest reply r (n, s) (ap (◌∷◌ m) e) d
Replied-cons m n (ended a) = ended (n, a)

-- A request is granted, rejected or closed by the first message that is a reply, every other message
-- before it is skipped, and a channel that ends without one counts as closed.
pub await_request_reply-Replied :
    {F : Foreign} (request : Text) (ms : List ChannelMsg)
    → Replied {F = F} request ms (await_request_reply request ms)
unfolding await_request_reply
await_request_reply-Replied request [] = ended tt
await_request_reply-Replied request (success ∷ ms) =
    replied [] ms success _ tt refl (inl (refl, refl))
await_request_reply-Replied request (failure ∷ ms) =
    replied [] ms failure _ tt refl (inr (inl (refl, refl)))
await_request_reply-Replied request (eof_msg ∷ ms) =
    replied [] ms eof_msg _ tt refl (inr (inr (inl refl, refl)))
await_request_reply-Replied request (close_msg ∷ ms) =
    replied [] ms close_msg _ tt refl (inr (inr (inr refl, refl)))
await_request_reply-Replied request (m ∷ ms) =
    Replied-cons m refl (await_request_reply-Replied request ms)
