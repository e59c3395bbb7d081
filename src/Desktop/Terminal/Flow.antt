-- ===== src/Desktop/Terminal/Flow.antt =====
-- `TerminalOutputFlow` of apps/desktop/src-tauri/src/terminal.rs: bytes wait in `pending` until a batch
-- is sent, and a batch is in flight until the frontend acknowledges it. The channel to the frontend
-- is Tauri's: `accepts` says which of its sends succeed, by number. Times are in milliseconds.
pub mod Bounds
use bx_ssh.Common.{
  ℕ, ◌+◌, ◌%◌, ◌^◌, Bool, true, false, Option, none, some, List, [], ◌∷◌, ◌++◌, length, is_empty,
  ltb, leb, if◌then◌else◌,
}

abbrev pub output_batch_max_bytes : ℕ
output_batch_max_bytes = 65536

abbrev pub output_batch_max_delay : ℕ
output_batch_max_delay = 8

abbrev pub output_max_in_flight_batches : ℕ
output_max_in_flight_batches = 8

pub record TerminalOutputFlow : Type 0 where
  pub pending : List ℕ
  pub pending_since : Option ℕ
  pub in_flight : List ℕ  -- the oldest first
  pub next_sequence : ℕ  -- u64

-- The frontend's end of the channel: the sends that were tried, and the batches that arrived.
pub record Frontend : Type 0 where
  pub tried : ℕ
  pub delivered : List (List ℕ)

abbrev pub new : TerminalOutputFlow
new = record { pending = []; pending_since = none; in_flight = []; next_sequence = 1 }

unfoldable pub can_read : TerminalOutputFlow → Bool
can_read f = ltb (length f.in_flight) output_max_in_flight_batches

-- `push`, at the time `now`.
unfoldable pub push : ℕ → List ℕ → TerminalOutputFlow → TerminalOutputFlow
push now bytes f = if is_empty bytes then f else record f {
  pending = f.pending ++ bytes;
  pending_since = if is_empty f.pending then some now else f.pending_since;
}

unfoldable pub should_flush : TerminalOutputFlow → Bool
should_flush f = leb output_batch_max_bytes (length f.pending)

unfoldable pub flush_deadline : TerminalOutputFlow → Option ℕ
flush_deadline f = elim f.pending_since [
  | none ↦ none
  | some started ↦ some (started + output_batch_max_delay)
]

-- `flush`: the flow and the frontend afterwards, and whether the send succeeded. A batch whose send
-- fails is gone from `pending`, and is not in flight.
unfoldable pub flush :
    (ℕ → Bool) → TerminalOutputFlow → Frontend → (TerminalOutputFlow × Frontend) × Bool
flush accepts f front =
    if is_empty f.pending
    then ((f, front), true)
    else if accepts front.tried
    then (
      (
        record {
          pending = [];
          pending_since = none;
          in_flight = f.in_flight ++ (f.next_sequence ∷ []);
          next_sequence = (f.next_sequence + 1) % 2 ^ 64;
        },
        record { tried = front.tried + 1; delivered = front.delivered ++ (f.pending ∷ []) },
      ),
      true,
    )
    else ((record f { pending = [] }, record front { tried = front.tried + 1 }), false)

-- The loop of `acknowledge`: `pop_front` while the oldest is at most `sequence`.
unfoldable pub pop_acknowledged : ℕ → List ℕ → List ℕ
pop_acknowledged sequence [] = []
pop_acknowledged sequence (n ∷ ns) =
    let rest = pop_acknowledged sequence ns in if leb n sequence then rest else n ∷ ns

unfoldable pub acknowledge : ℕ → TerminalOutputFlow → TerminalOutputFlow
unfolding pop_acknowledged
acknowledge sequence f =
    if leb f.next_sequence sequence
    then f
    else record f { in_flight = pop_acknowledged sequence f.in_flight }
