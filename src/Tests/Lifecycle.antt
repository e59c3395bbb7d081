-- ===== src/Tests/Lifecycle.antt =====
-- Tests of the activity counters.
use bx_ssh.Common.{◌≡◌, ◌≢◌, ◌↔◌, true, [], ◌∷◌, arith}
use bx_ssh.Desktop.Lifecycle.{
  session, transfer, ActivityCounts, idle, track, release, snapshot, requires_confirmation, Reached,
  at_start, tracked, dropped, requires_confirmation_iff,
}

-- A session and a transfer began, and the session ended first.
abbrev counts : ActivityCounts
counts = release session (track transfer (track session idle))

counts-Reached : Reached counts (transfer ∷ [])
counts-Reached = dropped session (transfer ∷ []) [] (tracked transfer (tracked session at_start))

requires_confirmation_iff_example :
    (requires_confirmation (snapshot counts) ≡ true) ↔ (transfer ∷ [] ≢ [])
requires_confirmation_iff_example =
    requires_confirmation_iff counts (transfer ∷ []) counts-Reached (omega arith)
