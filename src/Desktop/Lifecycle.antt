-- ===== src/Desktop/Lifecycle.antt =====
-- apps/desktop/src-tauri/src/lifecycle.rs: the counters of active sessions and transfers, and whether an
-- exit needs to be confirmed. The counters are atomics that the guards share; each operation on one
-- is a step, and `fetch_add` and `fetch_sub` wrap.
use bx_ssh.Common.{
  ℕ, suc, ◌+◌, ◌%◌, ◌^◌, ◌<◌, ◌≡◌, ◌≢◌, ◌↔◌, refl, Bool, true, ◌||◌, List, [], ◌∷◌, ◌++◌, length,
  ltb, arith,
}

pub data ActivityKind : Type 0 where
  session transfer : ActivityKind

pub record ActivityCounts : Type 0 where
  pub sessions : ℕ  -- u32
  pub transfers : ℕ  -- u32

abbrev pub idle : ActivityCounts
idle = record { sessions = 0; transfers = 0 }

-- `AppActivity::track`; the guard that it returns is the kind.
unfoldable pub track : ActivityKind → ActivityCounts → ActivityCounts
track session c = record c { sessions = (c.sessions + 1) % 2 ^ 32 }
track transfer c = record c { transfers = (c.transfers + 1) % 2 ^ 32 }

-- `Drop` of a guard: less one is plus 2 ^ 32 - 1 modulo 2 ^ 32.
unfoldable pub release : ActivityKind → ActivityCounts → ActivityCounts
release session c = record c { sessions = (c.sessions + 0xFFFFFFFF) % 2 ^ 32 }
release transfer c = record c { transfers = (c.transfers + 0xFFFFFFFF) % 2 ^ 32 }

pub record ExitImpact : Type 0 where
  pub active_sessions : ℕ  -- u32
  pub active_transfers : ℕ  -- u32

-- `AppActivity::snapshot`.
unfoldable pub snapshot : ActivityCounts → ExitImpact
snapshot c = record { active_sessions = c.sessions; active_transfers = c.transfers }

unfoldable pub requires_confirmation : ExitImpact → Bool
requires_confirmation i = ltb 0 i.active_sessions || ltb 0 i.active_transfers

-- The counters that a program can reach, with the guards that are alive: a guard is made by `track`, and
-- any guard may be dropped.
pub data Reached : ActivityCounts → List ActivityKind → Type 0 where
  at_start : Reached idle []
  tracked :
      (k : ActivityKind) {c : ActivityCounts} {live : List ActivityKind}
      → Reached c live
      → Reached (track k c) (k ∷ live)
  dropped :
      (k : ActivityKind) (before later : List ActivityKind) {c : ActivityCounts}
      → Reached c (before ++ k ∷ later)
      → Reached (release k c) (before ++ later)

abbrev pub sessions_in : List ActivityKind → ℕ
sessions_in [] = 0
sessions_in (session ∷ live) = suc (sessions_in live)
sessions_in (transfer ∷ live) = sessions_in live

abbrev pub transfers_in : List ActivityKind → ℕ
transfers_in [] = 0
transfers_in (session ∷ live) = transfers_in live
transfers_in (transfer ∷ live) = suc (transfers_in live)

sessions_in-append :
    (xs ys : List ActivityKind) → sessions_in (xs ++ ys) ≡ sessions_in xs + sessions_in ys
sessions_in-append [] ys = omega arith
sessions_in-append (session ∷ xs) ys = omega (arith, sessions_in-append xs ys)
sessions_in-append (transfer ∷ xs) ys = sessions_in-append xs ys

transfers_in-append :
    (xs ys : List ActivityKind) → transfers_in (xs ++ ys) ≡ transfers_in xs + transfers_in ys
transfers_in-append [] ys = omega arith
transfers_in-append (session ∷ xs) ys = transfers_in-append xs ys
transfers_in-append (transfer ∷ xs) ys = omega (arith, transfers_in-append xs ys)

-- The counters are the numbers of live guards, up to wrap-around.
abbrev Counts : ActivityCounts → List ActivityKind → Type 0
Counts c live =
    (c.sessions ≡ sessions_in live % 2 ^ 32) × (c.transfers ≡ transfers_in live % 2 ^ 32)

track-Counts :
    (k : ActivityKind) (c : ActivityCounts) (live : List ActivityKind)
    → Counts c live
    → Counts (track k c) (k ∷ live)
unfolding track
track-Counts session c live (s, t) = (omega arith, t)
track-Counts transfer c live (s, t) = (s, omega arith)

release-Counts :
    (k : ActivityKind) (before later : List ActivityKind) (c : ActivityCounts)
    → Counts c (before ++ k ∷ later)
    → Counts (release k c) (before ++ later)
unfolding release
release-Counts session before later c (s, t) = (
  omega (arith, sessions_in-append before (session ∷ later), sessions_in-append before later),
  omega (arith, transfers_in-append before (session ∷ later), transfers_in-append before later),
)
release-Counts transfer before later c (s, t) = (
  omega (arith, sessions_in-append before (transfer ∷ later), sessions_in-append before later),
  omega (arith, transfers_in-append before (transfer ∷ later), transfers_in-append before later),
)

Reached-Counts : {c : ActivityCounts} {live : List ActivityKind} → Reached c live → Counts c live
Reached-Counts at_start = (refl, refl)
Reached-Counts (tracked k {c} {live} r) = track-Counts k c live (Reached-Counts r)
Reached-Counts (dropped k before later {c} r) = release-Counts k before later c (Reached-Counts r)

length-in : (live : List ActivityKind) → length live ≡ sessions_in live + transfers_in live
length-in [] = omega arith
length-in (session ∷ live) = omega (arith, length-in live)
length-in (transfer ∷ live) = omega (arith, length-in live)

-- In whatever order guards come and go: while less than 2 ^ 32 are alive, an exit needs to be
-- confirmed exactly if a guard of a session or of a transfer is alive.
pub requires_confirmation_iff :
    (c : ActivityCounts) (live : List ActivityKind)
    → Reached c live
    → length live < 2 ^ 32
    → (requires_confirmation (snapshot c) ≡ true) ↔ (live ≢ [])
unfolding requires_confirmation snapshot
requires_confirmation_iff c [] r l =
    let (s, t) = Reached-Counts r in (λ h e. ground arith, λ n. absurd (n refl))
requires_confirmation_iff c (k ∷ live) r l =
    let (s, t) = Reached-Counts r in
    let total = length-in (k ∷ live) in (λ h e. cc e, λ n. ground (arith, total))
