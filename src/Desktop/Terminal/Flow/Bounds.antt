-- ===== src/Desktop/Terminal/Flow/Bounds.antt =====
-- What bounds the output of a session, and what an acknowledgement does.
use bx_ssh.Common.{
  ℕ, suc, ◌≤◌, ◌<◌, ◌≡◌, ◌⊎◌, inl, inr, refl, Bool, true, false, some, List, [], ◌∷◌, ◌++◌, length,
  is_empty, is_some, length-append, subst, ltb, leb, not, if◌then◌else◌, arith, Bool-cases,
}
use bx_ssh.Desktop.Terminal.Flow.{
  TerminalOutputFlow, Frontend, can_read, push, should_flush, flush, pop_acknowledged, acknowledge,
}

-- What holds of the flow between two turns of the session's loop: at most 8 batches are in flight,
-- fewer while bytes wait; less than a batch waits; and the timer runs exactly while bytes wait.
pub record IsBounded (f : TerminalOutputFlow) : Type 0 where
  pub window : length f.in_flight ≤ 8
  pub room : is_empty f.pending ≡ false → length f.in_flight < 8
  pub partial : length f.pending < 65536
  pub timed : is_some f.pending_since ≡ not (is_empty f.pending)

-- The batches in flight are the numbers from `first` to before `next`.
abbrev pub IsRange : ℕ → List ℕ → ℕ → Type 0
IsRange first [] next = first ≡ next
IsRange first (n ∷ ns) next = (n ≡ first) × IsRange (suc first) ns next

pop_acknowledged-length : (k : ℕ) (ns : List ℕ) → length (pop_acknowledged k ns) ≤ length ns
unfolding pop_acknowledged
pop_acknowledged-length k [] = omega arith
pop_acknowledged-length k (n ∷ ns) = ground (arith, pop_acknowledged-length k ns)

pub acknowledge-IsBounded :
    (k : ℕ) (f : TerminalOutputFlow) → IsBounded f → IsBounded (acknowledge k f)
unfolding acknowledge
acknowledge-IsBounded k f v = elim (Bool-cases (leb f.next_sequence k)) [
  | inl e ↦ rw e v
  | inr e ↦ rw e (record {
    window = omega (arith, v.window, pop_acknowledged-length k f.in_flight);
    room = λ h. omega (arith, v.room h, pop_acknowledged-length k f.in_flight);
    partial = v.partial;
    timed = v.timed;
  })
]

is_empty-append : (xs ys : List ℕ) → is_empty ys ≡ false → is_empty (xs ++ ys) ≡ false
is_empty-append [] ys h = h
is_empty-append (x ∷ xs) ys h = refl

is_empty-length : (xs : List ℕ) → is_empty xs ≡ true → length xs ≡ 0
is_empty-length xs h = ground arith

-- A successful flush restores the bounds, however much waits.
pub flush-IsBounded :
    (accepts : ℕ → Bool) (f : TerminalOutputFlow) (front : Frontend)
    → (length f.in_flight < 8) ⊎ (is_empty f.pending ≡ true)
    → length f.in_flight ≤ 8
    → is_some f.pending_since ≡ not (is_empty f.pending)
    → (flush accepts f front).1 ≡ true
    → IsBounded (flush accepts f front).0.0
unfolding flush
flush-IsBounded accepts f front room window timed h = elim (Bool-cases (is_empty f.pending)) [
  | inl e ↦ rw e (record {
    window = window;
    room = λ k. absurd (cc (k, e));
    partial = omega (arith, is_empty-length f.pending e);
    timed = timed;
  })
  | inr e ↦ elim (Bool-cases (accepts front.tried)) [
    | inr r ↦ absurd (ground arith)
    | inl a ↦
        rw (e, a)
          (record {
            window = ground (arith, length-append f.in_flight (f.next_sequence ∷ []));
            room = λ k. absurd (cc k);
            partial = omega arith;
            timed = refl;
          })
  ]
]

-- Reading while the window has room, and flushing when a batch is full, keeps the bounds.
pub push-IsBounded :
    (accepts : ℕ → Bool) (now : ℕ) (bytes : List ℕ) (f : TerminalOutputFlow) (front : Frontend)
    → IsBounded f
    → can_read f ≡ true
    → ((should_flush (push now bytes f) ≡ false) × IsBounded (push now bytes f))
      ⊎ ((should_flush (push now bytes f) ≡ true)
          × ((flush accepts (push now bytes f) front).1 ≡ true
              → IsBounded (flush accepts (push now bytes f) front).0.0))
unfolding push should_flush can_read
push-IsBounded accepts now bytes f front v h = elim (Bool-cases (is_empty bytes)) [
  | inl e ↦ rw e (inl (ground (arith, v.partial), v))
  | inr e ↦ rw e (elim (Bool-cases (leb 65536 (length (f.pending ++ bytes)))) [
    | inl l ↦
        inr
          (l, λ sent. flush-IsBounded accepts _ front (inl (free h)) v.window (pushed-timed e) sent)
    | inr g ↦ inl (
      g,
      record {
        window = v.window;
        room = λ _. free h;
        partial = ground arith;
        timed = pushed-timed e;
      },
    )
  ])
]
  where
    free : ltb (length f.in_flight) 8 ≡ true → length f.in_flight < 8
    free r = ground arith

    pushed-timed :
        is_empty bytes ≡ false
        → is_some (if is_empty f.pending then some now else f.pending_since)
          ≡ not (is_empty (f.pending ++ bytes))
    pushed-timed e = ground (arith, v.timed, is_empty-append f.pending bytes e)

pop_acknowledged-IsRange :
    (k first next : ℕ) (ns : List ℕ)
    → IsRange first ns next
    → k < next
    → IsRange (if ltb k first then first else suc k) (pop_acknowledged k ns) next
unfolding pop_acknowledged
pop_acknowledged-IsRange k first next [] r l = ground arith
pop_acknowledged-IsRange k first next (n ∷ ns) (e, r) l = elim (Bool-cases (leb n k)) [
  | inl b ↦ rw b (
      subst (λ m. IsRange m (pop_acknowledged k ns) next) (ground arith)
        (pop_acknowledged-IsRange k (suc first) next ns r l))
  | inr b ↦ let c : ltb k first ≡ true = ground arith in rw (b, c) (e, r)
]

-- While the batches in flight have consecutive numbers up to the last one sent, an acknowledgement
-- of a batch that was sent leaves in flight exactly the later ones; one of a batch that was not
-- sent changes nothing.
pub acknowledge_lem :
    (k first : ℕ) (f : TerminalOutputFlow)
    → IsRange first f.in_flight f.next_sequence
    → (k < f.next_sequence
        → IsRange
            (if ltb k first then first else suc k)
            (acknowledge k f).in_flight
            f.next_sequence)
      × (f.next_sequence ≤ k → acknowledge k f ≡ f)
unfolding acknowledge
acknowledge_lem k first f r = (
  λ l.
      let c : leb f.next_sequence k ≡ false = ground arith in
      rw c (pop_acknowledged-IsRange k first f.next_sequence f.in_flight r l),
  λ l. ground arith,
)
