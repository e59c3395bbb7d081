-- ===== src/Ssh/Stage/History.antt =====
-- What the stage of a connection says of the way that led to it.
use bx_ssh.Common.{
  ◌≡◌, ◌⊎◌, refl, ap, ◌∙◌, inl, inr, true, false, List, [], ◌∷◌, ◌++◌, ok, err, arith, Bool-cases,
}
use mathlib.Core.List.{append_assoc, append-nil}
use bx_ssh.Ssh.Stage.{
  SshConnectionStage, created, resolving_dns, connecting_tcp, handshaking, authenticating,
  opening_channel, connected, closing, closed, cancelled, failed, SshConnectionStateMachine, new,
  valid_transition, transition, run, accepted,
}

-- The stages of the set-up up to a stage of it; nothing for the others.
abbrev pub path : SshConnectionStage → List SshConnectionStage
path resolving_dns = resolving_dns ∷ []
path connecting_tcp = resolving_dns ∷ connecting_tcp ∷ []
path handshaking = resolving_dns ∷ connecting_tcp ∷ handshaking ∷ []
path authenticating = resolving_dns ∷ connecting_tcp ∷ handshaking ∷ authenticating ∷ []
path opening_channel =
    resolving_dns ∷ connecting_tcp ∷ handshaking ∷ authenticating ∷ opening_channel ∷ []
path connected =
    resolving_dns ∷ connecting_tcp ∷ handshaking ∷ authenticating ∷ opening_channel ∷ connected ∷ []
path _ = []

-- The stages before the connection is up.
abbrev pub IsSetup : SshConnectionStage → Type 0
IsSetup created = Unit
IsSetup resolving_dns = Unit
IsSetup connecting_tcp = Unit
IsSetup handshaking = Unit
IsSetup authenticating = Unit
IsSetup opening_channel = Unit
IsSetup _ = ⊥

-- The accepted stages that can lead to a stage: the set-up in its one order; a prefix of it that
-- stops before `connected`, for an attempt that was given up; all of it, for a closed connection.
abbrev pub Explains : SshConnectionStage → List SshConnectionStage → Type 0
Explains closing done = done ≡ path connected ++ closing ∷ []
Explains closed done =
    (done ≡ path connected ++ closed ∷ []) ⊎ (done ≡ path connected ++ closing ∷ closed ∷ [])
Explains cancelled done = (s : SshConnectionStage) × IsSetup s × (done ≡ path s ++ cancelled ∷ [])
Explains failed done = (s : SshConnectionStage) × IsSetup s × (done ≡ path s ++ failed ∷ [])
Explains s done = done ≡ path s

step-Explains :
    (from to : SshConnectionStage) (done : List SshConnectionStage)
    → Explains from done
    → valid_transition from to ≡ true
    → Explains to (done ++ to ∷ [])
unfolding valid_transition
step-Explains created resolving_dns done h v = rw h
step-Explains resolving_dns connecting_tcp done h v = rw h
step-Explains connecting_tcp handshaking done h v = rw h
step-Explains handshaking authenticating done h v = rw h
step-Explains authenticating opening_channel done h v = rw h
step-Explains opening_channel connected done h v = rw h
step-Explains connected closing done h v = rw h
step-Explains closing closed done h v = inr (rw h)
step-Explains connected closed done h v = inl (rw h)
step-Explains created cancelled done h v = (created, tt, rw h)
step-Explains resolving_dns cancelled done h v = (resolving_dns, tt, rw h)
step-Explains connecting_tcp cancelled done h v = (connecting_tcp, tt, rw h)
step-Explains handshaking cancelled done h v = (handshaking, tt, rw h)
step-Explains authenticating cancelled done h v = (authenticating, tt, rw h)
step-Explains opening_channel cancelled done h v = (opening_channel, tt, rw h)
step-Explains created failed done h v = (created, tt, rw h)
step-Explains resolving_dns failed done h v = (resolving_dns, tt, rw h)
step-Explains connecting_tcp failed done h v = (connecting_tcp, tt, rw h)
step-Explains handshaking failed done h v = (handshaking, tt, rw h)
step-Explains authenticating failed done h v = (authenticating, tt, rw h)
step-Explains opening_channel failed done h v = (opening_channel, tt, rw h)
step-Explains _ _ done h v = cc v

transition_valid :
    (m : SshConnectionStateMachine) (s : SshConnectionStage)
    → valid_transition m.current s ≡ true
    → (transition m s).0 ≡ record { current = s }
unfolding transition
transition_valid m s v = rw v

transition_refused :
    (m : SshConnectionStateMachine) (s : SshConnectionStage)
    → valid_transition m.current s ≡ false
    → transition m s ≡ (m, err (record { from = m.current; to = s }))
unfolding transition
transition_refused m s v = rw v

run_valid :
    (m : SshConnectionStateMachine) (s : SshConnectionStage) (ss : List SshConnectionStage)
    → valid_transition m.current s ≡ true
    → (run m (s ∷ ss) ≡ run (record { current = s }) ss)
      × (accepted m (s ∷ ss) ≡ s ∷ accepted (record { current = s }) ss)
unfolding run accepted
run_valid m s ss v =
    let e = transition_valid m s v in (ap (λ t. run t ss) e, rw v (ap (λ t. s ∷ accepted t ss) e))

run_refused :
    (m : SshConnectionStateMachine) (s : SshConnectionStage) (ss : List SshConnectionStage)
    → valid_transition m.current s ≡ false
    → (run m (s ∷ ss) ≡ run m ss) × (accepted m (s ∷ ss) ≡ accepted m ss)
unfolding run accepted
run_refused m s ss n =
    let e = ap (λ p. p.0) (transition_refused m s n) in
    (ap (λ t. run t ss) e, rw n (ap (λ t. accepted t ss) e))

run-Explains_from :
    (m : SshConnectionStateMachine) (done ss : List SshConnectionStage)
    → Explains m.current done
    → Explains (run m ss).current (done ++ accepted m ss)
unfolding run accepted
run-Explains_from m done [] h = rw append-nil h
run-Explains_from m done (s ∷ ss) h = elim (Bool-cases (valid_transition m.current s)) [
  | inl v ↦
      let later =
        run-Explains_from (record { current = s }) (done ++ s ∷ []) ss
          (step-Explains m.current s done h v) in
      let (r, a) = run_valid m s ss v in rw (r, a) (rw append_assoc at later)
  | inr n ↦ let (r, a) = run_refused m s ss n in rw (r, a) (run-Explains_from m done ss h)
]

-- Whatever stages are asked for, the accepted ones are explained by the stage that the machine ends
-- in: a connection is up only after the six stages of the set-up in order, an attempt is cancelled or
-- fails only before that, and only a connection that was up is closed.
pub run-Explains : (ss : List SshConnectionStage) → Explains (run new ss).current (accepted new ss)
run-Explains ss = run-Explains_from new [] ss refl

abbrev pub IsFinal : SshConnectionStage → Type 0
IsFinal s = (s ≡ closed) ⊎ (s ≡ cancelled) ⊎ (s ≡ failed)

final_refuses : (from to : SshConnectionStage) → IsFinal from → valid_transition from to ≡ false
unfolding valid_transition
final_refuses from to h = ground arith

-- A closed, cancelled or failed connection stays so: every later transition is refused, and changes
-- nothing.
pub run_final :
    (m : SshConnectionStateMachine) (ss : List SshConnectionStage)
    → IsFinal m.current
    → (run m ss ≡ m) × (accepted m ss ≡ [])
unfolding run accepted
run_final m [] h = (refl, refl)
run_final m (s ∷ ss) h =
    let n = final_refuses m.current s h in
    let (r, a) = run_refused m s ss n in let (r', a') = run_final m ss h in (r ∙ r', a ∙ a')

-- A transition either succeeds and moves to the stage asked for, which the rules allow, or reports
-- both stages and leaves the machine where it was.
pub transition_cases :
    (m : SshConnectionStateMachine) (s : SshConnectionStage)
    → ((valid_transition m.current s ≡ true) × (transition m s ≡ (record { current = s }, ok tt)))
      ⊎ ((valid_transition m.current s ≡ false)
          × (transition m s ≡ (m, err (record { from = m.current; to = s }))))
unfolding transition
transition_cases m s = elim (Bool-cases (valid_transition m.current s)) [
  | inl v ↦ inl (v, rw v)
  | inr n ↦ inr (n, rw n)
]
