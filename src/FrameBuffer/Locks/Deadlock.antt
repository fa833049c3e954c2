-- ===== src/FrameBuffer/Locks/Deadlock.antt =====
-- Runs of two threads that call methods of one buffer of framebuffer.cpp, lock by lock.
use cannelloni.Prelude.{
  ℕ, suc, ◌+◌, ◌≡◌, refl, subst, ◌⊎◌, inl, inr, some, List, [], ◌∷◌, arith, Bool-cases, length,
}
use cannelloni.FrameBuffer.Locks.{
  next, here, Locks, Action, acquires, releases, Call, allows, plus, minus, Contender, act_on, act,
  Contention, Step, can_acts, net_acts, Reach, before,
}
use cannelloni.FrameBuffer.Locks.Progress.{IsFair, Reach-IsFair, IsDone, progress}
use cannelloni.FrameBuffer.Locks.Order.{all_locks-is_disciplined}

before-IsFair : (can_calls net_calls : List Call) → IsFair (before can_calls net_calls)
unfolding allows
before-IsFair can_calls net_calls = record {
  can_order = all_locks-is_disciplined can_calls;
  net_order = all_locks-is_disciplined net_calls;
  exclusive = refl;
}

-- What is left to do.
abbrev pub actions_left : Contention → ℕ
actions_left s = length s.can.rest + length s.net.rest

act_on-shortens :
    (other h : Locks) (r : List Action) (c : Contender)
    → act_on other h r ≡ some c
    → length r ≡ suc (length c.rest)
unfolding act_on
act_on-shortens other h [] c e = absurd (cc)
act_on-shortens other h (acquires l ∷ r) c e = elim (Bool-cases (allows other l)) [
  | inr taken ↦ absurd (cc (rw taken at e))
  | inl free ↦
      let same : record { held = plus h l; rest = r } ≡ c = cc (rw free at e) in
      subst (λ (x : Contender). suc (length r) ≡ suc (length x.rest)) same refl
]
act_on-shortens other h (releases l ∷ r) c e =
    let same : record { held = minus h l; rest = r } ≡ c = cc in
    subst (λ (x : Contender). suc (length r) ≡ suc (length x.rest)) same refl

Step-shortens : {s t : Contention} → Step s t → actions_left s ≡ suc (actions_left t)
unfolding act
Step-shortens {s} (can_acts c e) =
    omega (arith, act_on-shortens s.net.held s.can.held s.can.rest c e)
Step-shortens {s} (net_acts c e) =
    omega (arith, act_on-shortens s.can.held s.net.held s.net.rest c e)

-- The length of a run.
abbrev pub steps : {s t : Contention} → Reach s t → ℕ
steps here = 0
steps (next r step) = suc (steps r)

Reach-steps : {s t : Contention} (r : Reach s t) → steps r + actions_left t ≡ actions_left s
Reach-steps here = omega arith
Reach-steps (next r step) = omega (arith, Reach-steps r, Step-shortens step)

-- Two threads call methods of one frame buffer, each any sequence of them, in any interleaving of the
-- single locks and unlocks of the mutexes. There is no deadlock: in every state that they reach, both are
-- at the end of their calls, or one of them can go on. A run takes as many steps as locks and unlocks are
-- done in it, so that no run is longer than the two sequences, and both come to the end, whatever the
-- order.
pub Reach-progress :
    (can_calls net_calls : List Call) (s : Contention) (r : Reach (before can_calls net_calls) s)
    → (IsDone s ⊎ ((t : Contention) × Step s t))
      × (steps r + actions_left s ≡ actions_left (before can_calls net_calls))
Reach-progress can_calls net_calls s r =
    (progress s (Reach-IsFair (before-IsFair can_calls net_calls) r), Reach-steps r)
