-- ===== src/Tests/Locking.antt =====
-- Two threads on the mutexes of one frame buffer, at a concrete input.
use cannelloni.Prelude.{◌+◌, ◌≡◌, refl, ◌⊎◌, true, some, List, [], ◌∷◌, ◌++◌}
use cannelloni.FrameBuffer.Locks.{
  Call, requests, inserts, prepares, Contention, Contender, Step, can_acts, net_acts, Reach, here,
  next, before, act, act_on, allows, plus, locks, all_locks, guarded, prepare_locks, overflow_locks,
  return_locks, pool_mutex, both_buffers, buffer_mutex, intermediate_mutex, pool_and_intermediate,
  Action, acquires, releases,
}
use cannelloni.FrameBuffer.Locks.Progress.{IsDone}
use cannelloni.FrameBuffer.Locks.Deadlock.{actions_left, steps, Reach-progress}

-- A frame is requested, with the pool empty and at its limit, and inserted.
abbrev can_calls : List Call
can_calls = requests true true ∷ inserts ∷ []

-- A packet is prepared, and two frames do not fit.
abbrev net_calls : List Call
net_calls = prepares true (some 2) ∷ []

abbrev can_rest : List Action
can_rest =
    acquires pool_mutex
    ∷ releases pool_mutex
    ∷ acquires buffer_mutex
    ∷ acquires buffer_mutex
    ∷ releases buffer_mutex
    ∷ releases buffer_mutex
    ∷ releases pool_mutex
    ∷ acquires buffer_mutex
    ∷ releases buffer_mutex
    ∷ []

abbrev net_after : Contender
net_after = record {
  held = both_buffers;
  rest =
      releases both_buffers
      ∷ ((guarded intermediate_mutex [])
          ++ (guarded intermediate_mutex (overflow_locks (some 2))
              ++ guarded pool_and_intermediate []));
}

-- The thread at the CAN socket has the pool, and will want the buffer, which the other one has.
abbrev contended : Contention
contended = record { can = record { held = pool_mutex; rest = can_rest }; net = net_after }

contends : Reach (before can_calls net_calls) contended
unfolding act act_on allows plus all_locks locks guarded prepare_locks overflow_locks return_locks
contends = next (next here (net_acts net_after refl)) (can_acts contended.can refl)

Reach-progress_example :
    (IsDone contended ⊎ ((t : Contention) × Step contended t))
    × (steps contends + actions_left contended ≡ actions_left (before can_calls net_calls))
Reach-progress_example = Reach-progress can_calls net_calls contended contends
