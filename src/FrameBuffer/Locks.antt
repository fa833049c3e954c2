-- ===== src/FrameBuffer/Locks.antt =====
-- The three mutexes of framebuffer.cpp, which are recursive: what each method locks, in which order, and
-- what two threads that call methods of one buffer do to each other. A lock of several mutexes by
-- std::lock takes all of them, or waits and holds none of them. No method of one buffer calls one of
-- another buffer while it has a mutex.
pub mod Progress
pub mod Order
pub mod Deadlock
use cannelloni.Prelude.{
  ℕ, zero, suc, ◌+◌, ◌-◌, ◌≡◌, Bool, ◌&&◌, ◌||◌, Option, none, some, List, [], ◌∷◌, ◌++◌, ◌==◌,
  if◌then◌else◌,
}
use mathlib.Core.Option

-- How often each mutex is locked.
pub record Locks : Type 0 where
  pub pool : ℕ
  pub buffer : ℕ
  pub intermediate : ℕ

abbrev pub unlocked : Locks
unlocked = record { pool = 0; buffer = 0; intermediate = 0 }

abbrev pub pool_mutex : Locks
pool_mutex = record { pool = 1; buffer = 0; intermediate = 0 }

abbrev pub buffer_mutex : Locks
buffer_mutex = record { pool = 0; buffer = 1; intermediate = 0 }

abbrev pub intermediate_mutex : Locks
intermediate_mutex = record { pool = 0; buffer = 0; intermediate = 1 }

abbrev pub both_buffers : Locks
both_buffers = record { pool = 0; buffer = 1; intermediate = 1 }

abbrev pub pool_and_intermediate : Locks
pool_and_intermediate = record { pool = 1; buffer = 0; intermediate = 1 }

abbrev pub all_mutexes : Locks
all_mutexes = record { pool = 1; buffer = 1; intermediate = 1 }

pub data Action : Type 0 where
  acquires : Locks → Action
  releases : Locks → Action

-- `lock_guard`, around what a method does.
unfoldable pub guarded : Locks → List Action → List Action
guarded l inner = acquires l ∷ (inner ++ (releases l ∷ []))

-- The methods that the threads call. For a request: whether the pool is empty, and whether the last frame
-- of the buffer is overwritten. For `prepareBuffer` of udpthread.cpp: whether it sorts, and the number of
-- frames that are returned, if not all fit.
pub data Call : Type 0 where
  requests : Bool → Bool → Call
  to_pool : Call
  inserts : Call
  returns : Call
  gives_front : Call
  looks_at_size : Call
  prepares : Bool → Option ℕ → Call
  resets : Call

-- `returnFrame`, for each frame.
unfoldable pub return_locks : ℕ → List Action
return_locks zero = []
return_locks (suc n) = guarded buffer_mutex [] ++ return_locks n

unfoldable pub overflow_locks : Option ℕ → List Action
overflow_locks none = []
overflow_locks (some n) = guarded both_buffers (return_locks n)

unfoldable pub prepare_locks : Bool → Option ℕ → List Action
prepare_locks sorts overflow =
    guarded both_buffers []
    ++ ((if sorts then guarded intermediate_mutex [] else [])
        ++ (guarded intermediate_mutex (overflow_locks overflow)
            ++ guarded pool_and_intermediate []))

unfoldable pub locks : Call → List Action
locks (requests grows overwrites) = guarded pool_mutex (
    (if grows then guarded pool_mutex [] else [])
    ++ (if overwrites then guarded buffer_mutex (guarded buffer_mutex []) else []))
locks to_pool = guarded pool_mutex []
locks inserts = guarded buffer_mutex []
locks returns = guarded buffer_mutex []
locks gives_front = guarded buffer_mutex []
locks looks_at_size = guarded buffer_mutex []
locks (prepares sorts overflow) = prepare_locks sorts overflow
locks resets = guarded all_mutexes []

unfoldable pub all_locks : List Call → List Action
all_locks [] = []
all_locks (c ∷ cs) = locks c ++ all_locks cs

-- Nobody else has a mutex of `l`.
unfoldable pub allows : Locks → Locks → Bool
allows other l =
    (l.pool == 0 || other.pool == 0)
    && ((l.buffer == 0 || other.buffer == 0) && (l.intermediate == 0 || other.intermediate == 0))

unfoldable pub plus : Locks → Locks → Locks
plus h l = record {
  pool = h.pool + l.pool;
  buffer = h.buffer + l.buffer;
  intermediate = h.intermediate + l.intermediate;
}

unfoldable pub minus : Locks → Locks → Locks
minus h l = record {
  pool = h.pool - l.pool;
  buffer = h.buffer - l.buffer;
  intermediate = h.intermediate - l.intermediate;
}

-- A thread: the mutexes that it has, and what it does next.
pub record Contender : Type 0 where
  pub held : Locks
  pub rest : List Action

unfoldable pub act_on : Locks → Locks → List Action → Option Contender
act_on other h [] = none
act_on other h (acquires l ∷ r) =
    if allows other l then some (record { held = plus h l; rest = r }) else none
act_on other h (releases l ∷ r) = some (record { held = minus h l; rest = r })

-- The next action; `none` at the end, or while the other thread has a mutex that is wanted.
unfoldable pub act : Locks → Contender → Option Contender
act other c = act_on other c.held c.rest

pub record Contention : Type 0 where
  pub can : Contender
  pub net : Contender

pub data Step : Contention → Contention → Type 0 where
  can_acts :
      {s : Contention} (c : Contender)
      → act s.net.held s.can ≡ some c
      → Step s (record s { can = c })
  net_acts :
      {s : Contention} (c : Contender)
      → act s.can.held s.net ≡ some c
      → Step s (record s { net = c })

pub data Reach (s : Contention) : Contention → Type 0 where
  here : Reach s s
  next : {t u : Contention} → Reach s t → Step t u → Reach s u

-- Both threads before their calls.
abbrev pub before : List Call → List Call → Contention
before can_calls net_calls = record {
  can = record { held = unlocked; rest = all_locks can_calls };
  net = record { held = unlocked; rest = all_locks net_calls };
}
