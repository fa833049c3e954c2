-- ===== src/Thread.antt =====
-- thread.h and thread.cpp: a thread with its two flags, which it shares with its owner without a lock.
-- An access to a flag is a step of its own, so an interleaving of owner and thread is a sequence of
-- steps. `run` is any code that reads `m_started` and returns at some time.
pub mod Flags
use cannelloni.Prelude.{◌≡◌, Bool, true, false, Option, none, some, if◌then◌else◌}

-- Where the owner stands: in none of the methods, or in `start` before it creates the thread, or before
-- it sets `m_running`.
pub data Owner : Type 0 where
  outside : Owner
  creates : Owner
  created : Owner

-- Where the thread stands in `privRun`: there is none, it is in `run`, behind it, behind the reset of
-- `m_running`, or at its end.
pub data Worker : Type 0 where
  absent : Worker
  in_run : Worker
  returned : Worker
  resets : Worker
  ended : Worker

-- `has_thread` tells whether `m_privThread` holds a thread.
pub record Thread : Type 0 where
  pub started : Bool
  pub running : Bool
  pub has_thread : Bool
  pub owner : Owner
  pub worker : Worker

-- The constructor.
abbrev pub new_thread : Thread
new_thread = record {
  started = false;
  running = false;
  has_thread = false;
  owner = outside;
  worker = absent;
}

-- `join` waits for the end of the thread, if there is one.
pub data Joinable : Worker → Type 0 where
  no_thread : Joinable absent
  at_end : Joinable ended

-- One access. `start` wants that there is no thread, since the assignment to `m_privThread` destroys
-- the old one, which ends the program if it was not joined.
pub data Step : Thread → Thread → Type 0 where
  start_sets_started :
      {t : Thread} → t.owner ≡ outside → Step t (record t { started = true; owner = creates })
  start_creates :
      {t : Thread}
      → t.owner ≡ creates
      → t.has_thread ≡ false
      → Step t (record t { has_thread = true; owner = created; worker = in_run })
  start_sets_running :
      {t : Thread} → t.owner ≡ created → Step t (record t { running = true; owner = outside })
  stops : {t : Thread} → t.owner ≡ outside → Step t (record t { started = false })
  joins :
      {t : Thread}
      → t.owner ≡ outside
      → Joinable t.worker
      → Step t (record t { has_thread = false; worker = absent })
  run_returns : {t : Thread} → t.worker ≡ in_run → Step t (record t { worker = returned })
  resets_running :
      {t : Thread} → t.worker ≡ returned → Step t (record t { running = false; worker = resets })
  resets_started :
      {t : Thread} → t.worker ≡ resets → Step t (record t { started = false; worker = ended })

pub data Reach (s : Thread) : Thread → Type 0 where
  here : Reach s s
  next : {t u : Thread} → Reach s t → Step t u → Reach s u

-- `isRunning`.
unfoldable pub is_running : Thread → Bool
is_running t = t.running

-- The destructor: `stop` of this class, and then the one of `m_privThread`; `none` is the end of the
-- program, by the destructor of a std::thread that was not joined.
unfoldable pub destroy : Thread → Option Thread
destroy t =
    if t.has_thread then none else some (if t.started then record t { started = false } else t)
