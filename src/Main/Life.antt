-- ===== src/Main/Life.antt =====
-- The end of main in cannelloni.cpp: it starts the two threads, waits for a signal, stops and joins them,
-- and clears the pools. A step is an access to a flag, by main in a method of thread.cpp or by a thread,
-- as in Thread.
use cannelloni.Prelude.{ℕ, ◌≡◌, Bool, true, ◌||◌, Option, none, some, ◌==◌, if◌then◌else◌}
use cannelloni.Thread.{
  Thread, new_thread, start_sets_started, start_creates, start_sets_running, stops, joins,
  run_returns, resets_running, resets_started,
}
use cannelloni.Thread.{Step as ThreadStep}

-- What a step of Thread belongs to: a statement of `start`, `stop` or `join`, or the thread itself.
pub data Call : Type 0 where
  sets_started : Call
  creates_thread : Call
  sets_running : Call
  stop_call : Call
  join_call : Call
  inside : Call

abbrev pub call : {t u : Thread} → ThreadStep t u → Call
call (start_sets_started e) = sets_started
call (start_creates e none_yet) = creates_thread
call (start_sets_running e) = sets_running
call (stops e) = stop_call
call (joins e j) = join_call
call (run_returns e) = inside
call (resets_running e) = inside
call (resets_started e) = inside

-- Where main stands: before the call that is named, in `start` of the thread at the network or at the CAN
-- socket before the thread is created, and before `m_running` is set, in the loop for signals, or at the
-- end.
pub data MainAt : Type 0 where
  net_start net_creates net_sets : MainAt
  can_start can_creates can_sets : MainAt
  waits : MainAt
  net_stop net_join can_stop can_join : MainAt
  clears at_end : MainAt

-- A step of main in a method of the thread at the network.
unfoldable pub net_call : Call → MainAt → Option MainAt
net_call sets_started net_start = some net_creates
net_call creates_thread net_creates = some net_sets
net_call sets_running net_sets = some can_start
net_call stop_call net_stop = some net_join
net_call join_call net_join = some can_stop
net_call _ _ = none

-- And of the thread at the CAN socket.
unfoldable pub can_call : Call → MainAt → Option MainAt
can_call sets_started can_start = some can_creates
can_call creates_thread can_creates = some can_sets
can_call sets_running can_sets = some waits
can_call stop_call can_stop = some can_join
can_call join_call can_join = some clears
can_call _ _ = none

-- `signalFdInfo.ssi_signo`, or `none` if the read was not complete: whether the loop ends.
unfoldable pub ends_wait : Option ℕ → Bool
ends_wait none = true
ends_wait (some signo) = signo == 15 || signo == 2

pub record Program : Type 0 where
  pub net : Thread
  pub can : Thread
  pub at : MainAt

abbrev pub at_start : Program
at_start = record { net = new_thread; can = new_thread; at = net_start }

pub data Step : Program → Program → Type 0 where
  -- The thread itself.
  net_runs :
      {p : Program} {t : Thread} (m : ThreadStep p.net t)
      → call m ≡ inside
      → Step p (record p { net = t })
  can_runs :
      {p : Program} {t : Thread} (m : ThreadStep p.can t)
      → call m ≡ inside
      → Step p (record p { can = t })
  -- Main, in a method.
  calls_net :
      {p : Program} {t : Thread} {to : MainAt} (m : ThreadStep p.net t)
      → net_call (call m) p.at ≡ some to
      → Step p (record p { net = t; at = to })
  calls_can :
      {p : Program} {t : Thread} {to : MainAt} (m : ThreadStep p.can t)
      → can_call (call m) p.at ≡ some to
      → Step p (record p { can = t; at = to })
  -- `start` of a socket's class returns -1 before it calls `Thread::start`. Main does not look at it.
  net_start_fails : {p : Program} → p.at ≡ net_start → Step p (record p { at = can_start })
  can_start_fails : {p : Program} → p.at ≡ can_start → Step p (record p { at = waits })
  signal :
      {p : Program} (e : Option ℕ)
      → p.at ≡ waits
      → Step p (record p { at = if ends_wait e then net_stop else waits })
  clears_pools : {p : Program} → p.at ≡ clears → Step p (record p { at = at_end })

pub data Reach (p : Program) : Program → Type 0 where
  here : Reach p p
  next : {q r : Program} → Reach p q → Step q r → Reach p r
