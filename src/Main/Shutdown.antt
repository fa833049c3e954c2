-- ===== src/Main/Shutdown.antt =====
-- The threads when main of cannelloni.cpp clears the pools, in any interleaving.
use cannelloni.Prelude.{◌≡◌, refl, sym, ◌∙◌, inl, inr, Bool, true, false, some, arith, Bool-cases}
use cannelloni.Thread.{
  Owner, outside, creates, created, Thread, start_sets_started, start_creates, start_sets_running,
  stops, joins, run_returns, resets_running, resets_started,
}
use cannelloni.Thread.{Step as ThreadStep}
use cannelloni.Thread.{destroy}
use cannelloni.Thread.Flags.{
  IsConsistent, is_live, new_thread-IsConsistent, Step-IsConsistent, IsConsistent-joined,
}
use cannelloni.Main.Life.{
  call, inside, MainAt, net_creates, net_sets, can_start, can_creates, can_sets, waits, net_stop,
  can_stop, can_join, clears, at_end, net_call, can_call, ends_wait, Program, at_start, Step,
  net_runs, can_runs, calls_net, calls_can, net_start_fails, can_start_fails, signal, clears_pools,
  Reach, here, next,
}

-- Where main is in a method of a thread.
abbrev net_owner : MainAt → Owner
net_owner net_creates = creates
net_owner net_sets = created
net_owner _ = outside

abbrev can_owner : MainAt → Owner
can_owner can_creates = creates
can_owner can_sets = created
can_owner _ = outside

abbrev pub net_joined : MainAt → Bool
net_joined can_stop = true
net_joined can_join = true
net_joined clears = true
net_joined at_end = true
net_joined _ = false

abbrev pub can_joined : MainAt → Bool
can_joined clears = true
can_joined at_end = true
can_joined _ = false

net_call-keeps :
    {t u : Thread} (m : ThreadStep t u) (at to : MainAt)
    → net_call (call m) at ≡ some to
    → (u.owner ≡ net_owner to)
      × (net_joined to ≡ true → u.has_thread ≡ false)
      × (can_owner to ≡ can_owner at)
      × (can_joined to ≡ can_joined at)
unfolding net_call
net_call-keeps (start_sets_started e) at to h = ground arith
net_call-keeps (start_creates e none_yet) at to h = ground arith
net_call-keeps (start_sets_running e) at to h = ground arith
net_call-keeps (stops e) at to h = ground arith
net_call-keeps (joins e j) at to h = ground arith
net_call-keeps (run_returns e) at to h = ground arith
net_call-keeps (resets_running e) at to h = ground arith
net_call-keeps (resets_started e) at to h = ground arith

can_call-keeps :
    {t u : Thread} (m : ThreadStep t u) (at to : MainAt)
    → can_call (call m) at ≡ some to
    → (u.owner ≡ can_owner to)
      × (can_joined to ≡ true → u.has_thread ≡ false)
      × (net_owner to ≡ net_owner at)
      × (net_joined to ≡ true → (net_joined at ≡ true))
unfolding can_call
can_call-keeps (start_sets_started e) at to h = ground arith
can_call-keeps (start_creates e none_yet) at to h = ground arith
can_call-keeps (start_sets_running e) at to h = ground arith
can_call-keeps (stops e) at to h = ground arith
can_call-keeps (joins e j) at to h = ground arith
can_call-keeps (run_returns e) at to h = ground arith
can_call-keeps (resets_running e) at to h = ground arith
can_call-keeps (resets_started e) at to h = ground arith

-- What the thread itself does concerns neither main's place in a method nor `m_privThread`.
inside-keeps :
    {t u : Thread} (m : ThreadStep t u)
    → call m ≡ inside
    → (u.owner ≡ t.owner) × (u.has_thread ≡ t.has_thread)
inside-keeps (start_sets_started e) h = absurd (cc)
inside-keeps (start_creates e none_yet) h = absurd (cc)
inside-keeps (start_sets_running e) h = absurd (cc)
inside-keeps (stops e) h = absurd (cc)
inside-keeps (joins e j) h = absurd (cc)
inside-keeps (run_returns e) h = (refl, refl)
inside-keeps (resets_running e) h = (refl, refl)
inside-keeps (resets_started e) h = (refl, refl)

-- The flags are consistent, main is in the method that its place says, and a thread that it has joined is
-- gone.
record InOrder (p : Program) : Type 0 where
  net_consistent : IsConsistent p.net
  can_consistent : IsConsistent p.can
  net_place : p.net.owner ≡ net_owner p.at
  can_place : p.can.owner ≡ can_owner p.at
  net_gone : net_joined p.at ≡ true → p.net.has_thread ≡ false
  can_gone : can_joined p.at ≡ true → p.can.has_thread ≡ false

-- Main goes on without a call on a thread.
moves-InOrder :
    (p : Program) (to : MainAt)
    → InOrder p
    → net_owner to ≡ net_owner p.at
    → can_owner to ≡ can_owner p.at
    → (net_joined to ≡ true → net_joined p.at ≡ true)
    → (can_joined to ≡ true → can_joined p.at ≡ true)
    → InOrder (record p { at = to })
moves-InOrder p to v n c nj cj = record {
  net_consistent = v.net_consistent;
  can_consistent = v.can_consistent;
  net_place = v.net_place ∙ sym n;
  can_place = v.can_place ∙ sym c;
  net_gone = λ h. v.net_gone (nj h);
  can_gone = λ h. v.can_gone (cj h);
}

Step-InOrder : {p q : Program} → Step p q → InOrder p → InOrder q
Step-InOrder {p} (net_runs m in_it) v =
    let (owner, thread) = inside-keeps m in_it in
    record {
      net_consistent = Step-IsConsistent m v.net_consistent;
      can_consistent = v.can_consistent;
      net_place = owner ∙ v.net_place;
      can_place = v.can_place;
      net_gone = λ h. thread ∙ v.net_gone h;
      can_gone = v.can_gone;
    }
Step-InOrder {p} (can_runs m in_it) v =
    let (owner, thread) = inside-keeps m in_it in
    record {
      net_consistent = v.net_consistent;
      can_consistent = Step-IsConsistent m v.can_consistent;
      net_place = v.net_place;
      can_place = owner ∙ v.can_place;
      net_gone = v.net_gone;
      can_gone = λ h. thread ∙ v.can_gone h;
    }
Step-InOrder {p} (calls_net {to = to} m e) v =
    let (place, gone, other, joined) = net_call-keeps m p.at to e in
    record {
      net_consistent = Step-IsConsistent m v.net_consistent;
      can_consistent = v.can_consistent;
      net_place = place;
      can_place = v.can_place ∙ sym other;
      net_gone = gone;
      can_gone = λ h. v.can_gone (sym joined ∙ h);
    }
Step-InOrder {p} (calls_can {to = to} m e) v =
    let (place, gone, other, joined) = can_call-keeps m p.at to e in
    record {
      net_consistent = v.net_consistent;
      can_consistent = Step-IsConsistent m v.can_consistent;
      net_place = v.net_place ∙ sym other;
      can_place = place;
      net_gone = λ h. v.net_gone (joined h);
      can_gone = gone;
    }
Step-InOrder {p} (net_start_fails e) v = moves-InOrder p can_start v (cc) (cc) (λ h. cc) (λ h. cc)
Step-InOrder {p} (can_start_fails e) v = moves-InOrder p waits v (cc) (cc) (λ h. cc) (λ h. cc)
Step-InOrder {p} (signal s e) v = elim (Bool-cases (ends_wait s)) [
  | inl over ↦ rw over (moves-InOrder p net_stop v (cc) (cc) (λ h. cc) (λ h. cc))
  | inr more ↦ rw more (moves-InOrder p waits v (cc) (cc) (λ h. cc) (λ h. cc))
]
Step-InOrder {p} (clears_pools e) v = moves-InOrder p at_end v (cc) (cc) (λ h. cc) (λ h. cc)

at_start-InOrder : InOrder at_start
at_start-InOrder = record {
  net_consistent = new_thread-IsConsistent;
  can_consistent = new_thread-IsConsistent;
  net_place = refl;
  can_place = refl;
  net_gone = λ h. absurd (cc);
  can_gone = λ h. absurd (cc);
}

Reach-InOrder : {p q : Program} → InOrder p → Reach p q → InOrder q
Reach-InOrder v here = v
Reach-InOrder v (next r s) = Step-InOrder s (Reach-InOrder v r)

-- A thread that was joined: nothing of it runs, it is not started, and its destructor does nothing.
abbrev pub IsOver : Thread → Type 0
IsOver t = (is_live t.worker ≡ false) × (t.started ≡ false) × (destroy t ≡ some t)

-- Whatever the interleaving of main with its two threads, whether their starts fail, and whatever signals
-- come: when main clears the pools of the frame buffers, and after that, nothing of either thread runs
-- that could use a frame, and the destructors of both do nothing.
pub Reach-IsOver :
    (p : Program) → Reach at_start p → can_joined p.at ≡ true → IsOver p.net × IsOver p.can
Reach-IsOver p r done =
    let v = Reach-InOrder at_start-InOrder r in
    let net_too : net_joined p.at ≡ true = ground (arith, done) in
    (
      IsConsistent-joined v.net_consistent (v.net_gone net_too) (ground (arith, v.net_place, done)),
      IsConsistent-joined v.can_consistent (v.can_gone done) (ground (arith, v.can_place, done)),
    )
