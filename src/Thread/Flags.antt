-- ===== src/Thread/Flags.antt =====
-- The flags of thread.cpp in each interleaving of a thread with its owner.
use cannelloni.Prelude.{◌≡◌, refl, ap, ◌≢◌, Bool, true, false, some}
use cannelloni.Thread.{
  outside, creates, created, Worker, absent, in_run, returned, resets, ended, Thread, new_thread,
  Joinable, no_thread, at_end, Step, start_sets_started, start_creates, start_sets_running, stops,
  joins, run_returns, resets_running, resets_started, Reach, here, next, is_running, destroy,
}

-- The thread is in `privRun`.
abbrev pub is_live : Worker → Bool
is_live absent = false
is_live in_run = true
is_live returned = true
is_live resets = true
is_live ended = false

Joinable-not-live : {w : Worker} → Joinable w → is_live w ≡ false
Joinable-not-live no_thread = refl
Joinable-not-live at_end = refl

pub record IsConsistent (t : Thread) : Type 0 where
  pub held : t.has_thread ≡ false → t.worker ≡ absent
  pub quiet : t.owner ≢ creates → is_live t.worker ≡ false → t.started ≡ false

pub new_thread-IsConsistent : IsConsistent new_thread
new_thread-IsConsistent = record { held = λ _. refl; quiet = λ _ _. refl }

pub Step-IsConsistent : {t u : Thread} → Step t u → IsConsistent t → IsConsistent u
Step-IsConsistent (start_sets_started e) c = record {
  held = c.held;
  quiet = λ no l. absurd (no refl);
}
Step-IsConsistent (start_creates e none_yet) c = record {
  held = λ h. absurd (cc);
  quiet = λ no l. cc;
}
Step-IsConsistent (start_sets_running e) c = record {
  held = c.held;
  quiet = λ no l. c.quiet (λ at. cc) l;
}
Step-IsConsistent (stops e) c = record { held = c.held; quiet = λ no l. refl }
Step-IsConsistent (joins e j) c = record {
  held = λ h. refl;
  quiet = λ no l. c.quiet (λ at. cc) (Joinable-not-live j);
}
Step-IsConsistent (run_returns e) c = record {
  held = λ h. absurd (cc (c.held h));
  quiet = λ no l. cc;
}
Step-IsConsistent (resets_running e) c = record {
  held = λ h. absurd (cc (c.held h));
  quiet = λ no l. cc;
}
Step-IsConsistent (resets_started e) c = record {
  held = λ h. absurd (cc (c.held h));
  quiet = λ no l. refl;
}

Reach-IsConsistent : {t u : Thread} → IsConsistent t → Reach t u → IsConsistent u
Reach-IsConsistent c here = c
Reach-IsConsistent c (next r s) = Step-IsConsistent s (Reach-IsConsistent c r)

pub IsConsistent-joined :
    {t : Thread}
    → IsConsistent t
    → t.has_thread ≡ false
    → t.owner ≡ outside
    → (is_live t.worker ≡ false) × (t.started ≡ false) × (destroy t ≡ some t)
unfolding destroy
IsConsistent-joined {t} c joined out =
    let gone : t.worker ≡ absent = c.held joined in
    let off : t.started ≡ false = c.quiet (λ at. cc) (ap is_live gone) in
    (ap is_live gone, off, rw (joined, off) refl)

-- Whatever the interleaving: once the owner has joined the thread and is outside of `start`, nothing
-- of it runs any more, so what it used can be freed; it is not started, and the destructor does
-- nothing.
pub Reach-joined :
    {t : Thread}
    → Reach new_thread t
    → t.has_thread ≡ false
    → t.owner ≡ outside
    → (is_live t.worker ≡ false) × (t.started ≡ false) × (destroy t ≡ some t)
Reach-joined r = IsConsistent-joined (Reach-IsConsistent new_thread-IsConsistent r)

-- `start` sets `m_running` when the thread is there already. If `run` returns first, the thread ends
-- and can be joined with `m_running` set for good: isRunning is true and there is no thread.
pub start_race :
    (t : Thread)
    → t.owner ≡ created
    → t.worker ≡ in_run
    → (u : Thread) × Reach t u
      × (u.worker ≡ absent)
      × (u.has_thread ≡ false)
      × (u.owner ≡ outside)
      × (is_running u ≡ true)
unfolding is_running
start_race t at live = (
  record t {
    started = false;
    running = true;
    has_thread = false;
    owner = outside;
    worker = absent;
  },
  next
      (next (next (next (next here (run_returns live)) (resets_running refl)) (resets_started refl))
        (start_sets_running at))
      (joins refl at_end),
  refl,
  refl,
  refl,
  refl,
)
