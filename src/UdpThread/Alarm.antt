-- ===== src/UdpThread/Alarm.antt =====
-- The transmit timer of udpthread.cpp: it runs as long as frames wait.
use cannelloni.Prelude.{
  ℕ, ◌^◌, ◌<◌, ◌≡◌, ◌⊎◌, inl, inr, Bool, true, false, Option, none, some, [], arith, ltb, ◌==◌,
  if◌then◌else◌, Bool-cases,
}
use cannelloni.Frame.{Frame, arbitration_id}
use cannelloni.Timer.{
  ItimerSpec, at_least_one, adjust, disable, enable, fire, is_enabled, get_value, to_itimerspec,
}
use cannelloni.Timer.Laws.{ReadsBack, interval_of, adjust_lem}
use cannelloni.UdpThread.{UdpThread, find, ensure_enabled, shorten, transmit_frame}
use cannelloni.UdpThread.Deadline.{InRange, transmit_frame-arms}
use cannelloni.UdpThread.Run.{arm}

if-cases : {A : Type 0} (P : A → Type 0) (b : Bool) (x y : A) → P x → P y → P (if b then x else y)
if-cases P true x y p q = p
if-cases P false x y p q = q

module _ {Fd : Type 0} (gettime : Fd → ItimerSpec) (settime : ItimerSpec → Fd → Fd) where
  -- The interval of a timer is not zero.
  abbrev pub IsPeriodic : Fd → Type 0
  IsPeriodic fd = (0 < interval_of gettime settime fd) × (interval_of gettime settime fd < 2 ^ 64)

  -- If frames wait, the transmit timer runs, and so it will expire.
  pub record WillSend (t : UdpThread Fd) : Type 0 where
    pub waits : (t.frame_buffer.buffer ≡ []) ⊎ (0 < get_value gettime settime t.transmit_timer)
    pub periodic : IsPeriodic t.transmit_timer
    pub timeout_range : t.timeout < 2 ^ 32
    pub table : InRange t.timeout_table

  module _ (law : ReadsBack gettime settime) where
    adjust-IsPeriodic :
        (interval value : ℕ) (fd : Fd)
        → interval < 2 ^ 64
        → IsPeriodic (adjust gettime settime interval value fd)
    unfolding adjust interval_of to_itimerspec at_least_one
    adjust-IsPeriodic interval value fd range =
        rw (law (to_itimerspec (at_least_one interval) (at_least_one value)) fd) (ground arith)

    enable-IsPeriodic : (fd : Fd) → IsPeriodic fd → IsPeriodic (enable gettime settime fd)
    unfolding enable interval_of
    enable-IsPeriodic fd h = rw law h

    pub disable-IsPeriodic : (fd : Fd) → IsPeriodic fd → IsPeriodic (disable gettime settime fd)
    unfolding disable interval_of
    disable-IsPeriodic fd h = rw law h

    fire-IsPeriodic : (fd : Fd) → IsPeriodic (fire gettime settime fd)
    unfolding fire
    fire-IsPeriodic fd = adjust-IsPeriodic _ 1 fd (omega arith)

    ensure_enabled-IsPeriodic :
        (fd : Fd) → IsPeriodic fd → IsPeriodic (ensure_enabled gettime settime fd)
    unfolding ensure_enabled
    ensure_enabled-IsPeriodic fd h = elim (Bool-cases (is_enabled gettime settime fd)) [
      | inl on ↦ rw on h
      | inr off ↦ rw off (enable-IsPeriodic fd h)
    ]

    shorten-IsPeriodic :
        (timeout : ℕ) (entry : Option ℕ) (fd : Fd)
        → timeout < 2 ^ 64
        → IsPeriodic fd
        → IsPeriodic (shorten gettime settime timeout entry fd)
    unfolding shorten
    shorten-IsPeriodic timeout none fd range h = h
    shorten-IsPeriodic timeout (some entry) fd range h = elim (Bool-cases (ltb entry timeout)) [
      | inr later ↦ rw later h
      | inl sooner ↦ elim (Bool-cases (ltb entry (get_value gettime settime fd))) [
        | inl late ↦ rw (sooner, late) (adjust-IsPeriodic timeout entry fd range)
        | inr early ↦ rw (sooner, early) h
      ]
    ]

    transmit_frame-IsPeriodic :
        (f : Frame) (t : UdpThread Fd)
        → t.timeout < 2 ^ 64
        → IsPeriodic t.transmit_timer
        → IsPeriodic (transmit_frame gettime settime f t).transmit_timer
    unfolding transmit_frame
    transmit_frame-IsPeriodic f t range h =
        let timer = ensure_enabled gettime settime t.transmit_timer in
        if-cases IsPeriodic _ _ _ (fire-IsPeriodic timer) (
          shorten-IsPeriodic t.timeout (find (arbitration_id f.can_id) t.timeout_table) timer range
            (ensure_enabled-IsPeriodic t.transmit_timer h))

    -- `transmitFrame` starts the timer if it does not run.
    pub transmit_frame-WillSend :
        (f : Frame) (t : UdpThread Fd) → WillSend t → WillSend (transmit_frame gettime settime f t)
    unfolding transmit_frame
    transmit_frame-WillSend f t w = record {
      waits = inr (transmit_frame-arms gettime settime law f t w.periodic.0 w.periodic.1 w.table).1;
      periodic = transmit_frame-IsPeriodic f t (omega (arith, w.timeout_range)) w.periodic;
      timeout_range = w.timeout_range;
      table = w.table;
    }

    adjust-runs :
        (interval value : ℕ) (fd : Fd)
        → value < 2 ^ 64
        → 0 < get_value gettime settime (adjust gettime settime interval value fd)
    unfolding at_least_one
    adjust-runs interval value fd range =
        let set : get_value gettime settime (adjust gettime settime interval value fd)
            ≡ (if value == 0 then 1 else value) =
          (adjust_lem gettime settime interval value fd law range).0 in
        rw set (ground arith)

    -- What `run` does before its loop makes the timer periodic, and starts it.
    pub arm-WillSend :
        (t : UdpThread Fd)
        → t.timeout < 2 ^ 32
        → InRange t.timeout_table
        → WillSend (arm gettime settime t)
    unfolding arm
    arm-WillSend t range table = record {
      waits = inr (adjust-runs t.timeout t.timeout t.transmit_timer (omega (arith, range)));
      periodic = adjust-IsPeriodic t.timeout t.timeout t.transmit_timer (omega arith);
      timeout_range = range;
      table = table;
    }

    pub arm-runs :
        (t : UdpThread Fd)
        → t.timeout < 2 ^ 32
        → 0 < get_value gettime settime (arm gettime settime t).transmit_timer
    unfolding arm
    arm-runs t range = adjust-runs t.timeout t.timeout t.transmit_timer (omega (arith, range))
