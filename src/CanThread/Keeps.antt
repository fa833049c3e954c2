-- ===== src/CanThread/Keeps.antt =====
-- `CANThread::transmitBuffer` of canthread.cpp keeps its frame buffer sound.
use cannelloni.Prelude.{
  ℕ, zero, suc, ◌+◌, ◌≡◌, refl, ap, subst, inl, inr, Bool, Option, none, some, List, [], ◌∷◌, arith,
  Bool-cases,
}
use cannelloni.Frame.{Frame}
use cannelloni.FrameBuffer.{FrameBuffer, request_buffer_front}
use cannelloni.FrameBuffer.Invariant.{
  IsSound, taken, insert_frame_pool-IsSound, return_frame-IsSound, request_buffer_front-IsSound,
}
use cannelloni.Connection.Keeps.{IsSound-same_addr}
use cannelloni.Timer.{ItimerSpec}
use cannelloni.CanThread.{
  CanThread, Attempt, writes, drops, attempt, Sent, clear_fd, is_written, written, not_written, log,
  do_attempt, one_round, transmit_loop, transmit_buffer,
}

-- The frame that an attempt is about.
abbrev frame_of : Attempt → Frame
frame_of (writes f mtu) = f
frame_of (drops f) = f

attempt-addr : (canfd : Bool) (f : Frame) → (frame_of (attempt canfd f)).addr ≡ f.addr
unfolding attempt clear_fd
attempt-addr canfd f = ground arith

log-some :
    {Fd : Type 0} (f : Frame) (mtu : ℕ) (r : Option (Sent Fd)) (s : Sent Fd)
    → log f mtu r ≡ some s
    → (s' : Sent Fd) × (r ≡ some s') × (s'.thread ≡ s.thread)
unfolding log
log-some f mtu none s e = absurd (cc)
log-some {Fd} f mtu (some s') s e =
    let same : record s' { frames = (f, mtu) ∷ s'.frames } ≡ s = cc in
    (s', refl, ap (λ (x : Sent Fd). x.thread) same)

module _ {Fd : Type 0} (gettime : Fd → ItimerSpec) (settime : ItimerSpec → Fd → Fd)
    (write : ℕ → Frame → ℕ → Option ℕ) (held : List Frame) where
  abbrev Sound : CanThread Fd → Type 0
  Sound t = IsSound t.frame_buffer held

  -- The rounds that follow keep the buffer sound.
  abbrev RestKeeps : (ℕ → CanThread Fd → Option (Sent Fd)) → Type 0
  RestKeeps rest =
      (k : ℕ) (t : CanThread Fd) (s : Sent Fd) → Sound t → rest k t ≡ some s → Sound s.thread

  do_attempt-Sound :
      (rest : ℕ → CanThread Fd → Option (Sent Fd)) (k : ℕ) (a : Attempt) (t : CanThread Fd)
      (s : Sent Fd)
      → RestKeeps rest
      → IsSound t.frame_buffer (frame_of a ∷ held)
      → do_attempt gettime settime write rest k a t ≡ some s
      → Sound s.thread
  unfolding do_attempt written not_written
  do_attempt-Sound rest k (drops f) t s keeps v e =
      keeps k _ s (insert_frame_pool-IsSound f t.frame_buffer held v) e
  do_attempt-Sound rest k (writes f mtu) t s keeps v e =
      elim (Bool-cases (is_written (write k f mtu))) [
        | inl success ↦
            let (s', again, same) = log-some f mtu _ s (rw success at e) in
            subst Sound same
              (keeps (k + 1) _ s' (insert_frame_pool-IsSound f t.frame_buffer held v) again)
        | inr failed ↦
            let same : not_written gettime settime f t ≡ s.thread = cc (rw failed at e) in
            subst Sound same (return_frame-IsSound f t.frame_buffer held v)
      ]

  one_round-Sound :
      (rest : ℕ → CanThread Fd → Option (Sent Fd)) (k : ℕ) (r : Option Frame × FrameBuffer)
      (t : CanThread Fd) (s : Sent Fd)
      → RestKeeps rest
      → IsSound r.1 (taken r.0 held)
      → one_round gettime settime write rest k r t ≡ some s
      → Sound s.thread
  unfolding one_round
  one_round-Sound rest k (none, b) t s keeps v e =
      let same : record { frames = []; thread = record t { frame_buffer = b } } ≡ s = cc in
      subst (λ (x : Sent Fd). Sound x.thread) same v
  one_round-Sound rest k (some f, b) t s keeps v e =
      do_attempt-Sound rest k (attempt t.canfd f) (record t { frame_buffer = b }) s keeps
        (IsSound-same_addr b held f (frame_of (attempt t.canfd f)) (attempt-addr t.canfd f) v) e

  transmit_loop-Sound : (fuel : ℕ) → RestKeeps (transmit_loop gettime settime write fuel)
  unfolding transmit_loop
  transmit_loop-Sound zero k t s v e = absurd (cc)
  transmit_loop-Sound (suc fuel) k t s v e =
      one_round-Sound (transmit_loop gettime settime write fuel) k
        (request_buffer_front t.frame_buffer) t s (transmit_loop-Sound fuel)
        (request_buffer_front-IsSound t.frame_buffer held v) e

  -- Whatever write(2) returns: `transmitBuffer` loses no frame and gives none out twice, and the count
  -- of bytes in the buffer is right afterwards.
  pub transmit_buffer-IsSound :
      (t : CanThread Fd) (s : Sent Fd)
      → IsSound t.frame_buffer held
      → transmit_buffer gettime settime write t ≡ some s
      → IsSound s.thread.frame_buffer held
  unfolding transmit_buffer
  transmit_buffer-IsSound t s v e = transmit_loop-Sound _ 0 t s v e
