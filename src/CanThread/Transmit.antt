-- ===== src/CanThread/Transmit.antt =====
-- `CANThread::transmitBuffer` of canthread.cpp: it ends, and what it has done by then.
use cannelloni.Prelude.{
  ℕ, zero, suc, ◌+◌, ◌<◌, ◌≡◌, refl, sym, ap, subst, ◌∙◌, inl, inr, Bool, true, false, Option, some,
  List, [], ◌∷◌, ◌++◌, map, append-nil, append_assoc, arith, Bool-cases, length,
}
use mathlib.Core.Bool.{false≢true}
use cannelloni.Frame.{Frame}
use cannelloni.FrameBuffer.{insert_frame_pool, return_frame, sub_size}
use cannelloni.FrameBuffer.Front.{request_buffer_front-nil, request_buffer_front-cons}
use cannelloni.Timer.{ItimerSpec}
use cannelloni.CanThread.Calls.{handled, calls, requeued, first_call, calls-cons, attempt_cases}
use cannelloni.CanThread.{
  CanThread, writes, drops, attempt, Sent, is_written, written, not_written, log, do_attempt,
  one_round, transmit_loop, transmit_buffer,
}

module _ {Fd : Type 0} (gettime : Fd → ItimerSpec) (settime : ItimerSpec → Fd → Fd)
    (write : ℕ → Frame → ℕ → Option ℕ) where
  -- A call of write(2) with the first frame failed.
  abbrev pub FirstFailed : Bool → List Frame → Type 0
  FirstFailed canfd [] = Unit {0}
  FirstFailed canfd (f ∷ fs) = (k mtu : ℕ) × (is_written (write k (handled canfd f) mtu) ≡ false)

  -- The frames `done` were written or dropped. The frames `left` stay, because the write of the first
  -- of them failed.
  abbrev pub Transmits : CanThread Fd → Sent Fd → Type 0
  Transmits t s =
      (done left : List Frame) × (t.frame_buffer.buffer ≡ done ++ left)
      × (s.frames ≡ calls t.canfd done ++ first_call t.canfd left)
      × (s.thread.frame_buffer.frame_pool ≡ t.frame_buffer.frame_pool ++ map (handled t.canfd) done)
      × (s.thread.frame_buffer.buffer ≡ requeued t.canfd left)
      × FirstFailed t.canfd left

  Transmits-nil :
      (t : CanThread Fd)
      → t.frame_buffer.buffer ≡ []
      → Transmits t (record { frames = []; thread = t })
  unfolding calls first_call requeued
  Transmits-nil t e = ([], [], e, refl, sym (append-nil t.frame_buffer.frame_pool), e, tt)

  -- A frame was handled, and the thread went on from `t1`.
  Transmits-cons :
      (t t1 : CanThread Fd) (s : Sent Fd) (f : Frame) (fs : List Frame)
      → t.frame_buffer.buffer ≡ f ∷ fs
      → t1.frame_buffer.buffer ≡ fs
      → t1.canfd ≡ t.canfd
      → t1.frame_buffer.frame_pool ≡ t.frame_buffer.frame_pool ++ (handled t.canfd f ∷ [])
      → Transmits t1 s
      → Transmits t (record s { frames = calls t.canfd (f ∷ []) ++ s.frames })
  Transmits-cons t t1 s f fs e e1 ec ep (done, left, p, q, r, u, why) = (
    f ∷ done,
    left,
    e ∙ ap (◌∷◌ f) (sym e1 ∙ p),
    rw (calls-cons t.canfd f done, q, ec)
        (sym
          (append_assoc (calls t.canfd (f ∷ [])) (calls t.canfd done) (first_call t.canfd left))),
    rw (r, ep, ec)
        (append_assoc t.frame_buffer.frame_pool (handled t.canfd f ∷ [])
          (map (handled t.canfd) done)),
    rw (u, ec) refl,
    subst (λ (c : Bool). FirstFailed c left) ec why,
  )

  -- The write of the first frame failed.
  Transmits-fail :
      (t : CanThread Fd) (s : Sent Fd) (f : Frame) (fs : List Frame) (k mtu : ℕ)
      → t.frame_buffer.buffer ≡ f ∷ fs
      → s.frames ≡ calls t.canfd (f ∷ [])
      → s.thread.frame_buffer.buffer ≡ handled t.canfd f ∷ fs
      → s.thread.frame_buffer.frame_pool ≡ t.frame_buffer.frame_pool
      → is_written (write k (handled t.canfd f) mtu) ≡ false
      → Transmits t s
  unfolding calls first_call requeued
  Transmits-fail t s f fs k mtu e es eb ep failed =
      ([], f ∷ fs, e, es, ep ∙ sym (append-nil t.frame_buffer.frame_pool), eb, (k, mtu, failed))

  -- The thread when a frame was taken.
  popped : CanThread Fd → Frame → List Frame → CanThread Fd
  popped t f fs = record t {
    frame_buffer = record t.frame_buffer {
      buffer = fs;
      buffer_size = sub_size t.frame_buffer.buffer_size f;
    };
  }

  loop_cons :
      (fuel k : ℕ) (t : CanThread Fd) (f : Frame) (fs : List Frame)
      → t.frame_buffer.buffer ≡ f ∷ fs
      → transmit_loop gettime settime write (suc fuel) k t
        ≡ do_attempt gettime settime write
            (transmit_loop gettime settime write fuel)
            k
            (attempt t.canfd f)
            (popped t f fs)
  unfolding transmit_loop one_round popped
  loop_cons fuel k t f fs e = rw (request_buffer_front-cons t.frame_buffer f fs e)

  abbrev Ends : ℕ → ℕ → CanThread Fd → Type 0
  Ends fuel k t =
      (s : Sent Fd) × (transmit_loop gettime settime write fuel k t ≡ some s) × Transmits t s

  dropped : CanThread Fd → Frame → List Frame → CanThread Fd
  dropped t f fs = record t {
    frame_buffer = insert_frame_pool (handled t.canfd f) (popped t f fs).frame_buffer;
  }

  round_drop :
      (fuel k : ℕ) (t : CanThread Fd) (f : Frame) (fs : List Frame)
      → t.frame_buffer.buffer ≡ f ∷ fs
      → attempt t.canfd f ≡ drops (handled t.canfd f)
      → calls t.canfd (f ∷ []) ≡ []
      → Ends fuel k (dropped t f fs)
      → Ends (suc fuel) k t
  unfolding dropped popped insert_frame_pool do_attempt
  round_drop fuel k t f fs e a c (s, r, p) = (
    s,
    loop_cons fuel k t f fs e ∙ rw a r,
    subst (λ (xs : List (Frame × ℕ)). Transmits t (record s { frames = xs ++ s.frames })) c
        (Transmits-cons t (dropped t f fs) s f fs e refl refl refl p),
  )

  round_write :
      (fuel k mtu : ℕ) (t : CanThread Fd) (f : Frame) (fs : List Frame)
      → t.frame_buffer.buffer ≡ f ∷ fs
      → attempt t.canfd f ≡ writes (handled t.canfd f) mtu
      → calls t.canfd (f ∷ []) ≡ (handled t.canfd f, mtu) ∷ []
      → is_written (write k (handled t.canfd f) mtu) ≡ true
      → Ends fuel (k + 1) (written gettime settime (handled t.canfd f) (popped t f fs))
      → Ends (suc fuel) k t
  unfolding popped insert_frame_pool do_attempt written log
  round_write fuel k mtu t f fs e a c success (s, r, p) = (
    record s { frames = (handled t.canfd f, mtu) ∷ s.frames },
    loop_cons fuel k t f fs e ∙ rw (a, success, r) refl,
    subst (λ (xs : List (Frame × ℕ)). Transmits t (record s { frames = xs ++ s.frames })) c
        (Transmits-cons t (written gettime settime (handled t.canfd f) (popped t f fs)) s f fs e
          refl refl refl p),
  )

  round_fail :
      (fuel k mtu : ℕ) (t : CanThread Fd) (f : Frame) (fs : List Frame)
      → t.frame_buffer.buffer ≡ f ∷ fs
      → attempt t.canfd f ≡ writes (handled t.canfd f) mtu
      → calls t.canfd (f ∷ []) ≡ (handled t.canfd f, mtu) ∷ []
      → is_written (write k (handled t.canfd f) mtu) ≡ false
      → Ends (suc fuel) k t
  unfolding popped return_frame do_attempt not_written
  round_fail fuel k mtu t f fs e a c failed =
      let s : Sent Fd = record {
        frames = (handled t.canfd f, mtu) ∷ [];
        thread = not_written gettime settime (handled t.canfd f) (popped t f fs);
      } in
      (
        s,
        loop_cons fuel k t f fs e ∙ rw (a, failed) refl,
        Transmits-fail t s f fs k mtu e (sym c) refl refl failed,
      )

  transmit_loop_lem :
      (fuel k : ℕ) (t : CanThread Fd) (fs : List Frame)
      → t.frame_buffer.buffer ≡ fs
      → length fs < fuel
      → Ends fuel k t
  transmit_loop_lem zero k t fs e h = absurd (omega arith)
  transmit_loop_lem (suc fuel) k t [] e h = (
    record { frames = []; thread = t },
    unfold transmit_loop one_round in rw (request_buffer_front-nil t.frame_buffer e) refl,
    Transmits-nil t e,
  )
  transmit_loop_lem (suc fuel) k t (f ∷ fs) e h = elim (attempt_cases t.canfd f) [
    | inl (a, c) ↦ round_drop fuel k t f fs e a c (
        transmit_loop_lem fuel k (dropped t f fs) fs
          (unfold dropped popped insert_frame_pool in refl) (omega arith))
    | inr (mtu, a, c) ↦ elim (Bool-cases (is_written (write k (handled t.canfd f) mtu))) [
      | inl success ↦ round_write fuel k mtu t f fs e a c success (
          transmit_loop_lem fuel (k + 1)
            (written gettime settime (handled t.canfd f) (popped t f fs)) fs
            (unfold written popped insert_frame_pool in refl) (omega arith))
      | inr failed ↦ round_fail fuel k mtu t f fs e a c failed
    ]
  ]

  -- `transmitBuffer` ends. It has handled the frames of a prefix of the buffer in order, each by one
  -- call of write(2) or, if it is a CAN FD frame on a socket without CAN FD, by none; they are back in
  -- the pool. The others are still in the buffer in order, the first of them as it was handled; if
  -- there are any, the last call failed.
  pub transmit_buffer_lem :
      (t : CanThread Fd)
      → (s : Sent Fd) × (transmit_buffer gettime settime write t ≡ some s) × Transmits t s
  unfolding transmit_buffer
  transmit_buffer_lem t =
      transmit_loop_lem (length t.frame_buffer.buffer + 1) 0 t t.frame_buffer.buffer refl
        (omega arith)

  drained :
      (t : CanThread Fd) (s : Sent Fd)
      → ((k : ℕ) (f : Frame) (mtu : ℕ) → is_written (write k f mtu) ≡ true)
      → Transmits t s
      → (s.frames ≡ calls t.canfd t.frame_buffer.buffer)
        × (s.thread.frame_buffer.frame_pool
            ≡ t.frame_buffer.frame_pool ++ map (handled t.canfd) t.frame_buffer.buffer)
        × (s.thread.frame_buffer.buffer ≡ [])
  unfolding first_call requeued
  drained t s good (done, [], e, frames, pool, buffer, why) =
      let e' : t.frame_buffer.buffer ≡ done = e ∙ append-nil done in
      (frames ∙ append-nil (calls t.canfd done) ∙ ap (calls t.canfd) (sym e'), rw e' pool, buffer)
  drained t s good (done, f ∷ fs, e, frames, pool, buffer, (k, mtu, failed)) =
      absurd (false≢true (sym failed ∙ good k (handled t.canfd f) mtu))

  -- If no write fails, `transmitBuffer` empties the buffer: every frame is written in order, or
  -- dropped, and is in the pool afterwards.
  pub transmit_buffer-drains :
      (t : CanThread Fd)
      → ((k : ℕ) (f : Frame) (mtu : ℕ) → is_written (write k f mtu) ≡ true)
      → (s : Sent Fd) × (transmit_buffer gettime settime write t ≡ some s)
        × (s.frames ≡ calls t.canfd t.frame_buffer.buffer)
        × (s.thread.frame_buffer.frame_pool
            ≡ t.frame_buffer.frame_pool ++ map (handled t.canfd) t.frame_buffer.buffer)
        × (s.thread.frame_buffer.buffer ≡ [])
  transmit_buffer-drains t good =
      let (s, r, p) = transmit_buffer_lem t in let (a, b, c) = drained t s good p in (s, r, a, b, c)
