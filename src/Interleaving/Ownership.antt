-- ===== src/Interleaving/Ownership.antt =====
-- Who has which frame, in any interleaving of the single accesses of canthread.cpp and udpthread.cpp.
use cannelloni.Prelude.{
  ℕ, ◌<◌, ◌≡◌, refl, subst, inl, inr, Bool, true, false, Option, none, some, List, [], ◌∷◌, ◌++◌,
  arith, ltb, ◌==◌, Bool-cases,
}
use cannelloni.Frame.{Frame}
use cannelloni.FrameBuffer.{FrameBuffer, request_frame}
use cannelloni.FrameBuffer.Invariant.{IsSound, taken}
use cannelloni.FrameBuffer.Request.{RequestIsSound, request_frame-IsSound}
use cannelloni.FrameBuffer.Flush.{IsTracked}
use cannelloni.FrameBuffer.Untouched.{
  Untouched, LeavesUntouched, request_frame-LeavesUntouched, SameFrames,
}
use cannelloni.Interleaving.{
  CanAt, outside, holding, inserted, saw_off, saw_on, NetAt, waiting, expired, saw_empty,
  saw_frames, swapped, sorted, built, returned, sent, Threads, saw_size, saw_timer, after_read,
  holds,
}

-- The frame that the thread at the CAN socket has.
abbrev pub held : CanAt → List Frame
held outside = []
held (holding f) = f ∷ []
held (inserted f) = []
held (saw_off f) = []
held (saw_on f) = []

-- From a merge to the next swap, the counter of the intermediate buffer is right.
abbrev pub Tracks : NetAt → FrameBuffer → Type 0
Tracks (returned p) b = Unit {0}
Tracks sent b = Unit {0}
Tracks waiting b = IsTracked b
Tracks expired b = IsTracked b
Tracks saw_empty b = IsTracked b
Tracks saw_frames b = IsTracked b
Tracks swapped b = Unit {0}
Tracks sorted b = Unit {0}
Tracks (built p) b = Unit {0}

-- `gone` are the frames that incomplete reads have lost.
pub record Owned {Fd : Type 0} (gone : List Frame) (s : Threads Fd) : Type 0 where
  pub sound : IsSound s.net.frame_buffer (held s.can_at ++ gone)
  pub tracks : Tracks s.net_at s.net.frame_buffer
  pub some_frames : 0 < s.net.frame_buffer.next_addr
  pub limited : 0 < s.net.frame_buffer.max_alloc_count

-- A step of the thread at the CAN socket leaves the intermediate buffer alone.
Tracks-Untouched : (at : NetAt) (b b' : FrameBuffer) → Untouched b b' → Tracks at b → Tracks at b'
unfolding IsTracked
Tracks-Untouched (returned p) b b' u t = tt
Tracks-Untouched sent b b' u t = tt
Tracks-Untouched waiting b b' u t = rw (u.0, u.1) t
Tracks-Untouched expired b b' u t = rw (u.0, u.1) t
Tracks-Untouched saw_empty b b' u t = rw (u.0, u.1) t
Tracks-Untouched saw_frames b b' u t = rw (u.0, u.1) t
Tracks-Untouched swapped b b' u t = tt
Tracks-Untouched sorted b b' u t = tt
Tracks-Untouched (built p) b b' u t = tt

pub saw_size-Tracks : (size : ℕ) (b : FrameBuffer) → IsTracked b → Tracks (saw_size size) b
unfolding saw_size
saw_size-Tracks size b t = elim (Bool-cases (size == 0)) [ inl e ↦ rw e t | inr e ↦ rw e t ]

pub after_read-Tracks : (n : ℕ) (b : FrameBuffer) → IsTracked b → Tracks (after_read n) b
unfolding after_read
after_read-Tracks n b t = elim (Bool-cases (ltb 0 n)) [ inl e ↦ rw e t | inr e ↦ rw e t ]

pub held-saw_timer : (on : Bool) (f : Frame) → held (saw_timer on f) ≡ []
unfolding saw_timer
held-saw_timer true f = refl
held-saw_timer false f = refl

held-holds : (r : Option Frame) (gone : List Frame) → held (holds r) ++ gone ≡ taken r gone
unfolding holds
held-holds none gone = refl
held-holds (some f) gone = refl

module _ {Fd : Type 0} where
  -- What is known after a step of the thread at the CAN socket.
  pub Owned-after :
      (gone gone' : List Frame) (s : Threads Fd) (b : FrameBuffer) (at : CanAt)
      → Owned gone s
      → Untouched s.net.frame_buffer b
      → IsSound b (held at ++ gone')
      → Owned gone' (record s { net = record s.net { frame_buffer = b }; can_at = at })
  Owned-after gone gone' s b at o u v = record {
    sound = v;
    tracks = Tracks-Untouched s.net_at s.net.frame_buffer b u o.tracks;
    some_frames = omega (arith, u.3, o.some_frames);
    limited = omega (arith, u.2, o.limited);
  }

  -- The frames of a frame buffer when it is known where the thread at the CAN socket stands.
  pub IsSound-at :
      {gone : List Frame} {s : Threads Fd} (at : CanAt)
      → Owned gone s
      → s.can_at ≡ at
      → IsSound s.net.frame_buffer (held at ++ gone)
  IsSound-at {gone} {s} at o e =
      subst (λ (x : CanAt). IsSound s.net.frame_buffer (held x ++ gone)) e o.sound

  pub Tracks-at :
      {gone : List Frame} {s : Threads Fd} (at : NetAt)
      → Owned gone s
      → s.net_at ≡ at
      → Tracks at s.net.frame_buffer
  Tracks-at {gone} {s} at o e = subst (λ (x : NetAt). Tracks x s.net.frame_buffer) e o.tracks

  pub request-Owned :
      (gone : List Frame) (s : Threads Fd) (r : Option Frame) (b : FrameBuffer)
      → Owned gone s
      → s.can_at ≡ outside
      → request_frame true s.net.frame_buffer ≡ some (r, b)
      → Owned gone (record s { net = record s.net { frame_buffer = b }; can_at = holds r })
  request-Owned gone s r b o out e =
      let given : RequestIsSound gone (some (r, b)) =
        subst (RequestIsSound gone) e
          (request_frame-IsSound true s.net.frame_buffer gone (IsSound-at outside o out)) in
      let untouched : LeavesUntouched s.net.frame_buffer (some (r, b)) =
        subst (LeavesUntouched s.net.frame_buffer) e
          (request_frame-LeavesUntouched true s.net.frame_buffer) in
      Owned-after gone gone s b (holds r) o untouched (rw (held-holds r gone) given)

  -- The frame buffer is as it was.
  pub same-Owned :
      (gone : List Frame) (s s' : Threads Fd)
      → Owned gone s
      → s'.net.frame_buffer ≡ s.net.frame_buffer
      → held s'.can_at ≡ held s.can_at
      → Tracks s'.net_at s'.net.frame_buffer
      → Owned gone s'
  same-Owned gone s s' o same hands t = record {
    sound = rw (same, hands) o.sound;
    tracks = t;
    some_frames = rw same o.some_frames;
    limited = rw same o.limited;
  }

  -- A step of the thread at the network that changes its frame buffer.
  pub flush-Owned :
      (gone : List Frame) (s : Threads Fd) (b : FrameBuffer) (at : NetAt)
      → Owned gone s
      → SameFrames s.net.frame_buffer b
      → IsSound b (held s.can_at ++ gone)
      → Tracks at b
      → Owned gone (record s { net = record s.net { frame_buffer = b }; net_at = at })
  flush-Owned gone s b at o same v t = record {
    sound = v;
    tracks = t;
    some_frames = rw same.1 o.some_frames;
    limited = rw same.0 o.limited;
  }
