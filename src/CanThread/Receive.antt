-- ===== src/CanThread/Receive.antt =====
-- The part of `CANThread::run` in canthread.cpp that serves the CAN socket: a frame is received into a
-- frame of the peer's buffer.
use cannelloni.Prelude.{
  ℕ, ◌+◌, ◌%◌, ◌^◌, ◌<◌, ◌≡◌, refl, sym, ap, ◌∙◌, inl, inr, Bool, true, false, ◌||◌, Option, none,
  some, List, [], ◌∷◌, ◌++◌, arith, ◌==◌, if◌then◌else◌, Bool-cases, Option-cases,
}
use mathlib.Core.Option
use cannelloni.Frame.{Frame}
use cannelloni.FrameBuffer.Invariant.{IsSound, taken}
use cannelloni.Connection.{ConnectionThread, IsLawful, request, give_back}
use cannelloni.Connection.Keeps.{
  IsSound-same_addr, request-IsSound, give_back-IsSound, request-total,
}
use cannelloni.CanThread.{CanThread, can_mtu, canfd_mtu, set_fd, clear_fd}

-- What recv(2) returns: no data after all, an error, or the number of bytes, with what it has written
-- into the frame.
pub data Received : Type 0 where
  would_block : Received
  read_error : Received
  bytes : ℕ → (Frame → Frame) → Received

-- recv(2) writes to the frame, and does not move it.
abbrev pub StaysInPlace : Received → Type 0
StaysInPlace would_block = Unit {0}
StaysInPlace read_error = Unit {0}
StaysInPlace (bytes n fill) = (f : Frame) → (fill f).addr ≡ f.addr

-- How a round ends: whether the thread goes on, the thread, and its peer.
pub record Round (Fd P : Type 0) : Type 0 where
  pub goes_on : Bool
  pub thread : CanThread Fd
  pub peer : P

unfoldable pub count_received : {Fd : Type 0} → CanThread Fd → CanThread Fd
count_received t = record t { rx_count = (t.rx_count + 1) % 2 ^ 64 }

-- The bit for CAN FD is set or cleared.
unfoldable pub mark_fd : ℕ → Frame → Frame
mark_fd n f = if n == canfd_mtu then set_fd f else clear_fd f

module _ {Fd P : Type 0} (peer : ConnectionThread P) where
  -- After recv(2) into the frame `f`.
  unfoldable pub after_recv : Received → Frame → CanThread Fd → P → Round Fd P
  after_recv would_block f t p = record { goes_on = true; thread = t; peer = give_back peer f p }
  after_recv read_error f t p = record { goes_on = false; thread = t; peer = give_back peer f p }
  after_recv (bytes n fill) f t p =
      if n == can_mtu || n == canfd_mtu
      then record {
        goes_on = true;
        thread = count_received t;
        peer = peer.transmit_frame (mark_fd n (fill f)) p;
      }
      else record { goes_on = true; thread = t; peer = p }

  unfoldable pub receive_into : Received → CanThread Fd → Option Frame × P → Round Fd P
  receive_into received t (none, p) = record { goes_on = true; thread = t; peer = p }
  receive_into received t (some f, p) = after_recv received f t p

  unfoldable pub receive_frame : Received → CanThread Fd → P → Option (Round Fd P)
  receive_frame received t p = Option.map (receive_into received t) (request peer p)

-- The frames that are lost in a round that took `r`: recv(2) gave an incomplete frame.
unfoldable pub lost : Received → Option Frame → List Frame
lost received none = []
lost would_block (some f) = []
lost read_error (some f) = []
lost (bytes n fill) (some f) = if n == can_mtu || n == canfd_mtu then [] else f ∷ []

mark_fd-addr : (n : ℕ) (f : Frame) → (mark_fd n f).addr ≡ f.addr
unfolding mark_fd set_fd clear_fd
mark_fd-addr n f = ground arith

receive_into-frame_buffer :
    {Fd P : Type 0} (peer : ConnectionThread P) (received : Received) (t : CanThread Fd)
    (r : Option Frame × P)
    → (receive_into peer received t r).thread.frame_buffer ≡ t.frame_buffer
unfolding receive_into after_recv count_received
receive_into-frame_buffer peer received t (none, p) = refl
receive_into-frame_buffer peer would_block t (some f, p) = refl
receive_into-frame_buffer peer read_error t (some f, p) = refl
receive_into-frame_buffer peer (bytes n fill) t (some f, p) = ground arith

-- The thread's own frame buffer is not touched.
pub receive_frame-frame_buffer :
    {Fd P : Type 0} (peer : ConnectionThread P) (received : Received) (t : CanThread Fd) (p : P)
    (round : Round Fd P)
    → receive_frame peer received t p ≡ some round
    → round.thread.frame_buffer ≡ t.frame_buffer
unfolding receive_frame
receive_frame-frame_buffer {Fd} {P} peer received t p round e =
    elim (Option-cases (request peer p)) [
      | inl failed ↦ absurd (cc (rw failed at e))
      | inr (r, given) ↦
          let same : receive_into peer received t r ≡ round = cc (rw given at e) in
          ap (λ (x : Round Fd P). x.thread.frame_buffer) (sym same)
          ∙ receive_into-frame_buffer peer received t r
    ]

module _ {Fd P : Type 0} (peer : ConnectionThread P) (law : IsLawful peer) where
  receive_into-IsSound :
      (received : Received) (t : CanThread Fd) (p : P) (r : Option Frame) (held : List Frame)
      → StaysInPlace received
      → IsSound (peer.get_frame_buffer p) (taken r held)
      → IsSound
          (peer.get_frame_buffer (receive_into peer received t (r, p)).peer)
          (lost received r ++ held)
  unfolding receive_into after_recv lost
  receive_into-IsSound received t p none held stays v = v
  receive_into-IsSound would_block t p (some f) held stays v = give_back-IsSound peer law f p held v
  receive_into-IsSound read_error t p (some f) held stays v = give_back-IsSound peer law f p held v
  receive_into-IsSound (bytes n fill) t p (some f) held stays v =
      elim (Bool-cases (n == can_mtu || n == canfd_mtu)) [
        | inl whole ↦ rw whole (
            law.takes_over (mark_fd n (fill f)) held p (
              IsSound-same_addr _ held f (mark_fd n (fill f)) (mark_fd-addr n (fill f) ∙ stays f)
                v))
        | inr cut ↦ rw cut v
      ]

  -- A round at the CAN socket, with a peer whose buffer is sound, bounded and has frames, comes to an
  -- end. The frame that it took from the peer's buffer is in the pool again or with the peer by then,
  -- and nothing else has changed hands. Only if recv(2) gave an incomplete frame, the frame is in no
  -- list and with no caller: it is lost.
  pub receive_frame-IsSound :
      (received : Received) (t : CanThread Fd) (p : P) (held : List Frame)
      → StaysInPlace received
      → IsSound (peer.get_frame_buffer p) held
      → 0 < (peer.get_frame_buffer p).next_addr
      → 0 < (peer.get_frame_buffer p).max_alloc_count
      → (round : Round Fd P) × (r : Option Frame) × (p' : P) × (receive_frame peer received t p
          ≡ some round)
        × (request peer p ≡ some (r, p'))
        × IsSound (peer.get_frame_buffer round.peer) (lost received r ++ held)
  unfolding receive_frame
  receive_frame-IsSound received t p held stays v some_frames bounded =
      elim (Option-cases (request peer p)) [
        | inl failed ↦ absurd (request-total peer law p held v some_frames bounded failed)
        | inr ((r, p'), given) ↦ (
          receive_into peer received t (r, p'),
          r,
          p',
          rw given refl,
          given,
          receive_into-IsSound received t p' r held stays
              (request-IsSound peer law p p' r held v given),
        )
      ]
