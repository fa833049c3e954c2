-- ===== src/Connection.antt =====
-- connection.h and connection.cpp: `ConnectionThread`, what the thread at the CAN socket and the
-- thread at the network know of each other. A thread calls its peer's frame buffer, and the virtual
-- method `transmitFrame` of its peer.
pub mod Keeps
use cannelloni.Prelude.{◌≡◌, true, Option, List, ◌∷◌}
use mathlib.Core.Option
use cannelloni.Frame.{Frame}
use cannelloni.FrameBuffer.{FrameBuffer, insert_frame_pool, request_frame}
use cannelloni.FrameBuffer.Invariant.{IsSound}

-- The methods of a thread with the state `P`.
pub record ConnectionThread (P : Type 0) : Type 0 where
  pub get_frame_buffer : P → FrameBuffer
  pub set_frame_buffer : FrameBuffer → P → P
  pub transmit_frame : Frame → P → P

-- What a thread relies on in its peer: the buffer is a field, and `transmitFrame` takes the frame
-- over, so that its buffer has the frame afterwards and the caller has it no more.
pub record IsLawful {P : Type 0} (c : ConnectionThread P) : Type 0 where
  pub get_set : (b : FrameBuffer) (p : P) → c.get_frame_buffer (c.set_frame_buffer b p) ≡ b
  pub takes_over :
      (f : Frame) (held : List Frame) (p : P)
      → IsSound (c.get_frame_buffer p) (f ∷ held)
      → IsSound (c.get_frame_buffer (c.transmit_frame f p)) held

-- `requestFrame(true)` on the peer's buffer; `none` is a fault.
unfoldable pub request : {P : Type 0} → ConnectionThread P → P → Option (Option Frame × P)
request c p =
    Option.map (λ (r : Option Frame × FrameBuffer). (r.0, c.set_frame_buffer r.1 p))
      (request_frame true (c.get_frame_buffer p))

-- `insertFramePool` on the peer's buffer.
unfoldable pub give_back : {P : Type 0} → ConnectionThread P → Frame → P → P
give_back c f p = c.set_frame_buffer (insert_frame_pool f (c.get_frame_buffer p)) p
