-- ===== src/FrameBuffer/Front.antt =====
-- `requestBufferFront` of framebuffer.cpp on an empty buffer and on any other.
use cannelloni.Prelude.{◌≡◌, ap, none, some, List, [], ◌∷◌}
use cannelloni.Frame.{Frame}
use cannelloni.FrameBuffer.{FrameBuffer, sub_size, take_first, request_buffer_front}

pub request_buffer_front-nil :
    (b : FrameBuffer) → b.buffer ≡ [] → request_buffer_front b ≡ (none, b)
unfolding request_buffer_front take_first
request_buffer_front-nil b e = ap (λ (fs : List Frame). take_first fs b) e

pub request_buffer_front-cons :
    (b : FrameBuffer) (f : Frame) (fs : List Frame)
    → b.buffer ≡ f ∷ fs
    → request_buffer_front b
      ≡ (some f, record b { buffer = fs; buffer_size = sub_size b.buffer_size f })
unfolding request_buffer_front take_first
request_buffer_front-cons b f fs e = ap (λ (gs : List Frame). take_first gs b) e
