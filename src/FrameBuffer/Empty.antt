-- ===== src/FrameBuffer/Empty.antt =====
-- `requestFrame` of framebuffer.cpp on a buffer in which no frame waits.
use cannelloni.Prelude.{
  ◌≡◌, refl, ◌∙◌, inl, inr, Bool, true, false, Option, none, some, List, [], ◌∷◌, arith, Bool-cases,
}
use cannelloni.Frame.{Frame}
use cannelloni.FrameBuffer.{
  FrameBuffer, request_frame, request_buffer_back, take_last, take_pool, after_growing, grow_pool,
  resize_pool, is_empty,
}

-- What `requestFrame` gives, if no frame waited: none does now.
abbrev pub StaysEmpty : Option (Option Frame × FrameBuffer) → Type 0
StaysEmpty none = Unit {0}
StaysEmpty (some (r, b)) = b.buffer ≡ []

after_growing-StaysEmpty :
    (overwrite_last resized : Bool) (pool : List Frame) (b : FrameBuffer)
    → b.buffer ≡ []
    → StaysEmpty (after_growing overwrite_last resized pool b)
unfolding after_growing take_pool request_buffer_back take_last
after_growing-StaysEmpty overwrite_last true [] b e = tt
after_growing-StaysEmpty overwrite_last true (f ∷ fs) b e = e
after_growing-StaysEmpty true false pool b e = rw e refl
after_growing-StaysEmpty false false [] b e = e
after_growing-StaysEmpty false false (f ∷ fs) b e = e

take_pool-StaysEmpty :
    (pool : List Frame) (b : FrameBuffer) → b.buffer ≡ [] → StaysEmpty (take_pool pool b)
unfolding take_pool
take_pool-StaysEmpty [] b e = tt
take_pool-StaysEmpty (f ∷ fs) b e = e

grow_pool-buffer : (b : FrameBuffer) → (grow_pool b).1.buffer ≡ b.buffer
unfolding grow_pool resize_pool
grow_pool-buffer b = ground arith

pub request_frame-StaysEmpty :
    (overwrite_last : Bool) (b : FrameBuffer)
    → b.buffer ≡ []
    → StaysEmpty (request_frame overwrite_last b)
unfolding request_frame
request_frame-StaysEmpty overwrite_last b e = elim (Bool-cases (is_empty b.frame_pool)) [
  | inl dry ↦ rw dry (
      after_growing-StaysEmpty overwrite_last (grow_pool b).0 (grow_pool b).1.frame_pool
        (grow_pool b).1 (grow_pool-buffer b ∙ e))
  | inr filled ↦ rw filled (take_pool-StaysEmpty b.frame_pool b e)
]
