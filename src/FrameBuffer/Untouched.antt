-- ===== src/FrameBuffer/Untouched.antt =====
-- What operations of framebuffer.cpp leave alone.
use cannelloni.Prelude.{
  ◌≤◌, ◌≡◌, refl, ◌∙◌, inl, inr, Bool, true, false, Option, none, some, List, [], ◌∷◌, arith,
  Bool-cases,
}
use cannelloni.Frame.{Frame}
use cannelloni.FrameBuffer.{
  insert_frame, insert_frame_pool, FrameBuffer, resize_pool, grow_pool, take_pool, after_growing,
  is_empty, request_frame, request_buffer_back, take_last, return_loop, return_frame,
}

-- The intermediate buffer, its count of bytes, and the limit; frames are created, but never taken back.
abbrev pub Untouched : FrameBuffer → FrameBuffer → Type 0
Untouched b b' =
    (b'.intermediate_buffer ≡ b.intermediate_buffer)
    × (b'.intermediate_buffer_size ≡ b.intermediate_buffer_size)
    × (b'.max_alloc_count ≡ b.max_alloc_count)
    × (b.next_addr ≤ b'.next_addr)

grow_pool-Untouched : (b : FrameBuffer) → Untouched b (grow_pool b).1
unfolding grow_pool resize_pool
grow_pool-Untouched b = ground arith

take_last-Untouched : (fs : List Frame) (b : FrameBuffer) → Untouched b (take_last fs b).1
unfolding take_last
take_last-Untouched [] b = (refl, refl, refl, omega arith)
take_last-Untouched (f ∷ fs) b = (refl, refl, refl, omega arith)

-- What `requestFrame` gives; a fault is excluded apart from this.
abbrev pub LeavesUntouched : FrameBuffer → Option (Option Frame × FrameBuffer) → Type 0
LeavesUntouched b none = Unit {0}
LeavesUntouched b (some (r, b')) = Untouched b b'

after_growing-LeavesUntouched :
    (overwrite_last resized : Bool) (pool : List Frame) (b : FrameBuffer)
    → LeavesUntouched b (after_growing overwrite_last resized pool b)
unfolding after_growing take_pool request_buffer_back
after_growing-LeavesUntouched true true [] b = tt
after_growing-LeavesUntouched true true (f ∷ fs) b = (refl, refl, refl, omega arith)
after_growing-LeavesUntouched false true [] b = tt
after_growing-LeavesUntouched false true (f ∷ fs) b = (refl, refl, refl, omega arith)
after_growing-LeavesUntouched true false pool b = take_last-Untouched b.buffer b
after_growing-LeavesUntouched false false [] b = (refl, refl, refl, omega arith)
after_growing-LeavesUntouched false false (f ∷ fs) b = (refl, refl, refl, omega arith)

LeavesUntouched-trans :
    (b b' : FrameBuffer) (r : Option (Option Frame × FrameBuffer))
    → Untouched b b'
    → LeavesUntouched b' r
    → LeavesUntouched b r
LeavesUntouched-trans b b' none p k = tt
LeavesUntouched-trans b b' (some (r, b'')) p k =
    (k.0 ∙ p.0, k.1 ∙ p.1, k.2 ∙ p.2, omega (arith, p.3, k.3))

pool_case : (fs : List Frame) (b : FrameBuffer) → LeavesUntouched b (take_pool fs b)
unfolding take_pool
pool_case [] b = tt
pool_case (f ∷ fs) b = (refl, refl, refl, omega arith)

-- `requestFrame` does not touch the intermediate buffer and the limit.
pub request_frame-LeavesUntouched :
    (overwrite_last : Bool) (b : FrameBuffer) → LeavesUntouched b (request_frame overwrite_last b)
unfolding request_frame take_pool
request_frame-LeavesUntouched overwrite_last b = elim (Bool-cases (is_empty b.frame_pool)) [
  | inl empty ↦ rw empty (
      LeavesUntouched-trans b (grow_pool b).1 _ (grow_pool-Untouched b)
        (after_growing-LeavesUntouched overwrite_last (grow_pool b).0 _ (grow_pool b).1))
  | inr ready ↦ rw ready (pool_case b.frame_pool b)
]

-- The limit, and the frames that there are.
abbrev pub SameFrames : FrameBuffer → FrameBuffer → Type 0
SameFrames b b' = (b'.max_alloc_count ≡ b.max_alloc_count) × (b'.next_addr ≡ b.next_addr)

pub return_loop-SameFrames :
    (kept rest : List Frame) (b : FrameBuffer) → SameFrames b (return_loop kept rest b)
unfolding return_loop return_frame
return_loop-SameFrames kept [] b = (refl, refl)
return_loop-SameFrames kept (f ∷ rest) b = return_loop-SameFrames kept rest _

-- `insertFramePool` and `insertFrame` touch the pool and the buffer only.
pub insert-Untouched :
    (f : Frame) (b : FrameBuffer)
    → Untouched b (insert_frame f b) × Untouched b (insert_frame_pool f b)
unfolding insert_frame insert_frame_pool
insert-Untouched f b = ((refl, refl, refl, omega arith), (refl, refl, refl, omega arith))
