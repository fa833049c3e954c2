-- ===== src/FrameBuffer/Everywhere.antt =====
-- What holds of each frame in a frame buffer of framebuffer.cpp, wherever it stands.
use cannelloni.Prelude.{
  ℕ, zero, suc, ◌+◌, ◌≡◌, inl, inr, Bool, true, false, Option, none, some, List, [], ◌∷◌, arith,
  ltb, leb, Bool-cases, All, All-append,
}
use cannelloni.Frame.{Frame}
use cannelloni.FrameBuffer.{
  FrameBuffer, new_frame, new_frames, resize_pool, grow_pool, take_pool, after_growing, is_empty,
  request_frame, request_buffer_back, take_last, split_last, insert_frame,
}

-- A frame that may be missing.
abbrev pub Given : (Frame → Type 0) → Option Frame → Type 0
Given Q none = Unit {0}
Given Q (some f) = Q f

module _ (Q : Frame → Type 0) where
  pub record Everywhere (b : FrameBuffer) : Type 0 where
    pub in_pool : All Q b.frame_pool
    pub in_buffer : All Q b.buffer
    pub in_intermediate : All Q b.intermediate_buffer

  -- What `requestFrame` may give; a fault is excluded apart from this.
  abbrev pub GivesGood : Option (Option Frame × FrameBuffer) → Type 0
  GivesGood none = Unit {0}
  GivesGood (some (r, b)) = Given Q r × Everywhere b

  All-split_last :
      (f : Frame) (fs : List Frame)
      → All Q (f ∷ fs)
      → All Q (split_last f fs).0 × Q (split_last f fs).1
  unfolding split_last
  All-split_last f [] (h, hs) = (tt, h)
  All-split_last f (g ∷ gs) (h, hs) = let (init, last) = All-split_last g gs hs in ((h, init), last)

  take_last-GivesGood :
      (fs : List Frame) (b : FrameBuffer)
      → All Q fs
      → Everywhere b
      → GivesGood (some (take_last fs b))
  unfolding take_last
  take_last-GivesGood [] b h e = (tt, e)
  take_last-GivesGood (f ∷ fs) b h e =
      let (init, last) = All-split_last f fs h in
      (last, record { in_pool = e.in_pool; in_buffer = init; in_intermediate = e.in_intermediate })

  take_pool-GivesGood :
      (fs : List Frame) (b : FrameBuffer) → All Q fs → Everywhere b → GivesGood (take_pool fs b)
  unfolding take_pool
  take_pool-GivesGood [] b h e = tt
  take_pool-GivesGood (f ∷ fs) b (h, hs) e =
      (h, record { in_pool = hs; in_buffer = e.in_buffer; in_intermediate = e.in_intermediate })

  after_growing-GivesGood :
      (overwrite_last resized : Bool) (pool : List Frame) (b : FrameBuffer)
      → All Q pool
      → Everywhere b
      → GivesGood (after_growing overwrite_last resized pool b)
  unfolding after_growing request_buffer_back
  after_growing-GivesGood true true pool b h e = take_pool-GivesGood pool b h e
  after_growing-GivesGood false true pool b h e = take_pool-GivesGood pool b h e
  after_growing-GivesGood true false pool b h e = take_last-GivesGood b.buffer b e.in_buffer e
  after_growing-GivesGood false false [] b h e = (tt, e)
  after_growing-GivesGood false false (f ∷ fs) b h e = take_pool-GivesGood (f ∷ fs) b h e

  module _ (fresh : (addr : ℕ) → Q (new_frame addr)) where
    All-new_frames : (n addr : ℕ) → All Q (new_frames n addr)
    unfolding new_frames
    All-new_frames zero addr = tt
    All-new_frames (suc n) addr = (fresh addr, All-new_frames n (addr + 1))

    resize_pool-Everywhere :
        (size : ℕ) (b : FrameBuffer) → Everywhere b → Everywhere (resize_pool size b).1
    unfolding resize_pool
    resize_pool-Everywhere size b e = record {
      in_pool = All-append Q b.frame_pool _ e.in_pool (All-new_frames size b.next_addr);
      in_buffer = e.in_buffer;
      in_intermediate = e.in_intermediate;
    }

    grow_pool-Everywhere : (b : FrameBuffer) → Everywhere b → Everywhere (grow_pool b).1
    unfolding grow_pool
    grow_pool-Everywhere b e = elim (Bool-cases (ltb 0 b.max_alloc_count)) [
      | inr unlimited ↦ rw unlimited (resize_pool-Everywhere b.total_alloc_count b e)
      | inl limited ↦ rw limited (elim (Bool-cases (leb b.max_alloc_count b.total_alloc_count)) [
        | inl full ↦ rw full e
        | inr room ↦ rw room (resize_pool-Everywhere _ b e)
      ])
    ]

    -- What holds of each frame in the buffer, and of a new one, holds of the frame that
    -- `requestFrame` gives, and of each frame that is in the buffer afterwards.
    pub request_frame-GivesGood :
        (overwrite_last : Bool) (b : FrameBuffer)
        → Everywhere b
        → GivesGood (request_frame overwrite_last b)
    unfolding request_frame
    request_frame-GivesGood overwrite_last b e = elim (Bool-cases (is_empty b.frame_pool)) [
      | inl empty ↦ rw empty (
          after_growing-GivesGood overwrite_last (grow_pool b).0 _ (grow_pool b).1
            (grow_pool-Everywhere b e).in_pool (grow_pool-Everywhere b e))
      | inr ready ↦ rw ready (take_pool-GivesGood b.frame_pool b e.in_pool e)
    ]

  pub insert_frame-Everywhere :
      (f : Frame) (b : FrameBuffer) → Q f → Everywhere b → Everywhere (insert_frame f b)
  unfolding insert_frame
  insert_frame-Everywhere f b q e = record {
    in_pool = e.in_pool;
    in_buffer = All-append Q b.buffer (f ∷ []) e.in_buffer (q, tt);
    in_intermediate = e.in_intermediate;
  }

-- Any frame of the pool will do.
pub request_frame-pool :
    (overwrite_last : Bool) (b : FrameBuffer) (f : Frame) (fs : List Frame)
    → b.frame_pool ≡ f ∷ fs
    → request_frame overwrite_last b ≡ some (some f, record b { frame_pool = fs })
unfolding request_frame
request_frame-pool overwrite_last b f fs e = ground (arith, e)
