-- ===== src/FrameBuffer/Invariant.antt =====
-- What every operation of framebuffer.cpp keeps, whoever calls it: each allocated frame is in one
-- place, the buffer's byte counter is right, and the pool stays within its bounds.
use cannelloni.Prelude.{
  ℕ, ◌+◌, ◌%◌, ◌≤◌, ◌<◌, ◌≡◌, refl, ap, ◌∙◌, Option, none, some, List, [], ◌∷◌, arith, ltb,
  if◌then◌else◌,
}
use cannelloni.Frame.{Frame}
use cannelloni.FrameBuffer.{
  FrameBuffer, size_mod, new_frames, resize_pool, init, insert_frame_pool, insert_frame,
  return_frame, take_first, request_buffer_front, take_last, request_buffer_back, split_last,
}
use cannelloni.FrameBuffer.Count.{
  occurrences, occurrences-append, occurrences-cons, occurrences-nil, occurrences-new_frames,
  occurrences-split_last,
}
use cannelloni.FrameBuffer.Size.{
  total_size, total_size-append, total_size-split_last, add_size_lem, sub_size_lem,
}

-- How many of the three lists and of the frames that callers hold are at address `a`.
abbrev pub places : ℕ → FrameBuffer → List Frame → ℕ
places a b held =
    occurrences a b.frame_pool
    + occurrences a b.buffer
    + occurrences a b.intermediate_buffer
    + occurrences a held

pub record IsSound (b : FrameBuffer) (held : List Frame) : Type 0 where
  pub once : (a : ℕ) → places a b held ≡ (if ltb a b.next_addr then 1 else 0)
  pub sized : b.buffer_size ≡ total_size b.buffer % size_mod
  pub counted : b.total_alloc_count ≡ b.next_addr % size_mod
  pub bounded : 0 < b.max_alloc_count → b.next_addr ≤ b.max_alloc_count
  pub max_range : b.max_alloc_count < size_mod

pub init-IsSound :
    (size max : ℕ) → (0 < max → size ≤ max) → max < size_mod → IsSound (init size max) []
unfolding init
init-IsSound size max h range = record {
  once = λ a. ground (arith, occurrences-nil a, occurrences-new_frames a size 0);
  sized = unfold total_size in omega arith;
  counted = omega arith;
  bounded = λ p. omega (arith, h p);
  max_range = range;
}

pub resize_pool-IsSound :
    (size : ℕ) (b : FrameBuffer) (held : List Frame)
    → IsSound b held
    → (0 < b.max_alloc_count → b.next_addr + size ≤ b.max_alloc_count)
    → IsSound (resize_pool size b).1 held
unfolding resize_pool
resize_pool-IsSound size b held v room = record {
  once = λ a. omega (
    arith,
    occurrences-append a b.frame_pool (new_frames size b.next_addr),
    occurrences-new_frames a size b.next_addr,
    v.once a,
  );
  sized = v.sized;
  counted = omega (arith, v.counted);
  bounded = room;
  max_range = v.max_range;
}

pub insert_frame_pool-IsSound :
    (f : Frame) (b : FrameBuffer) (held : List Frame)
    → IsSound b (f ∷ held)
    → IsSound (insert_frame_pool f b) held
unfolding insert_frame_pool
insert_frame_pool-IsSound f b held v = record {
  once = λ a.
      omega
        (arith, occurrences-append a b.frame_pool (f ∷ []), occurrences-cons a f held, v.once a);
  sized = v.sized;
  counted = v.counted;
  bounded = v.bounded;
  max_range = v.max_range;
}

pub insert_frame-IsSound :
    (f : Frame) (b : FrameBuffer) (held : List Frame)
    → IsSound b (f ∷ held)
    → IsSound (insert_frame f b) held
unfolding insert_frame
insert_frame-IsSound f b held v = record {
  once = λ a.
      omega (arith, occurrences-append a b.buffer (f ∷ []), occurrences-cons a f held, v.once a);
  sized =
      add_size_lem b.buffer_size (total_size b.buffer) f v.sized
      ∙ unfold total_size in omega (arith, total_size-append b.buffer (f ∷ []));
  counted = v.counted;
  bounded = v.bounded;
  max_range = v.max_range;
}

pub return_frame-IsSound :
    (f : Frame) (b : FrameBuffer) (held : List Frame)
    → IsSound b (f ∷ held)
    → IsSound (return_frame f b) held
unfolding return_frame
return_frame-IsSound f b held v = record {
  once = λ a. omega (arith, occurrences-cons a f b.buffer, occurrences-cons a f held, v.once a);
  sized =
      add_size_lem b.buffer_size (total_size b.buffer) f v.sized ∙ unfold total_size in omega arith;
  counted = v.counted;
  bounded = v.bounded;
  max_range = v.max_range;
}

-- The frame of a result, in the caller's hands.
abbrev pub taken : Option Frame → List Frame → List Frame
taken none held = held
taken (some f) held = f ∷ held

take_first-IsSound :
    (fs : List Frame) (b : FrameBuffer) (held : List Frame)
    → b.buffer ≡ fs
    → IsSound b held
    → IsSound (take_first fs b).1 (taken (take_first fs b).0 held)
unfolding take_first
take_first-IsSound [] b held e v = v
take_first-IsSound (f ∷ fs) b held e v = record {
  once = λ a.
      omega
        (arith, ap (occurrences a) e, occurrences-cons a f fs, occurrences-cons a f held, v.once a);
  sized =
      sub_size_lem b.buffer_size (total_size fs) f
        (v.sized ∙ unfold total_size in omega (arith, ap total_size e));
  counted = v.counted;
  bounded = v.bounded;
  max_range = v.max_range;
}

pub request_buffer_front-IsSound :
    (b : FrameBuffer) (held : List Frame)
    → IsSound b held
    → IsSound (request_buffer_front b).1 (taken (request_buffer_front b).0 held)
unfolding request_buffer_front
request_buffer_front-IsSound b held v = take_first-IsSound b.buffer b held refl v

take_last-IsSound :
    (fs : List Frame) (b : FrameBuffer) (held : List Frame)
    → b.buffer ≡ fs
    → IsSound b held
    → IsSound (take_last fs b).1 (taken (take_last fs b).0 held)
unfolding take_last
take_last-IsSound [] b held e v = v
take_last-IsSound (f ∷ fs) b held e v =
    let rest : List Frame = (split_last f fs).0 in
    let last : Frame = (split_last f fs).1 in
    record {
      once = λ a. omega (
        arith,
        ap (occurrences a) e,
        occurrences-split_last a f fs,
        occurrences-cons a last held,
        v.once a,
      );
      sized =
          sub_size_lem b.buffer_size (total_size rest) last
            (v.sized ∙ omega (arith, ap total_size e, total_size-split_last f fs));
      counted = v.counted;
      bounded = v.bounded;
      max_range = v.max_range;
    }

pub request_buffer_back-IsSound :
    (b : FrameBuffer) (held : List Frame)
    → IsSound b held
    → IsSound (request_buffer_back b).1 (taken (request_buffer_back b).0 held)
unfolding request_buffer_back
request_buffer_back-IsSound b held v = take_last-IsSound b.buffer b held refl v
