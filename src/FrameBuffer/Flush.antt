-- ===== src/FrameBuffer/Flush.antt =====
-- The operations of framebuffer.cpp on the intermediate buffer, and `reset`.
use cannelloni.Prelude.{
  ℕ, ◌%◌, ◌≡◌, refl, sym, ap, List, [], ◌∷◌, ◌++◌, arith, take, drop, take-append-drop,
}
use cannelloni.Frame.{Frame}
use cannelloni.FrameBuffer.{
  FrameBuffer, size_mod, return_frame, swap_buffers, sort_intermediate_buffer,
  merge_intermediate_buffer, return_loop, return_intermediate_buffer, reset,
}
use cannelloni.FrameBuffer.Count.{
  occurrences, occurrences-append, occurrences-cons, occurrences-nil, occurrences-sort,
}
use cannelloni.FrameBuffer.Size.{total_size}
use cannelloni.FrameBuffer.Invariant.{IsSound, return_frame-IsSound}

-- The counter of the intermediate buffer is right; `returnIntermediateBuffer` leaves it behind, so a
-- swap is sound only before that, or after the merge that follows.
unfoldable pub IsTracked : FrameBuffer → Type 0
IsTracked b = b.intermediate_buffer_size ≡ total_size b.intermediate_buffer % size_mod

pub swap_buffers-IsSound :
    (b : FrameBuffer) (held : List Frame)
    → IsTracked b
    → IsSound b held
    → IsSound (swap_buffers b) held × IsTracked (swap_buffers b)
unfolding swap_buffers IsTracked
swap_buffers-IsSound b held t v = (
  record {
    once = λ a. omega (arith, v.once a);
    sized = t;
    counted = v.counted;
    bounded = v.bounded;
    max_range = v.max_range;
  },
  v.sized,
)

pub sort_intermediate_buffer-IsSound :
    (b : FrameBuffer) (held : List Frame)
    → IsSound b held
    → IsSound (sort_intermediate_buffer b) held
unfolding sort_intermediate_buffer
sort_intermediate_buffer-IsSound b held v = record {
  once = λ a. omega (arith, occurrences-sort a b.intermediate_buffer, v.once a);
  sized = v.sized;
  counted = v.counted;
  bounded = v.bounded;
  max_range = v.max_range;
}

pub merge_intermediate_buffer-IsSound :
    (b : FrameBuffer) (held : List Frame)
    → IsSound b held
    → IsSound (merge_intermediate_buffer b) held × IsTracked (merge_intermediate_buffer b)
unfolding merge_intermediate_buffer IsTracked total_size
merge_intermediate_buffer-IsSound b held v = (
  record {
    once = λ a. omega (
      arith,
      occurrences-append a b.frame_pool b.intermediate_buffer,
      occurrences-nil a,
      v.once a,
    );
    sized = v.sized;
    counted = v.counted;
    bounded = v.bounded;
    max_range = v.max_range;
  },
  omega arith,
)

pub reset-IsSound :
    (b : FrameBuffer) (held : List Frame)
    → IsSound b held
    → IsSound (reset b) held × IsTracked (reset b)
unfolding reset IsTracked total_size
reset-IsSound b held v = (
  record {
    once = λ a. omega (
      arith,
      occurrences-append a (b.frame_pool ++ b.intermediate_buffer) b.buffer,
      occurrences-append a b.frame_pool b.intermediate_buffer,
      occurrences-nil a,
      v.once a,
    );
    sized = omega arith;
    counted = v.counted;
    bounded = v.bounded;
    max_range = v.max_range;
  },
  omega arith,
)

-- One round of the loop: the frame is erased, so in the loop's hands, and then put back in front.
erase-IsSound :
    (kept rest : List Frame) (f : Frame) (b : FrameBuffer) (held : List Frame)
    → b.intermediate_buffer ≡ kept ++ (f ∷ rest)
    → IsSound b held
    → IsSound (record b { intermediate_buffer = kept ++ rest }) (f ∷ held)
erase-IsSound kept rest f b held e v = record {
  once = λ a. omega (
    arith,
    ap (occurrences a) e,
    occurrences-append a kept (f ∷ rest),
    occurrences-append a kept rest,
    occurrences-cons a f rest,
    occurrences-cons a f held,
    v.once a,
  );
  sized = v.sized;
  counted = v.counted;
  bounded = v.bounded;
  max_range = v.max_range;
}

return_loop-IsSound :
    (kept rest : List Frame) (b : FrameBuffer) (held : List Frame)
    → b.intermediate_buffer ≡ kept ++ rest
    → IsSound b held
    → IsSound (return_loop kept rest b) held
unfolding return_loop
return_loop-IsSound kept [] b held e v = v
return_loop-IsSound kept (f ∷ rest) b held e v =
    return_loop-IsSound kept rest _ held (unfold return_frame in refl)
      (return_frame-IsSound f _ held (erase-IsSound kept rest f b held e v))

pub return_intermediate_buffer-IsSound :
    (start : ℕ) (b : FrameBuffer) (held : List Frame)
    → IsSound b held
    → IsSound (return_intermediate_buffer start b) held
unfolding return_intermediate_buffer
return_intermediate_buffer-IsSound start b held v =
    return_loop-IsSound (take start b.intermediate_buffer) (drop start b.intermediate_buffer) b held
      (sym (take-append-drop start b.intermediate_buffer)) v
