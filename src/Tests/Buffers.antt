-- ===== src/Tests/Buffers.antt =====
-- Runs of the frame buffer at concrete inputs.
use cannelloni.Prelude.{
  ℕ, ◌+◌, ◌*◌, ◌≡◌, refl, false, [], ◌∷◌, ◌++◌, reverse, arith, ltb, ◌==◌, if◌then◌else◌, replicate,
}
use cannelloni.Frame.{Frame, canfd_len, has_fd_bit, arbitration_id, frame_lt, frame_size}
use cannelloni.FrameBuffer.{
  FrameBuffer, init, new_frame, new_frames, resize_pool, add_size, insert_frame, request_frame,
  sort, insert_sorted, return_frame, return_loop, return_intermediate_buffer, clear_pool, destroy,
}
use cannelloni.FrameBuffer.Count.{occurrences}
use cannelloni.FrameBuffer.Size.{total_size}
use cannelloni.FrameBuffer.Invariant.{IsSound}
use cannelloni.FrameBuffer.Order.{return_intermediate_buffer_lem}
use cannelloni.FrameBuffer.Steps.{
  Reach, here, next, requests, inserts, SwapsInOrder, Reach-init-IsSound,
}
use cannelloni.FrameBuffer.Teardown.{destroy-clear_pool}

abbrev at : ℕ → ℕ → Frame
at addr id = record { addr = addr; can_id = id; len = 2; flags = 0; payload = replicate 64 0 }

-- Three frames on the way out, and one that came in meanwhile.
abbrev busy : FrameBuffer
busy = record {
  frame_pool = [];
  buffer = at 3 7 ∷ [];
  intermediate_buffer = at 0 5 ∷ at 1 5 ∷ at 2 9 ∷ [];
  total_alloc_count = 4;
  buffer_size = 7;
  intermediate_buffer_size = 21;
  max_alloc_count = 4;
  next_addr = 4;
}

-- The frames behind the iterator come back in reverse.
returned : (return_intermediate_buffer 1 busy).buffer ≡ at 2 9 ∷ at 1 5 ∷ at 3 7 ∷ []
unfolding return_intermediate_buffer return_loop return_frame
returned = refl

returned_size : (return_intermediate_buffer 1 busy).buffer_size ≡ 21
unfolding return_intermediate_buffer return_loop return_frame add_size canfd_len has_fd_bit
returned_size = refl

sorted : sort (at 0 9 ∷ at 1 5 ∷ at 2 7 ∷ at 3 5 ∷ []) ≡ at 1 5 ∷ at 3 5 ∷ at 2 7 ∷ at 0 9 ∷ []
unfolding sort insert_sorted frame_lt arbitration_id
sorted = refl

return_intermediate_buffer_lem_example :
    ((return_intermediate_buffer 1 busy).buffer ≡ reverse (at 1 5 ∷ at 2 9 ∷ []) ++ at 3 7 ∷ [])
    × ((return_intermediate_buffer 1 busy).intermediate_buffer ≡ at 0 5 ∷ [])
    × ((return_intermediate_buffer 1 busy).frame_pool ≡ [])
return_intermediate_buffer_lem_example = return_intermediate_buffer_lem 1 busy

-- Two frames, at most three, and one of them in the caller's hands.
abbrev small : FrameBuffer
small = record {
  frame_pool = [];
  buffer = new_frame 1 ∷ [];
  intermediate_buffer = [];
  total_alloc_count = 2;
  buffer_size = 5;
  intermediate_buffer_size = 0;
  max_alloc_count = 3;
  next_addr = 2;
}

abbrev full : FrameBuffer
full = record small { max_alloc_count = 2 }

once_small :
    (a : ℕ)
    → (if 1 == a then 1 else 0) + 0 + ((if 0 == a then 1 else 0) + 0) ≡ (if ltb a 2 then 1 else 0)
once_small a = ground arith

small-IsSound : IsSound small (new_frame 0 ∷ [])
unfolding occurrences total_size frame_size canfd_len has_fd_bit new_frame
small-IsSound = record {
  once = λ a. omega (arith, once_small a);
  sized = refl;
  counted = refl;
  bounded = λ p. omega arith;
  max_range = omega arith;
}

full-IsSound : IsSound full (new_frame 0 ∷ [])
unfolding occurrences total_size frame_size canfd_len has_fd_bit new_frame
full-IsSound = record {
  once = λ a. omega (arith, once_small a);
  sized = refl;
  counted = refl;
  bounded = λ p. omega arith;
  max_range = omega arith;
}

-- A new buffer of two frames, whose first frame is taken, filled and inserted.
abbrev after_insert : FrameBuffer
after_insert = record {
  frame_pool = new_frame 1 ∷ [];
  buffer = at 0 5 ∷ [];
  intermediate_buffer = [];
  total_alloc_count = 2;
  buffer_size = 7;
  intermediate_buffer_size = 0;
  max_alloc_count = 4;
  next_addr = 2;
}

inserted :
    Reach
      (init 2 4)
      []
      (insert_frame (at 0 5) (record after_insert { buffer = []; buffer_size = 0 }))
      []
unfolding init request_frame resize_pool new_frames occurrences new_frame
inserted = next (next here (requests false refl)) (inserts (at 0 5) (λ a. refl))

in_order : SwapsInOrder inserted
unfolding inserted
in_order = ((tt, tt), tt)

Reach-init-IsSound_example :
    IsSound (insert_frame (at 0 5) (record after_insert { buffer = []; buffer_size = 0 })) []
Reach-init-IsSound_example =
    Reach-init-IsSound 2 4 (λ p. omega arith) (omega arith) inserted in_order

destroy-clear_pool_example :
    occurrences 3 (clear_pool busy).0 + occurrences 3 (destroy (clear_pool busy).1).0
    ≡ occurrences 3 [] + 2 * (occurrences 3 busy.intermediate_buffer + occurrences 3 busy.buffer)
destroy-clear_pool_example = destroy-clear_pool busy 3
