-- ===== src/FrameBuffer/Teardown.antt =====
-- `clearPool` of framebuffer.cpp, which main of cannelloni.cpp calls before the destructor calls it
-- once more.
use cannelloni.Prelude.{ℕ, ◌+◌, ◌*◌, ◌≡◌, [], ◌++◌, arith, ltb, if◌then◌else◌}
use cannelloni.FrameBuffer.{FrameBuffer, clear_pool, destroy}
use cannelloni.FrameBuffer.Count.{occurrences, occurrences-append, occurrences-nil}
use cannelloni.FrameBuffer.Invariant.{IsSound}

-- If no caller holds a frame, `clearPool` deletes every frame that was allocated exactly once, and
-- nothing else.
pub clear_pool-deletes_all :
    (b : FrameBuffer) (a : ℕ)
    → IsSound b []
    → occurrences a (clear_pool b).0 ≡ (if ltb a b.next_addr then 1 else 0)
unfolding clear_pool
clear_pool-deletes_all b a v = omega (
  arith,
  occurrences-append a b.frame_pool (b.intermediate_buffer ++ b.buffer),
  occurrences-append a b.intermediate_buffer b.buffer,
  occurrences-append a (b.frame_pool ++ b.intermediate_buffer) b.buffer,
  occurrences-append a b.frame_pool b.intermediate_buffer,
  occurrences-nil a,
  v.once a,
)

-- `clearPool` and then the destructor delete the frames of the pool once, and those of the buffer
-- and of the intermediate buffer twice.
pub destroy-clear_pool :
    (b : FrameBuffer) (a : ℕ)
    → occurrences a (clear_pool b).0 + occurrences a (destroy (clear_pool b).1).0
      ≡ occurrences a b.frame_pool
        + 2 * (occurrences a b.intermediate_buffer + occurrences a b.buffer)
unfolding clear_pool destroy
destroy-clear_pool b a = omega (
  arith,
  occurrences-append a b.frame_pool b.intermediate_buffer,
  occurrences-append a (b.frame_pool ++ b.intermediate_buffer) b.buffer,
  occurrences-append a b.frame_pool (b.intermediate_buffer ++ b.buffer),
  occurrences-append a b.intermediate_buffer b.buffer,
  occurrences-append a [] (b.intermediate_buffer ++ b.buffer),
  occurrences-append a ([] ++ b.intermediate_buffer) b.buffer,
  occurrences-append a [] b.intermediate_buffer,
  occurrences-nil a,
)
