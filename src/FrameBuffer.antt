-- ===== src/FrameBuffer.antt =====
-- framebuffer.h and framebuffer.cpp: the pool of frames, the buffer that producers fill and the
-- intermediate buffer that a consumer works on. A list of pointers is a list of frames, each with its
-- address; every write to a frame of the program is to one that is in none of the three lists.
-- The mutexes are left out: each operation holds those of the lists that it changes to its end.
pub mod Count
pub mod Size
pub mod Front
pub mod Invariant
pub mod Request
pub mod Flush
pub mod Order
pub mod Capacity
pub mod Empty
pub mod Steps
pub mod Teardown
pub mod Everywhere
pub mod Untouched
pub mod Locks
use cannelloni.Prelude.{
  ℕ, zero, suc, ◌+◌, ◌-◌, ◌%◌, ◌^◌, min, Bool, true, false, Option, none, some, List, [], ◌∷◌, ◌++◌,
  ltb, leb, if◌then◌else◌, take, drop, replicate,
}
use cannelloni.Frame.{Frame, canfd_len, is_fd, frame_lt, cannelloni_frame_base_size}

abbrev pub size_mod : ℕ
size_mod = 2 ^ 64

-- `next_addr` stands for the allocator: the address of the next `new canfd_frame`.
pub record FrameBuffer : Type 0 where
  pub frame_pool : List Frame
  pub buffer : List Frame
  pub intermediate_buffer : List Frame
  pub total_alloc_count : ℕ
  pub buffer_size : ℕ
  pub intermediate_buffer_size : ℕ
  pub max_alloc_count : ℕ
  pub next_addr : ℕ

-- `m_bufferSize += CANNELLONI_FRAME_BASE_SIZE + canfd_len(frame)`, and one more for CAN FD.
unfoldable pub add_size : ℕ → Frame → ℕ
add_size size f =
    let sum = (size + (cannelloni_frame_base_size + canfd_len f)) % size_mod in
    if is_fd f then (sum + 1) % size_mod else sum

unfoldable pub sub_size : ℕ → Frame → ℕ
sub_size size f =
    let difference = (size + size_mod - (cannelloni_frame_base_size + canfd_len f)) % size_mod in
    if is_fd f then (difference + size_mod - 1) % size_mod else difference

-- `new canfd_frame` and `memset(f, 0, sizeof(*f))`.
unfoldable pub new_frame : ℕ → Frame
new_frame addr = record { addr = addr; can_id = 0; len = 0; flags = 0; payload = replicate 64 0 }

unfoldable pub new_frames : ℕ → ℕ → List Frame
new_frames zero addr = []
new_frames (suc n) addr = new_frame addr ∷ new_frames n (addr + 1)

unfoldable pub resize_pool : ℕ → FrameBuffer → Bool × FrameBuffer
resize_pool size b = (
  true,
  record b {
    frame_pool = b.frame_pool ++ new_frames size b.next_addr;
    total_alloc_count = (b.total_alloc_count + size) % size_mod;
    next_addr = b.next_addr + size;
  },
)

-- The constructor.
unfoldable pub init : ℕ → ℕ → FrameBuffer
unfolding resize_pool
init size max =
    (resize_pool size (record {
      frame_pool = [];
      buffer = [];
      intermediate_buffer = [];
      total_alloc_count = 0;
      buffer_size = 0;
      intermediate_buffer_size = 0;
      max_alloc_count = max;
      next_addr = 0;
    })).1

unfoldable pub insert_frame_pool : Frame → FrameBuffer → FrameBuffer
insert_frame_pool f b = record b { frame_pool = b.frame_pool ++ (f ∷ []) }

unfoldable pub insert_frame : Frame → FrameBuffer → FrameBuffer
insert_frame f b = record b {
  buffer = b.buffer ++ (f ∷ []);
  buffer_size = add_size b.buffer_size f;
}

unfoldable pub return_frame : Frame → FrameBuffer → FrameBuffer
return_frame f b = record b { buffer = f ∷ b.buffer; buffer_size = add_size b.buffer_size f }

-- `front()` and `pop_front()`; `none` on the empty list.
take_first : List Frame → FrameBuffer → Option Frame × FrameBuffer
take_first [] b = (none, b)
take_first (f ∷ fs) b = (some f, record b { buffer = fs; buffer_size = sub_size b.buffer_size f })

unfoldable pub request_buffer_front : FrameBuffer → Option Frame × FrameBuffer
unfolding take_first
request_buffer_front b = take_first b.buffer b

-- `back()` and `pop_back()`: the list without its last element, and that element.
pub split_last : Frame → List Frame → List Frame × Frame
split_last f [] = ([], f)
split_last f (g ∷ gs) = let (init, last) = split_last g gs in (f ∷ init, last)

take_last : List Frame → FrameBuffer → Option Frame × FrameBuffer
take_last [] b = (none, b)
take_last (f ∷ fs) b =
    let (rest, last) = split_last f fs in
    (some last, record b { buffer = rest; buffer_size = sub_size b.buffer_size last })

unfoldable pub request_buffer_back : FrameBuffer → Option Frame × FrameBuffer
unfolding take_last
request_buffer_back b = take_last b.buffer b

-- What `requestFrame` does to grow an empty pool, and `resizePoolResult`.
unfoldable pub grow_pool : FrameBuffer → Bool × FrameBuffer
grow_pool b =
    if ltb 0 b.max_alloc_count
    then (if leb b.max_alloc_count b.total_alloc_count
        then (false, b)
        else resize_pool (min (b.max_alloc_count - b.total_alloc_count) b.total_alloc_count) b)
    else resize_pool b.total_alloc_count b

-- `m_framePool.front()` and `pop_front()`; `none` is undefined behaviour, on an empty pool.
take_pool : List Frame → FrameBuffer → Option (Option Frame × FrameBuffer)
take_pool [] b = none
take_pool (f ∷ fs) b = some (some f, record b { frame_pool = fs })

-- The last part of `requestFrame`: the pool was empty, and `resizePool` was tried.
after_growing : Bool → Bool → List Frame → FrameBuffer → Option (Option Frame × FrameBuffer)
after_growing overwrite_last true pool b = take_pool pool b
after_growing true false pool b = some (request_buffer_back b)
after_growing false false [] b = some (none, b)
after_growing false false (f ∷ fs) b = take_pool (f ∷ fs) b

pub is_empty : List Frame → Bool
is_empty [] = true
is_empty (f ∷ fs) = false

unfoldable pub request_frame : Bool → FrameBuffer → Option (Option Frame × FrameBuffer)
unfolding is_empty take_pool after_growing
request_frame overwrite_last b =
    if is_empty b.frame_pool
    then (let (resized, b') = grow_pool b in after_growing overwrite_last resized b'.frame_pool b')
    else take_pool b.frame_pool b

unfoldable pub swap_buffers : FrameBuffer → FrameBuffer
swap_buffers b = record b {
  buffer = b.intermediate_buffer;
  intermediate_buffer = b.buffer;
  buffer_size = b.intermediate_buffer_size;
  intermediate_buffer_size = b.buffer_size;
}

-- `std::list::sort(canfd_frame_comp())`, which is stable: equal frames keep their order.
unfoldable pub insert_sorted : Frame → List Frame → List Frame
insert_sorted f [] = f ∷ []
insert_sorted f (g ∷ gs) = if frame_lt g f then g ∷ insert_sorted f gs else f ∷ g ∷ gs

unfoldable pub sort : List Frame → List Frame
sort [] = []
sort (f ∷ fs) = insert_sorted f (sort fs)

unfoldable pub sort_intermediate_buffer : FrameBuffer → FrameBuffer
sort_intermediate_buffer b = record b { intermediate_buffer = sort b.intermediate_buffer }

unfoldable pub merge_intermediate_buffer : FrameBuffer → FrameBuffer
merge_intermediate_buffer b = record b {
  frame_pool = b.frame_pool ++ b.intermediate_buffer;
  intermediate_buffer = [];
  intermediate_buffer_size = 0;
}

-- The loop of `returnIntermediateBuffer`: `kept` stands before the iterator.
unfoldable pub return_loop : List Frame → List Frame → FrameBuffer → FrameBuffer
return_loop kept [] b = b
return_loop kept (f ∷ rest) b =
    return_loop kept rest (return_frame f (record b { intermediate_buffer = kept ++ rest }))

-- The iterator is the number of elements before it.
unfoldable pub return_intermediate_buffer : ℕ → FrameBuffer → FrameBuffer
return_intermediate_buffer start b =
    return_loop (take start b.intermediate_buffer) (drop start b.intermediate_buffer) b

unfoldable pub reset : FrameBuffer → FrameBuffer
reset b = record b {
  frame_pool = (b.frame_pool ++ b.intermediate_buffer) ++ b.buffer;
  buffer = [];
  intermediate_buffer = [];
  intermediate_buffer_size = 0;
  buffer_size = 0;
}

-- The frames that are deleted, in order, and what is left: only the pool is emptied.
unfoldable pub clear_pool : FrameBuffer → List Frame × FrameBuffer
clear_pool b = (
  b.frame_pool ++ b.intermediate_buffer ++ b.buffer,
  record b { frame_pool = []; total_alloc_count = 0 },
)

-- The destructor.
unfoldable pub destroy : FrameBuffer → List Frame × FrameBuffer
unfolding clear_pool
destroy b = clear_pool b

unfoldable pub get_frame_buffer_size : FrameBuffer → ℕ
get_frame_buffer_size b = b.buffer_size
