-- ===== src/FrameBuffer/Request.antt =====
-- `requestFrame` of framebuffer.cpp: what it returns on each branch, and that it keeps the buffer sound.
use cannelloni.Prelude.{
  ℕ, zero, suc, ◌+◌, ◌-◌, ◌<◌, min, ◌≡◌, refl, ap, ◌≢◌, inl, inr, Bool, true, false, Option, none,
  some, List, [], ◌∷◌, arith, ltb, leb, if◌then◌else◌, ltb→lt, ltb→le, Bool-cases,
}
use cannelloni.Frame.{Frame}
use cannelloni.FrameBuffer.{
  FrameBuffer, init, new_frame, new_frames, resize_pool, request_buffer_back, take_pool,
  after_growing, is_empty, grow_pool, request_frame,
}
use cannelloni.FrameBuffer.Count.{occurrences, occurrences-cons}
use cannelloni.FrameBuffer.Invariant.{
  IsSound, taken, resize_pool-IsSound, request_buffer_back-IsSound,
}

grow_pool-IsSound :
    (b : FrameBuffer) (held : List Frame) → IsSound b held → IsSound (grow_pool b).1 held
unfolding grow_pool
grow_pool-IsSound b held v = elim (Bool-cases (ltb 0 b.max_alloc_count)) [
  | inr unlimited ↦ rw unlimited (
      resize_pool-IsSound b.total_alloc_count b held v
        (λ p. absurd (omega (arith, ltb→le _ _ unlimited))))
  | inl limited ↦ rw limited (elim (Bool-cases (leb b.max_alloc_count b.total_alloc_count)) [
    | inl full ↦ rw full v
    | inr room ↦
        rw room (
          resize_pool-IsSound _ b held v (λ p. ground (arith, v.counted, v.max_range, v.bounded p)))
  ])
]

-- `none`, the front of an empty list, is excluded apart from this.
abbrev pub RequestIsSound : List Frame → Option (Option Frame × FrameBuffer) → Type 0
RequestIsSound held none = Unit {0}
RequestIsSound held (some (r, b)) = IsSound b (taken r held)

take_pool-IsSound :
    (fs : List Frame) (b : FrameBuffer) (held : List Frame)
    → b.frame_pool ≡ fs
    → IsSound b held
    → RequestIsSound held (take_pool fs b)
unfolding take_pool
take_pool-IsSound [] b held e v = tt
take_pool-IsSound (f ∷ fs) b held e v = record {
  once = λ a.
      omega
        (arith, ap (occurrences a) e, occurrences-cons a f fs, occurrences-cons a f held, v.once a);
  sized = v.sized;
  counted = v.counted;
  bounded = v.bounded;
  max_range = v.max_range;
}

after_growing-IsSound :
    (overwrite_last resized : Bool) (pool : List Frame) (b : FrameBuffer) (held : List Frame)
    → b.frame_pool ≡ pool
    → IsSound b held
    → RequestIsSound held (after_growing overwrite_last resized pool b)
unfolding after_growing
after_growing-IsSound true true pool b held e v = take_pool-IsSound pool b held e v
after_growing-IsSound false true pool b held e v = take_pool-IsSound pool b held e v
after_growing-IsSound true false pool b held e v = request_buffer_back-IsSound b held v
after_growing-IsSound false false [] b held e v = v
after_growing-IsSound false false (f ∷ fs) b held e v = take_pool-IsSound (f ∷ fs) b held e v

pub request_frame-IsSound :
    (overwrite_last : Bool) (b : FrameBuffer) (held : List Frame)
    → IsSound b held
    → RequestIsSound held (request_frame overwrite_last b)
unfolding request_frame
request_frame-IsSound overwrite_last b held v = elim (Bool-cases (is_empty b.frame_pool)) [
  | inl empty ↦ rw empty (
      after_growing-IsSound overwrite_last (grow_pool b).0 _ (grow_pool b).1 held refl
        (grow_pool-IsSound b held v))
  | inr ready ↦ rw ready (take_pool-IsSound b.frame_pool b held refl v)
]

new_frames-cons :
    (n addr : ℕ) → 0 < n → new_frames n addr ≡ new_frame addr ∷ new_frames (n - 1) (addr + 1)
unfolding new_frames
new_frames-cons zero addr h = absurd (omega arith)
new_frames-cons (suc n) addr h = ground arith

-- With frames allocated and room below the limit, an empty pool grows by as many frames as there
-- are, but not past the limit; the caller gets the first new frame, which is zeroed.
pub request_frame-grows :
    (overwrite_last : Bool) (b : FrameBuffer) (held : List Frame)
    → IsSound b held
    → b.frame_pool ≡ []
    → 0 < b.next_addr
    → b.next_addr < b.max_alloc_count
    → let n = min (b.max_alloc_count - b.next_addr) b.next_addr in
      request_frame overwrite_last b
      ≡ some (
        some (new_frame b.next_addr),
        record b {
          frame_pool = new_frames (n - 1) (b.next_addr + 1);
          total_alloc_count = b.total_alloc_count + n;
          next_addr = b.next_addr + n;
        },
      )
unfolding request_frame grow_pool resize_pool
request_frame-grows overwrite_last b held v empty some_frames room =
    let exact : b.total_alloc_count ≡ b.next_addr = omega (arith, v.counted, v.max_range) in
    let n : ℕ = min (b.max_alloc_count - b.next_addr) b.next_addr in
    ground (arith, exact, v.max_range, new_frames-cons n b.next_addr)

-- At the limit an empty pool does not grow. A caller that may overwrite gets the newest frame of the
-- buffer, any other gets a null pointer and nothing changes.
pub request_frame-full :
    (overwrite_last : Bool) (b : FrameBuffer) (held : List Frame)
    → IsSound b held
    → b.frame_pool ≡ []
    → 0 < b.max_alloc_count
    → b.next_addr ≡ b.max_alloc_count
    → request_frame overwrite_last b
      ≡ some (if overwrite_last then request_buffer_back b else (none, b))
unfolding request_frame grow_pool
request_frame-full overwrite_last b held v empty limited full =
    let exact : b.total_alloc_count ≡ b.max_alloc_count = omega (arith, v.counted, v.max_range) in
    ground (arith, exact)

take_pool-ne-none : (fs : List Frame) (b : FrameBuffer) → fs ≢ [] → take_pool fs b ≢ none
unfolding take_pool
take_pool-ne-none [] b h e = h refl
take_pool-ne-none (f ∷ fs) b h e = cc

-- `front()` is never called on an empty pool, once any frame has been allocated and there is a limit.
pub request_frame-safe :
    (overwrite_last : Bool) (b : FrameBuffer) (held : List Frame)
    → IsSound b held
    → 0 < b.next_addr
    → 0 < b.max_alloc_count
    → request_frame overwrite_last b ≢ none
request_frame-safe overwrite_last b held v some_frames limited e = go b.frame_pool refl
  where
    go : (pool : List Frame) → b.frame_pool ≡ pool → ⊥
    go (f ∷ fs) p = unfold request_frame in cc (p)
    go [] p = elim (Bool-cases (ltb b.next_addr b.max_alloc_count)) [
      | inl room ↦ cc (request_frame-grows overwrite_last b held v p some_frames (ltb→lt _ _ room))
      | inr full ↦ cc (
          request_frame-full overwrite_last b held v p limited
            (omega (arith, v.bounded limited, ltb→le _ _ full)))
    ]

-- A buffer that starts with no frame at all calls `front()` on the empty pool at its first request.
pub request_frame-init_zero :
    (overwrite_last : Bool) (max : ℕ) → request_frame overwrite_last (init 0 max) ≡ none
unfolding request_frame init grow_pool resize_pool new_frames
request_frame-init_zero overwrite_last max = ground arith
