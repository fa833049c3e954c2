-- ===== src/FrameBuffer/Capacity.antt =====
-- How much a frame buffer of framebuffer.cpp holds: its counter of bytes does not wrap around.
use cannelloni.Prelude.{
  ℕ, zero, suc, ◌+◌, ◌*◌, ◌%◌, ◌^◌, ◌≤◌, ◌<◌, ◌≡◌, refl, ap, ◌∙◌, ◌↔◌, List, [], ◌∷◌, arith, ltb,
  if◌then◌else◌, length,
}
use cannelloni.Frame.{Frame}
use cannelloni.Frame.Bits.{frame_size_bounds}
use cannelloni.FrameBuffer.{FrameBuffer, size_mod, get_frame_buffer_size}
use cannelloni.FrameBuffer.Count.{occurrences}
use cannelloni.FrameBuffer.Size.{canfd_len-lt, total_size}
use cannelloni.FrameBuffer.Invariant.{IsSound}

-- How many frames of the list stand below the address `n`.
unfoldable below : ℕ → List Frame → ℕ
below zero fs = 0
below (suc n) fs = below n fs + occurrences n fs

below-cons :
    (n : ℕ) (f : Frame) (fs : List Frame)
    → below n (f ∷ fs) ≡ (if ltb f.addr n then 1 else 0) + below n fs
unfolding below occurrences
below-cons zero f fs = ground arith
below-cons (suc n) f fs = ground (arith, below-cons n f fs)

below-nil : (n : ℕ) → below n [] ≡ 0
unfolding below occurrences
below-nil zero = refl
below-nil (suc n) = omega (arith, below-nil n)

below-le : (n : ℕ) (fs : List Frame) → ((a : ℕ) → occurrences a fs ≤ 1) → below n fs ≤ n
unfolding below
below-le zero fs once = omega arith
below-le (suc n) fs once = omega (arith, below-le n fs once, once n)

occurrences-own : (f : Frame) (fs : List Frame) → 0 < occurrences f.addr (f ∷ fs)
unfolding occurrences
occurrences-own f fs = ground arith

occurrences-tail : (a : ℕ) (f : Frame) (fs : List Frame) → occurrences a fs ≤ occurrences a (f ∷ fs)
unfolding occurrences
occurrences-tail a f fs = omega arith

length-below :
    (n : ℕ) (fs : List Frame)
    → ((a : ℕ) → occurrences a fs ≤ (if ltb a n then 1 else 0))
    → length fs ≤ below n fs
length-below n [] all = omega arith
length-below n (f ∷ fs) all =
    let here_below : f.addr < n = ground (arith, all f.addr, occurrences-own f fs) in
    let rest : length fs ≤ below n fs =
      length-below n fs (λ a. omega (arith, all a, occurrences-tail a f fs)) in
    ground (arith, rest, here_below, below-cons n f fs)

length-le-count :
    (n : ℕ) (fs : List Frame)
    → ((a : ℕ) → occurrences a fs ≤ (if ltb a n then 1 else 0))
    → length fs ≤ n
length-le-count n fs all =
    omega (arith, length-below n fs all, below-le n fs (λ a. ground (arith, all a)))

total_size-le : (fs : List Frame) → total_size fs ≤ 262 * length fs
unfolding total_size
total_size-le [] = omega arith
total_size-le (f ∷ fs) = omega (arith, total_size-le fs, frame_size_bounds f, canfd_len-lt f)

-- Only the empty list has no bytes.
total_size-zero : (fs : List Frame) → total_size fs ≡ 0 → fs ≡ []
unfolding total_size
total_size-zero [] e = refl
total_size-zero (f ∷ fs) e = absurd (omega (arith, e, frame_size_bounds f))

-- The counter of bytes of a sound buffer with a limit below 2 ^ 55 is zero if and only if no frame
-- waits: `getFrameBufferSize` can be used as a test for that.
pub get_frame_buffer_size-zero :
    (b : FrameBuffer) (held : List Frame)
    → IsSound b held
    → 0 < b.max_alloc_count
    → b.max_alloc_count < 2 ^ 55
    → (get_frame_buffer_size b ≡ 0) ↔ (b.buffer ≡ [])
unfolding get_frame_buffer_size
get_frame_buffer_size-zero b held v limited small = (
  λ e.
      let few : length b.buffer ≤ b.next_addr =
        length-le-count b.next_addr b.buffer (λ a. omega (arith, v.once a)) in
      total_size-zero b.buffer
        (omega (arith, e, v.sized, few, v.bounded limited, total_size-le b.buffer)),
  λ e. v.sized ∙ ap (λ fs. total_size fs % size_mod) e ∙ (unfold total_size in refl),
)
