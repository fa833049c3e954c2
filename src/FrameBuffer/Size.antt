-- ===== src/FrameBuffer/Size.antt =====
-- The byte counters of framebuffer.cpp: what they are meant to count, and the two ways they change.
use cannelloni.Prelude.{ℕ, ◌+◌, ◌%◌, ◌<◌, ◌≡◌, List, [], ◌∷◌, ◌++◌, arith}
use cannelloni.Frame.{Frame, canfd_len, frame_size}
use cannelloni.FrameBuffer.{add_size, sub_size, split_last, size_mod}

unfoldable pub total_size : List Frame → ℕ
total_size [] = 0
total_size (f ∷ fs) = frame_size f + total_size fs

pub total_size-append : (fs gs : List Frame) → total_size (fs ++ gs) ≡ total_size fs + total_size gs
unfolding total_size
total_size-append [] gs = omega arith
total_size-append (f ∷ fs) gs = omega (arith, total_size-append fs gs)

pub total_size-split_last :
    (f : Frame) (fs : List Frame)
    → total_size (split_last f fs).0 + frame_size (split_last f fs).1 ≡ total_size (f ∷ fs)
unfolding total_size split_last
total_size-split_last f [] = omega arith
total_size-split_last f (g ∷ gs) = omega (arith, total_size-split_last g gs)

-- The counters count modulo 2 ^ 64.
pub add_size_lem :
    (size n : ℕ) (f : Frame) → size ≡ n % size_mod → add_size size f ≡ (n + frame_size f) % size_mod
unfolding add_size frame_size
add_size_lem size n f e = ground arith

pub canfd_len-lt : (f : Frame) → canfd_len f < 256
unfolding canfd_len
canfd_len-lt f = omega arith

pub sub_size_lem :
    (size n : ℕ) (f : Frame) → size ≡ (n + frame_size f) % size_mod → sub_size size f ≡ n % size_mod
unfolding sub_size frame_size
sub_size_lem size n f e = ground (arith, canfd_len-lt f)
