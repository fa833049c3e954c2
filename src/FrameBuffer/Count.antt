-- ===== src/FrameBuffer/Count.antt =====
-- How often an address stands in a list of frames: the frame lists of framebuffer.cpp as multisets.
use cannelloni.Prelude.{
  ℕ, zero, suc, ◌+◌, ◌≡◌, refl, List, [], ◌∷◌, ◌++◌, arith, ltb, ◌==◌, if◌then◌else◌, take, drop,
}
use cannelloni.Frame.{Frame}
use cannelloni.FrameBuffer.{new_frame, new_frames, split_last, insert_sorted, sort}

unfoldable pub occurrences : ℕ → List Frame → ℕ
occurrences a [] = 0
occurrences a (f ∷ fs) = (if f.addr == a then 1 else 0) + occurrences a fs

pub occurrences-append :
    (a : ℕ) (fs gs : List Frame) → occurrences a (fs ++ gs) ≡ occurrences a fs + occurrences a gs
unfolding occurrences
occurrences-append a [] gs = omega arith
occurrences-append a (f ∷ fs) gs = omega (arith, occurrences-append a fs gs)

pub occurrences-cons :
    (a : ℕ) (f : Frame) (fs : List Frame)
    → occurrences a (f ∷ fs) ≡ occurrences a (f ∷ []) + occurrences a fs
unfolding occurrences
occurrences-cons a f fs = omega arith

pub occurrences-nil : (a : ℕ) → occurrences a [] ≡ 0
unfolding occurrences
occurrences-nil a = refl

pub occurrences-addr :
    (a : ℕ) (f g : Frame) → f.addr ≡ g.addr → occurrences a (f ∷ []) ≡ occurrences a (g ∷ [])
unfolding occurrences
occurrences-addr a f g e = rw e

-- New frames stand at the next addresses, each at one of its own.
pub occurrences-new_frames :
    (a n next : ℕ)
    → (if ltb a next then 1 else 0) + occurrences a (new_frames n next)
      ≡ (if ltb a (next + n) then 1 else 0)
unfolding occurrences new_frames new_frame
occurrences-new_frames a zero next = ground arith
occurrences-new_frames a (suc n) next = ground (arith, occurrences-new_frames a n (next + 1))

pub occurrences-split_last :
    (a : ℕ) (f : Frame) (fs : List Frame)
    → occurrences a (split_last f fs).0 + occurrences a ((split_last f fs).1 ∷ [])
      ≡ occurrences a (f ∷ fs)
unfolding occurrences split_last
occurrences-split_last a f [] = omega arith
occurrences-split_last a f (g ∷ gs) = omega (arith, occurrences-split_last a g gs)

occurrences-insert_sorted :
    (a : ℕ) (f : Frame) (fs : List Frame)
    → occurrences a (insert_sorted f fs) ≡ occurrences a (f ∷ fs)
unfolding occurrences insert_sorted
occurrences-insert_sorted a f [] = refl
occurrences-insert_sorted a f (g ∷ gs) = ground (arith, occurrences-insert_sorted a f gs)

pub occurrences-sort : (a : ℕ) (fs : List Frame) → occurrences a (sort fs) ≡ occurrences a fs
unfolding sort
occurrences-sort a [] = refl
occurrences-sort a (f ∷ fs) = omega (
  arith,
  occurrences-insert_sorted a f (sort fs),
  occurrences-cons a f (sort fs),
  occurrences-cons a f fs,
  occurrences-sort a fs,
)

pub occurrences-take-drop :
    (a n : ℕ) (fs : List Frame)
    → occurrences a (take n fs) + occurrences a (drop n fs) ≡ occurrences a fs
unfolding occurrences
occurrences-take-drop a zero fs = omega arith
occurrences-take-drop a (suc n) [] = omega arith
occurrences-take-drop a (suc n) (f ∷ fs) = omega (arith, occurrences-take-drop a n fs)
