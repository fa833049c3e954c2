-- ===== src/CanThread/Calls.antt =====
-- The calls of write(2) that `CANThread::transmitBuffer` of canthread.cpp is to make, as a function of
-- the frames.
use cannelloni.Prelude.{
  ℕ, ◌≡◌, ◌⊎◌, inl, inr, Bool, true, false, ◌||◌, List, [], ◌∷◌, ◌++◌, arith, if◌then◌else◌,
  Bool-cases,
}
use cannelloni.Frame.{Frame, is_fd}
use cannelloni.CanThread.{writes, drops, attempt, clear_fd, can_mtu, canfd_mtu}

-- The frame as it goes to the socket, or into the pool if it is dropped.
unfoldable pub handled : Bool → Frame → Frame
handled canfd f = if canfd || is_fd f then clear_fd f else f

-- The calls of write(2) for frames that are handled one after the other.
unfoldable pub calls : Bool → List Frame → List (Frame × ℕ)
calls canfd [] = []
calls canfd (f ∷ fs) =
    if canfd
    then (handled canfd f, if is_fd f then canfd_mtu else can_mtu) ∷ calls canfd fs
    else if is_fd f
    then calls canfd fs
    else (handled canfd f, can_mtu) ∷ calls canfd fs

-- A frame whose write failed goes back to the front, as it was handled.
unfoldable pub requeued : Bool → List Frame → List Frame
requeued canfd [] = []
requeued canfd (f ∷ fs) = handled canfd f ∷ fs

unfoldable pub first_call : Bool → List Frame → List (Frame × ℕ)
first_call canfd [] = []
first_call canfd (f ∷ fs) = calls canfd (f ∷ [])

pub calls-cons :
    (canfd : Bool) (f : Frame) (fs : List Frame)
    → calls canfd (f ∷ fs) ≡ calls canfd (f ∷ []) ++ calls canfd fs
unfolding calls
calls-cons canfd f fs = ground arith

-- A round drops the frame and calls nothing, or calls write(2) with it.
pub attempt_cases :
    (canfd : Bool) (f : Frame)
    → ((attempt canfd f ≡ drops (handled canfd f)) × (calls canfd (f ∷ []) ≡ []))
      ⊎ ((mtu : ℕ) × (attempt canfd f ≡ writes (handled canfd f) mtu)
          × (calls canfd (f ∷ []) ≡ (handled canfd f, mtu) ∷ []))
unfolding attempt calls handled
attempt_cases true f = inr (if is_fd f then canfd_mtu else can_mtu, ground arith, ground arith)
attempt_cases false f = elim (Bool-cases (is_fd f)) [
  | inl fd ↦ inl (ground arith, ground arith)
  | inr classic ↦ inr (can_mtu, ground arith, ground arith)
]
