-- ===== src/Packet/Deliver.antt =====
-- What the caller of `parseFrames` of parser.cpp is meant to see.
use cannelloni.Prelude.{
  ◌≡◌, Bool, true, Option, some, List, [], ◌∷◌, ◌++◌, arith, if◌then◌else◌, length, take, drop,
}
use cannelloni.Frame.{Frame, IsValid, canfd_len, is_fd, has_data}
use cannelloni.Packet.Outcome.{◌>>=◌, ◌>>◌, M, pure}
use cannelloni.Packet.Parse.{allocate, receive}

-- The frame `g` of the allocator, with the wire content of `f`. What the wire does not carry stays:
-- the flags of a frame that is no CAN FD frame, and the array behind the data section.
unfoldable pub fill : Frame → Frame → Frame
fill f g = record g {
  can_id = f.can_id;
  len = f.len;
  flags = if is_fd f then f.flags else g.flags;
  payload =
      if has_data f.can_id
      then take (canfd_len f) f.payload ++ drop (canfd_len f) g.payload
      else g.payload;
}

-- In the states in which the caller can be, the allocator hands out frames with an array of 64 bytes,
-- as `canfd_frame` has; the caller can be in the state where such a frame was received.
abbrev pub AllocatesFrames :
    {S : Type 0} → (S → Option Frame × S) → (Frame → Bool → S → S) → (S → Type 0) → Type 0
AllocatesFrames {S} frame_allocator frame_receiver CanBe =
    (s s' : S) (g : Frame)
    → CanBe s
    → frame_allocator s ≡ (some g, s')
    → (length g.payload ≡ 64)
      × ((f : Frame) → IsValid f → CanBe (frame_receiver (fill f g) true s'))

module _ {S : Type 0} (frame_allocator : S → Option Frame × S)
    (frame_receiver : Frame → Bool → S → S) where
  -- What a receiver is meant to see: each frame, in order, in memory of the allocator's.
  unfoldable pub deliver : List Frame → M S (Unit {0})
  deliver [] = pure tt
  deliver (f ∷ fs) = do
    g ← allocate frame_allocator frame_receiver
    receive frame_allocator frame_receiver (fill f g) true
    deliver fs

  -- A frame that could be allocated is filled and received.
  pub deliver-cons :
      (f g : Frame) (fs : List Frame) (s s' : S)
      → frame_allocator s ≡ (some g, s')
      → deliver (f ∷ fs) s ≡ deliver fs (frame_receiver (fill f g) true s')
  unfolding deliver allocate receive
  deliver-cons f g fs s s' e = ground (arith, e)
