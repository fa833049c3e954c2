-- ===== src/FrameBuffer/Steps.antt =====
-- The frame buffer of framebuffer.cpp in use: any callers, in any order. A step is one operation; the
-- mutexes make the operations atomic, so a history of the program's threads is a sequence of steps.
use cannelloni.Prelude.{ℕ, ◌≤◌, ◌<◌, ◌≡◌, subst, Bool, Option, some, List, [], ◌∷◌, arith}
use cannelloni.Frame.{Frame}
use cannelloni.FrameBuffer.{
  FrameBuffer, size_mod, init, insert_frame_pool, insert_frame, return_frame, request_buffer_front,
  request_buffer_back, request_frame, swap_buffers, sort_intermediate_buffer,
  merge_intermediate_buffer, return_intermediate_buffer, reset,
}
use cannelloni.FrameBuffer.Count.{occurrences}
use cannelloni.FrameBuffer.Invariant.{
  IsSound, taken, init-IsSound, insert_frame_pool-IsSound, insert_frame-IsSound,
  return_frame-IsSound, request_buffer_front-IsSound, request_buffer_back-IsSound,
}
use cannelloni.FrameBuffer.Request.{RequestIsSound, request_frame-IsSound}
use cannelloni.FrameBuffer.Flush.{
  IsTracked, swap_buffers-IsSound, sort_intermediate_buffer-IsSound,
  merge_intermediate_buffer-IsSound, return_intermediate_buffer-IsSound, reset-IsSound,
}

-- Of the frames that callers hold, one stands at the address of `f`; the others are `rest`. The
-- caller may have written to its frame since it got it.
abbrev pub Holds : List Frame → Frame → List Frame → Type 0
Holds held f rest = (a : ℕ) → occurrences a held ≡ occurrences a (f ∷ rest)

pub data Step : FrameBuffer → List Frame → FrameBuffer → List Frame → Type 0 where
  requests :
      {b b' : FrameBuffer} {held : List Frame} {r : Option Frame} (overwrite_last : Bool)
      → request_frame overwrite_last b ≡ some (r, b')
      → Step b held b' (taken r held)
  gives_back :
      {b : FrameBuffer} {held rest : List Frame} (f : Frame)
      → Holds held f rest
      → Step b held (insert_frame_pool f b) rest
  inserts :
      {b : FrameBuffer} {held rest : List Frame} (f : Frame)
      → Holds held f rest
      → Step b held (insert_frame f b) rest
  returns :
      {b : FrameBuffer} {held rest : List Frame} (f : Frame)
      → Holds held f rest
      → Step b held (return_frame f b) rest
  takes_front :
      {b : FrameBuffer} {held : List Frame}
      → Step b held (request_buffer_front b).1 (taken (request_buffer_front b).0 held)
  takes_back :
      {b : FrameBuffer} {held : List Frame}
      → Step b held (request_buffer_back b).1 (taken (request_buffer_back b).0 held)
  swaps : {b : FrameBuffer} {held : List Frame} → Step b held (swap_buffers b) held
  sorts : {b : FrameBuffer} {held : List Frame} → Step b held (sort_intermediate_buffer b) held
  merges : {b : FrameBuffer} {held : List Frame} → Step b held (merge_intermediate_buffer b) held
  returns_from :
      {b : FrameBuffer} {held : List Frame} (start : ℕ)
      → Step b held (return_intermediate_buffer start b) held
  resets : {b : FrameBuffer} {held : List Frame} → Step b held (reset b) held

pub data Reach (b : FrameBuffer) (held : List Frame) : FrameBuffer → List Frame → Type 0 where
  here : Reach b held b held
  next :
      {b' b'' : FrameBuffer} {held' held'' : List Frame}
      → Reach b held b' held'
      → Step b' held' b'' held''
      → Reach b held b'' held''

Holds-IsSound :
    (b : FrameBuffer) (held rest : List Frame) (f : Frame)
    → Holds held f rest
    → IsSound b held
    → IsSound b (f ∷ rest)
Holds-IsSound b held rest f h v = record {
  once = λ a. omega (arith, h a, v.once a);
  sized = v.sized;
  counted = v.counted;
  bounded = v.bounded;
  max_range = v.max_range;
}

-- Each swap of a run finds the counter of the intermediate buffer right, as it is behind a merge.
abbrev pub StepInOrder :
    {b b' : FrameBuffer} {held held' : List Frame} → Step b held b' held' → Type 0
StepInOrder (requests o e) = Unit {0}
StepInOrder (gives_back f h) = Unit {0}
StepInOrder (inserts f h) = Unit {0}
StepInOrder (returns f h) = Unit {0}
StepInOrder takes_front = Unit {0}
StepInOrder takes_back = Unit {0}
StepInOrder (swaps {b = b}) = IsTracked b
StepInOrder sorts = Unit {0}
StepInOrder merges = Unit {0}
StepInOrder (returns_from start) = Unit {0}
StepInOrder resets = Unit {0}

abbrev pub SwapsInOrder :
    {b : FrameBuffer} {held : List Frame} {b' : FrameBuffer} {held' : List Frame}
    → Reach b held b' held'
    → Type 0
SwapsInOrder here = Unit {0}
SwapsInOrder (next r s) = SwapsInOrder r × StepInOrder s

pub Step-IsSound :
    {b b' : FrameBuffer} {held held' : List Frame}
    → (s : Step b held b' held') → StepInOrder s
    → IsSound b held
    → IsSound b' held'
Step-IsSound (requests {b = b} {held = held} overwrite e) o v =
    subst (RequestIsSound held) e (request_frame-IsSound overwrite b held v)
Step-IsSound (gives_back {b = b} {held = held} {rest = rest} f h) o v =
    insert_frame_pool-IsSound f b rest (Holds-IsSound b held rest f h v)
Step-IsSound (inserts {b = b} {held = held} {rest = rest} f h) o v =
    insert_frame-IsSound f b rest (Holds-IsSound b held rest f h v)
Step-IsSound (returns {b = b} {held = held} {rest = rest} f h) o v =
    return_frame-IsSound f b rest (Holds-IsSound b held rest f h v)
Step-IsSound (takes_front {b = b} {held = held}) o v = request_buffer_front-IsSound b held v
Step-IsSound (takes_back {b = b} {held = held}) o v = request_buffer_back-IsSound b held v
Step-IsSound (swaps {b = b} {held = held}) t v = (swap_buffers-IsSound b held t v).0
Step-IsSound (sorts {b = b} {held = held}) o v = sort_intermediate_buffer-IsSound b held v
Step-IsSound (merges {b = b} {held = held}) o v = (merge_intermediate_buffer-IsSound b held v).0
Step-IsSound (returns_from {b = b} {held = held} start) o v =
    return_intermediate_buffer-IsSound start b held v
Step-IsSound (resets {b = b} {held = held}) o v = (reset-IsSound b held v).0

Reach-IsSound :
    {b : FrameBuffer} {held : List Frame} {b' : FrameBuffer} {held' : List Frame}
    (r : Reach b held b' held')
    → SwapsInOrder r
    → IsSound b held
    → IsSound b' held'
Reach-IsSound here o v = v
Reach-IsSound (next r s) o v = Step-IsSound s o.1 (Reach-IsSound r o.0 v)

-- After any history of operations on a new buffer in which each swap finds the counter of the intermediate
-- buffer right, as behind a merge: each frame that was allocated is in exactly one of the pool, the
-- buffer, the intermediate buffer and the callers' hands; `m_bufferSize` is the sum of what the program
-- takes for the sizes of the buffer's frames (mod 2 ^ 64), in which the data of a remote frame counts;
-- and no more frames were allocated than the limit.
pub Reach-init-IsSound :
    (size max : ℕ) {b : FrameBuffer} {held : List Frame}
    → (0 < max → size ≤ max)
    → max < size_mod
    → (r : Reach (init size max) [] b held) → SwapsInOrder r
    → IsSound b held
Reach-init-IsSound size max fits range r order =
    Reach-IsSound r order (init-IsSound size max fits range)
