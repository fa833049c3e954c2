-- ===== src/UdpThread/Flush.antt =====
-- `prepareBuffer` of udpthread.cpp: what is sent, and where the frames are afterwards.
use cannelloni.Prelude.{
  ℕ, ◌+◌, ◌-◌, ◌%◌, ◌^◌, ◌≤◌, ◌<◌, ◌≡◌, refl, ap, ◌∙◌, Option, some, List, [], ◌∷◌, ◌++◌, reverse,
  append-nil, arith, if◌then◌else◌, length, take, drop, All, length-append, take-append,
  drop-append,
}
use mathlib.Core.Path.{ap₂}
use cannelloni.Frame.{Frame, IsValid}
use cannelloni.FrameBuffer.{
  FrameBuffer, sort, insert_sorted, swap_buffers, sort_intermediate_buffer,
  merge_intermediate_buffer,
}
use cannelloni.FrameBuffer.Order.{return_intermediate_buffer_lem}
use cannelloni.Packet.Build.{header}
use cannelloni.Packet.Wire.{wires, Stops, build_packet_lem}
use cannelloni.UdpThread.{UdpThread, handle_overflow, take_over, send_packet, prepare_buffer}

module _ {κ} (P : Frame → Type κ) where
  All-insert_sorted : (f : Frame) (fs : List Frame) → P f → All P fs → All P (insert_sorted f fs)
  unfolding insert_sorted
  All-insert_sorted f [] h hs = (h, tt)
  All-insert_sorted f (g ∷ gs) h (k, ks) = ground (arith, All-insert_sorted f gs h ks)

  All-sort : (fs : List Frame) → All P fs → All P (sort fs)
  unfolding sort
  All-sort [] h = tt
  All-sort (f ∷ fs) (h, hs) = All-insert_sorted f (sort fs) h (All-sort fs hs)

-- The frames in the order in which they are to be sent.
unfoldable pub queue : {Fd : Type 0} → UdpThread Fd → List Frame
queue t = if t.sort_frames then sort t.frame_buffer.buffer else t.frame_buffer.buffer

pub queue-IsValid :
    {Fd : Type 0} (t : UdpThread Fd) → All IsValid t.frame_buffer.buffer → All IsValid (queue t)
unfolding queue
queue-IsValid t h = ground (arith, All-sort IsValid t.frame_buffer.buffer h)

length-insert_sorted : (f : Frame) (fs : List Frame) → length (insert_sorted f fs) ≡ length fs + 1
unfolding insert_sorted
length-insert_sorted f [] = omega arith
length-insert_sorted f (g ∷ gs) = ground (arith, length-insert_sorted f gs)

length-sort : (fs : List Frame) → length (sort fs) ≡ length fs
unfolding sort
length-sort [] = refl
length-sort (f ∷ fs) = omega (arith, length-insert_sorted f (sort fs), length-sort fs)

pub length-queue :
    {Fd : Type 0} (t : UdpThread Fd) → length (queue t) ≡ length t.frame_buffer.buffer
unfolding queue
length-queue t = ground (arith, length-sort t.frame_buffer.buffer)

take_over_lem :
    {Fd : Type 0} (t : UdpThread Fd)
    → ((take_over t).intermediate_buffer ≡ queue t)
      × ((take_over t).buffer ≡ t.frame_buffer.intermediate_buffer)
      × ((take_over t).frame_pool ≡ t.frame_buffer.frame_pool)
unfolding take_over queue swap_buffers sort_intermediate_buffer
take_over_lem t = ground arith

-- The frames that did not fit, the last of them first, and the others.
handle_overflow_lem :
    (b : FrameBuffer) (sent left : List Frame)
    → b.intermediate_buffer ≡ sent ++ left
    → b.buffer ≡ []
    → ((handle_overflow left b).buffer ≡ reverse left)
      × ((handle_overflow left b).intermediate_buffer ≡ sent)
      × ((handle_overflow left b).frame_pool ≡ b.frame_pool)
unfolding handle_overflow
handle_overflow_lem b sent [] e empty = (empty, e ∙ append-nil sent, refl)
handle_overflow_lem b sent (f ∷ fs) e empty =
    let start : ℕ = length b.intermediate_buffer - length (f ∷ fs) in
    let at : start ≡ length sent =
      omega (arith, ap (length {A = Frame}) e, length-append sent (f ∷ fs)) in
    let (p, q, r) = return_intermediate_buffer_lem start b in
    let behind : drop start b.intermediate_buffer ≡ f ∷ fs =
      ap (drop start) e ∙ drop-append sent (f ∷ fs) start at in
    let before : take start b.intermediate_buffer ≡ sent =
      ap (take start) e ∙ take-append sent (f ∷ fs) start at in
    (
      p
          ∙ ap₂ (λ (xs ys : List Frame). reverse xs ++ ys) behind empty
          ∙ append-nil (reverse (f ∷ fs)),
      q ∙ before,
      r,
    )

module _ {Fd : Type 0} (send : List ℕ → Option ℕ) (t : UdpThread Fd) where
  -- `prepareBuffer`, at an empty intermediate buffer: one packet is sent, with the current sequence
  -- number and the frames of a prefix of the queue. These are in the pool afterwards, also if sending
  -- failed. Those that did not fit are in the buffer again, in reverse order, and the intermediate
  -- buffer is empty. The sequence number goes up by one modulo 256.
  pub prepare_buffer_lem :
      All IsValid t.frame_buffer.buffer
      → t.frame_buffer.intermediate_buffer ≡ []
      → 5 ≤ t.payload_size
      → t.payload_size < 2 ^ 16
      → (sent left : List Frame) × (bytes : List ℕ) × (t' : UdpThread Fd) × (prepare_buffer send t
          ≡ some (bytes, t'))
        × (queue t ≡ sent ++ left)
        × (bytes ≡ header t.sequence_number (length sent) ++ wires sent)
        × (length bytes ≤ t.payload_size)
        × Stops t.payload_size (length bytes) left
        × (t'.frame_buffer.frame_pool ≡ t.frame_buffer.frame_pool ++ sent)
        × (t'.frame_buffer.buffer ≡ reverse left)
        × (t'.frame_buffer.intermediate_buffer ≡ [])
        × (t'.sequence_number ≡ (t.sequence_number + 1) % 256)
  unfolding prepare_buffer send_packet merge_intermediate_buffer
  prepare_buffer_lem vs empty room u16 =
      let (i, o, p) = take_over_lem t in
      let (sent, packet, built, bytes, split, bound, count, stops) =
        build_packet_lem t.payload_size t.sequence_number (queue t) (queue-IsValid t vs) room u16 in
      let (buffer, kept, pool) =
        handle_overflow_lem (take_over t) sent packet.overflow (i ∙ split) (o ∙ empty) in
      (
        sent,
        packet.overflow,
        packet.bytes,
        send_packet send t (take_over t) packet,
        rw (i, built) refl,
        split,
        bytes,
        bound,
        stops,
        ap₂ ◌++◌ (pool ∙ p) kept,
        buffer,
        refl,
        refl,
      )
