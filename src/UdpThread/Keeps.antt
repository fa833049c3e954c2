-- ===== src/UdpThread/Keeps.antt =====
-- `prepareBuffer` of udpthread.cpp keeps its frame buffer sound, and makes progress.
use cannelloni.Prelude.{
  ℕ, ◌^◌, ◌≤◌, ◌<◌, ◌≡◌, refl, sym, ap, subst, ◌∙◌, ◌≢◌, inl, inr, Option, some, List, [], ◌∷◌,
  ◌++◌, arith, Bool-cases, Option-cases, length, All, reverse, length_pos,
}
use mathlib.Core.Path.{subst₂}
use cannelloni.Frame.{Frame, IsValid}
use cannelloni.Frame.Bits.{frame_size_bounds}
use cannelloni.FrameBuffer.Untouched.{SameFrames, return_loop-SameFrames}
use cannelloni.FrameBuffer.{
  sort_intermediate_buffer, swap_buffers, return_intermediate_buffer, merge_intermediate_buffer,
  FrameBuffer,
}
use cannelloni.FrameBuffer.Invariant.{IsSound}
use cannelloni.FrameBuffer.Flush.{
  IsTracked, swap_buffers-IsSound, sort_intermediate_buffer-IsSound,
  merge_intermediate_buffer-IsSound, return_intermediate_buffer-IsSound,
}
use cannelloni.Packet.Build.{Packet, build_packet, header}
use cannelloni.Packet.Bytes.{be16}
use cannelloni.Packet.Wire.{wires, Stops}
use cannelloni.UdpThread.{UdpThread, handle_overflow, take_over, send_packet, prepare_buffer}
use cannelloni.UdpThread.Flush.{queue, queue-IsValid, prepare_buffer_lem}

take_over-IsSound :
    {Fd : Type 0} (t : UdpThread Fd) (held : List Frame)
    → IsTracked t.frame_buffer
    → IsSound t.frame_buffer held
    → IsSound (take_over t) held
unfolding take_over
take_over-IsSound t held tracked v =
    let (swapped, _) = swap_buffers-IsSound t.frame_buffer held tracked v in
    elim (Bool-cases t.sort_frames) [
      | inl on ↦ rw on (sort_intermediate_buffer-IsSound _ held swapped)
      | inr off ↦ rw off swapped
    ]

pub handle_overflow-IsSound :
    (left : List Frame) (b : FrameBuffer) (held : List Frame)
    → IsSound b held
    → IsSound (handle_overflow left b) held
unfolding handle_overflow
handle_overflow-IsSound [] b held v = v
handle_overflow-IsSound (f ∷ fs) b held v = return_intermediate_buffer-IsSound _ b held v

send_packet-IsSound :
    {Fd : Type 0} (send : List ℕ → Option ℕ) (t : UdpThread Fd) (held : List Frame) (p : Packet)
    → IsTracked t.frame_buffer
    → IsSound t.frame_buffer held
    → IsSound (send_packet send t (take_over t) p).frame_buffer held
      × IsTracked (send_packet send t (take_over t) p).frame_buffer
unfolding send_packet
send_packet-IsSound send t held p tracked v =
    merge_intermediate_buffer-IsSound _ held
      (handle_overflow-IsSound p.overflow _ held (take_over-IsSound t held tracked v))

-- Whether the packet holds all frames or not, and whether it could be sent or not: `prepareBuffer`
-- loses no frame and gives none out twice, and both byte counters are right afterwards.
pub prepare_buffer-IsSound :
    {Fd : Type 0} (send : List ℕ → Option ℕ) (t t' : UdpThread Fd) (held : List Frame)
    (bytes : List ℕ)
    → IsTracked t.frame_buffer
    → IsSound t.frame_buffer held
    → prepare_buffer send t ≡ some (bytes, t')
    → IsSound t'.frame_buffer held × IsTracked t'.frame_buffer
unfolding prepare_buffer
prepare_buffer-IsSound {Fd} send t t' held bytes tracked v e =
    elim (Option-cases
      (build_packet t.payload_size t.sequence_number (take_over t).intermediate_buffer)) [
        | inl failed ↦ absurd (cc (rw failed at e))
        | inr (p, built) ↦
            let same : send_packet send t (take_over t) p ≡ t' = cc (rw built at e) in
            subst (λ (u : UdpThread Fd). IsSound u.frame_buffer held × IsTracked u.frame_buffer)
              same (send_packet-IsSound send t held p tracked v)
      ]

sent_some :
    (size seq_no : ℕ) (f : Frame) (fs sent left : List Frame)
    → IsValid f
    → f ∷ fs ≡ sent ++ left
    → 75 ≤ size
    → Stops size (length (header seq_no (length sent) ++ wires sent)) left
    → sent ≢ []
unfolding header be16 wires
sent_some size seq_no f fs sent left v e room stops empty =
    let first : f ∷ fs ≡ left = e ∙ ap (λ (xs : List Frame). xs ++ left) empty in
    let stops' : Stops size 5 (f ∷ fs) =
      subst₂
        (λ (xs ys : List Frame). Stops size (length (header seq_no (length xs) ++ wires xs)) ys)
        empty (sym first) stops in
    absurd (omega (arith, stops', frame_size_bounds f, v.len_fits))

-- With room for the largest frame there is, if the buffer holds any frame: `prepareBuffer` gives the
-- socket a packet with at least the first of the frames that are to be sent, and only the others are in
-- the buffer afterwards, in reverse order. This is for valid frames and an empty intermediate buffer.
pub prepare_buffer-progress :
    {Fd : Type 0} (send : List ℕ → Option ℕ) (t : UdpThread Fd) (f : Frame) (fs : List Frame)
    → queue t ≡ f ∷ fs
    → All IsValid t.frame_buffer.buffer
    → t.frame_buffer.intermediate_buffer ≡ []
    → 75 ≤ t.payload_size
    → t.payload_size < 2 ^ 16
    → (sent left : List Frame) × (t' : UdpThread Fd) × (prepare_buffer send t
        ≡ some (header t.sequence_number (length sent) ++ wires sent, t'))
      × (f ∷ fs ≡ sent ++ left)
      × (0 < length sent)
      × (t'.frame_buffer.buffer ≡ reverse left)
prepare_buffer-progress send t f fs e vs empty room u16 =
    let (sent, left, bytes, t', r, split, b, bound, stops, pool, buffer, inter, seq) =
      prepare_buffer_lem send t vs empty (omega arith) u16 in
    let valid : All IsValid (f ∷ fs) = subst (All IsValid) e (queue-IsValid t vs) in
    let some_sent : sent ≢ [] =
      sent_some t.payload_size t.sequence_number f fs sent left valid.0 (sym e ∙ split) room
        (subst (λ (xs : List ℕ). Stops t.payload_size (length xs) left) b stops) in
    (
      sent,
      left,
      t',
      r ∙ ap (λ (xs : List ℕ). some (xs, t')) b,
      sym e ∙ split,
      length_pos sent some_sent,
      buffer,
    )

take_over-SameFrames : {Fd : Type 0} (t : UdpThread Fd) → SameFrames t.frame_buffer (take_over t)
unfolding take_over swap_buffers sort_intermediate_buffer
take_over-SameFrames t = ground arith

pub handle_overflow-SameFrames :
    (left : List Frame) (b : FrameBuffer) → SameFrames b (handle_overflow left b)
unfolding handle_overflow return_intermediate_buffer
handle_overflow-SameFrames [] b = (refl, refl)
handle_overflow-SameFrames (f ∷ fs) b = return_loop-SameFrames _ _ b

-- `prepareBuffer` creates no frame.
pub prepare_buffer-SameFrames :
    {Fd : Type 0} (send : List ℕ → Option ℕ) (t t' : UdpThread Fd) (bytes : List ℕ)
    → prepare_buffer send t ≡ some (bytes, t')
    → SameFrames t.frame_buffer t'.frame_buffer
unfolding prepare_buffer send_packet merge_intermediate_buffer
prepare_buffer-SameFrames {Fd} send t t' bytes e =
    elim (Option-cases
      (build_packet t.payload_size t.sequence_number (take_over t).intermediate_buffer)) [
        | inl failed ↦ absurd (cc (rw failed at e))
        | inr (p, built) ↦
            let same : send_packet send t (take_over t) p ≡ t' = cc (rw built at e) in
            let (max, next) = take_over-SameFrames t in
            let (max', next') = handle_overflow-SameFrames p.overflow (take_over t) in
            subst (λ (u : UdpThread Fd). SameFrames t.frame_buffer u.frame_buffer) same
              (max' ∙ max, next' ∙ next)
      ]
