-- ===== src/Tunnel.antt =====
-- The way of frames through two instances of the program: from the buffer of the thread at the network
-- on one side, by a packet, to the CAN socket on the other side.
use cannelloni.Prelude.{
  ℕ, ◌^◌, ◌≤◌, ◌<◌, ◌≡◌, refl, ap, subst, true, false, Option, some, List, [], ◌++◌, reverse, arith,
  length, All, length-append, All-append_left,
}
use cannelloni.Frame.{Frame, IsValid}
use cannelloni.FrameBuffer.Everywhere.{Everywhere}
use cannelloni.Packet.Build.{header}
use cannelloni.Packet.Wire.{Stops, wires, length-le-length-wires}
use cannelloni.Timer.{ItimerSpec}
use cannelloni.CanThread.{CanThread, Sent, is_written, transmit_buffer, fire_timer}
use cannelloni.CanThread.{transmit_frame as can_transmit_frame}
use cannelloni.CanThread.Calls.{calls}
use cannelloni.CanThread.Transmit.{transmit_buffer-drains}
use cannelloni.UdpThread.{UdpThread, prepare_buffer}
use cannelloni.UdpThread.Flush.{queue, queue-IsValid, length-queue, prepare_buffer_lem}
use cannelloni.UdpThread.Receive.{parse_packet, count_packet}
use cannelloni.UdpThread.Deliver.{IsWhole, fills, wires-fills, Appends, parse_packet-Delivered}
use cannelloni.SctpThread.Connect.{can_thread}

module _ {Fd : Type 0} (gettime : Fd → ItimerSpec) (settime : ItimerSpec → Fd → Fd) where
  can_thread-Appends : Appends (can_thread gettime settime)
  unfolding can_thread can_transmit_frame fire_timer
  can_thread-Appends = record { get_set = λ b p. refl; appends = λ f p. refl }

  -- A side with valid frames in its buffer, none in its intermediate buffer, and a payload size that
  -- has room for a header and fits 16 bits; and the other side, whose frames have arrays of 64 bytes,
  -- whose pool has as many frames as wait on the first, and whose CAN socket takes every write: one
  -- packet is sent, with a prefix of the waiting frames, which ends at the last of them or where the
  -- packet and what the program takes for the size of the next frame, in which the data of a remote
  -- frame counts, are more than the payload size. It is read without an exception. Then transmitBuffer
  -- makes the calls of write(2) for these frames, in the order in which they were to be sent, behind
  -- those that waited there already; a frame of CAN FD is dropped at a socket without CAN FD. What these
  -- frames hold has the wire content of what was sent. The frames that were not sent wait again.
  pub tunnel :
      (send : List ℕ → Option ℕ) (write : ℕ → Frame → ℕ → Option ℕ) (near far : UdpThread Fd)
      (can : CanThread Fd) (padding : List ℕ)
      → All IsValid near.frame_buffer.buffer
      → near.frame_buffer.intermediate_buffer ≡ []
      → 5 ≤ near.payload_size
      → near.payload_size < 2 ^ 16
      → length near.frame_buffer.buffer ≤ length can.frame_buffer.frame_pool
      → Everywhere IsWhole can.frame_buffer
      → ((k : ℕ) (f : Frame) (mtu : ℕ) → is_written (write k f mtu) ≡ true)
      → (sent left : List Frame) × (bytes : List ℕ) × (near' : UdpThread Fd) × (can' : CanThread Fd)
        × (s : Sent Fd) × (queue near ≡ sent ++ left)
        × (prepare_buffer send near ≡ some (bytes, near'))
        × Stops near.payload_size (length bytes) left
        × (near'.frame_buffer.buffer ≡ reverse left)
        × (parse_packet
              (can_thread gettime settime)
              true
              far.remote_addr
              (length bytes)
              (bytes ++ padding)
              far
              can
            ≡ some (false, count_packet far, can'))
        × (transmit_buffer gettime settime write can' ≡ some s)
        × (s.frames
            ≡ calls can.canfd (can.frame_buffer.buffer ++ fills sent can.frame_buffer.frame_pool))
        × (wires (fills sent can.frame_buffer.frame_pool) ≡ wires sent)
  unfolding can_thread can_transmit_frame fire_timer
  tunnel send write near far can padding vs empty room u16 enough whole good =
      let (sent, left, bytes, near', r, split, b, bound, stops, pool, buffer, inter, seq) =
        prepare_buffer_lem send near vs empty room u16 in
      let few : length sent ≤ length near.frame_buffer.buffer =
        omega (arith, ap (length {A = Frame}) split, length-append sent left, length-queue near) in
      let valid : All IsValid sent =
        All-append_left IsValid sent left (subst (All IsValid) split (queue-IsValid near vs)) in
      let short : length sent < 2 ^ 16 = omega (
        arith,
        length-le-length-wires sent,
        ap (length {A = ℕ}) b,
        length-append (header near.sequence_number (length sent)) (wires sent),
      ) in
      let (can', read, (now, rest, fd)) =
        parse_packet-Delivered (can_thread gettime settime) can_thread-Appends
          (λ (t : CanThread Fd). t.canfd) (λ b p. refl) (λ f p. refl) far can near.sequence_number
          sent padding valid short (omega arith) whole in
      let (s, done, frames, pool', drained) =
        transmit_buffer-drains gettime settime write can' good in
      (
        sent,
        left,
        bytes,
        near',
        can',
        s,
        split,
        r,
        stops,
        buffer,
        rw b read,
        done,
        rw (frames, fd, now) refl,
        wires-fills sent can.frame_buffer.frame_pool valid (omega arith),
      )
