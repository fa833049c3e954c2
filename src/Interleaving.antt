-- ===== src/Interleaving.antt =====
-- The way of frames from the CAN socket to the network in single accesses of the two threads, where
-- System has whole rounds: the part of `run` of canthread.cpp that receives a frame, with
-- `UDPThread::transmitFrame`, and the part of `run` of udpthread.cpp for the transmit timer, with
-- `prepareBuffer`. A step is an operation of the frame buffer, which holds its mutexes, or a call on the
-- transmit timer; the last part of transmitFrame, which sets the timer if need be, is one step. recv(2) and
-- buildPacket work on what no other thread touches.
pub mod Ownership
pub mod Safety
pub mod Rounds
pub mod LostWakeup
use cannelloni.Prelude.{
  ℕ, ◌+◌, ◌%◌, ◌≡◌, Bool, true, false, Option, none, some, List, ltb, leb, ◌==◌, ◌||◌,
  if◌then◌else◌, length,
}
use cannelloni.Frame.{
  Frame, arbitration_id, cannelloni_data_packet_base_size, cannelloni_frame_base_size,
}
use cannelloni.FrameBuffer.{
  FrameBuffer, size_mod, insert_frame_pool, insert_frame, request_frame, swap_buffers,
  sort_intermediate_buffer, merge_intermediate_buffer, get_frame_buffer_size,
}
use cannelloni.CanThread.{can_mtu, canfd_mtu}
use cannelloni.Packet.Build.{Packet, build_packet}
use cannelloni.Timer.{ItimerSpec, read, disable, enable, is_enabled, fire}
use cannelloni.UdpThread.{UdpThread, find, shorten, handle_overflow, count_sent}

-- Where the thread at the CAN socket stands: it has no frame of the peer's buffer, it has one to receive
-- into; in `transmitFrame`: it has inserted the frame, it has seen that the timer is off, it has seen to
-- it that the timer is on.
pub data CanAt : Type 0 where
  outside : CanAt
  holding : Frame → CanAt
  inserted : Frame → CanAt
  saw_off : Frame → CanAt
  saw_on : Frame → CanAt

-- Where the thread at the network stands: before `Timer::read`, behind it, behind the look at the size of
-- the buffer if that is zero, and if it is not; in `prepareBuffer`: behind each of its calls.
pub data NetAt : Type 0 where
  waiting : NetAt
  expired : NetAt
  saw_empty : NetAt
  saw_frames : NetAt
  swapped : NetAt
  sorted : NetAt
  built : Packet → NetAt
  returned : Packet → NetAt
  sent : NetAt

-- The thread over UDP, with its frame buffer and its timer, and where both threads stand.
pub record Threads (Fd : Type 0) : Type 0 where
  pub net : UdpThread Fd
  pub can_at : CanAt
  pub net_at : NetAt

unfoldable pub saw_size : ℕ → NetAt
saw_size size = if size == 0 then saw_empty else saw_frames

unfoldable pub saw_timer : Bool → Frame → CanAt
saw_timer on f = if on then saw_on f else saw_off f

unfoldable pub after_read : ℕ → NetAt
after_read expirations = if ltb 0 expirations then expired else waiting

unfoldable pub holds : Option Frame → CanAt
holds none = outside
holds (some f) = holding f

module _ {Fd : Type 0} (gettime : Fd → ItimerSpec) (settime : ItimerSpec → Fd → Fd) where
  -- The last part of `transmitFrame`.
  unfoldable pub hasten : Frame → UdpThread Fd → UdpThread Fd
  hasten f t =
      let needed =
        (get_frame_buffer_size t.frame_buffer
          + cannelloni_data_packet_base_size
          + cannelloni_frame_base_size)
        % size_mod in
      record t {
        transmit_timer =
            if leb t.payload_size needed
            then fire gettime settime t.transmit_timer
            else shorten gettime settime t.timeout (find (arbitration_id f.can_id) t.timeout_table)
                t.transmit_timer;
      }

  module _ (send : List ℕ → Option ℕ) where
    -- `sendBuffer`, and the counters.
    unfoldable pub send_built : Packet → UdpThread Fd → UdpThread Fd
    send_built p t = record t {
      sequence_number = (t.sequence_number + 1) % 256;
      tx_count = count_sent (send p.bytes) (length p.bytes) t.tx_count;
    }

    pub data Step : Threads Fd → Threads Fd → Type 0 where
      requests :
          {s : Threads Fd} (r : Option Frame) (b : FrameBuffer)
          → s.can_at ≡ outside
          → request_frame true s.net.frame_buffer ≡ some (r, b)
          → Step s (record s { net = record s.net { frame_buffer = b }; can_at = holds r })
      gives_back :
          {s : Threads Fd} (f : Frame)
          → s.can_at ≡ holding f
          → Step s (record s {
            net = record s.net { frame_buffer = insert_frame_pool f s.net.frame_buffer };
            can_at = outside;
          })
      -- recv(2) gave neither a whole frame of CAN nor one of CAN FD.
      loses :
          {s : Threads Fd} (n : ℕ) (f : Frame)
          → s.can_at ≡ holding f
          → (n == can_mtu || n == canfd_mtu) ≡ false
          → Step s (record s { can_at = outside })
      inserts :
          {s : Threads Fd} (f g : Frame)
          → s.can_at ≡ holding f
          → g.addr ≡ f.addr
          → Step s (record s {
            net = record s.net { frame_buffer = insert_frame g s.net.frame_buffer };
            can_at = inserted g;
          })
      looks_at_timer :
          {s : Threads Fd} (f : Frame)
          → s.can_at ≡ inserted f
          → Step s
              (record s { can_at = saw_timer (is_enabled gettime settime s.net.transmit_timer) f })
      enables :
          {s : Threads Fd} (f : Frame)
          → s.can_at ≡ saw_off f
          → Step s (record s {
            net = record s.net { transmit_timer = enable gettime settime s.net.transmit_timer };
            can_at = saw_on f;
          })
      hastens :
          {s : Threads Fd} (f : Frame)
          → s.can_at ≡ saw_on f
          → Step s (record s { net = hasten f s.net; can_at = outside })
      reads_timer :
          {s : Threads Fd} (num_exp : Option ℕ)
          → s.net_at ≡ waiting
          → Step s (record s { net_at = after_read (read num_exp) })
      looks_at_size :
          {s : Threads Fd}
          → s.net_at ≡ expired
          → Step s (record s { net_at = saw_size (get_frame_buffer_size s.net.frame_buffer) })
      disables :
          {s : Threads Fd}
          → s.net_at ≡ saw_empty
          → Step s (record s {
            net = record s.net { transmit_timer = disable gettime settime s.net.transmit_timer };
            net_at = waiting;
          })
      swaps :
          {s : Threads Fd}
          → s.net_at ≡ saw_frames
          → Step s (record s {
            net = record s.net { frame_buffer = swap_buffers s.net.frame_buffer };
            net_at = swapped;
          })
      sorts :
          {s : Threads Fd}
          → s.net_at ≡ swapped
          → Step s (record s {
            net = record s.net {
              frame_buffer =
                  if s.net.sort_frames
                  then sort_intermediate_buffer s.net.frame_buffer
                  else s.net.frame_buffer;
            };
            net_at = sorted;
          })
      builds :
          {s : Threads Fd} (p : Packet)
          → s.net_at ≡ sorted
          → build_packet s.net.payload_size s.net.sequence_number
              s.net.frame_buffer.intermediate_buffer
            ≡ some p
          → Step s (record s { net_at = built p })
      returns :
          {s : Threads Fd} (p : Packet)
          → s.net_at ≡ built p
          → Step s (record s {
            net = record s.net { frame_buffer = handle_overflow p.overflow s.net.frame_buffer };
            net_at = returned p;
          })
      sends :
          {s : Threads Fd} (p : Packet)
          → s.net_at ≡ returned p
          → Step s (record s { net = send_built p s.net; net_at = sent })
      merges :
          {s : Threads Fd}
          → s.net_at ≡ sent
          → Step s (record s {
            net = record s.net { frame_buffer = merge_intermediate_buffer s.net.frame_buffer };
            net_at = waiting;
          })

    pub data Reach (s : Threads Fd) : Threads Fd → Type 0 where
      here : Reach s s
      next : {t u : Threads Fd} → Reach s t → Step t u → Reach s u
