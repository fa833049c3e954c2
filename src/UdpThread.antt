-- ===== src/UdpThread.antt =====
-- udpthread.h and udpthread.cpp: the thread at the network. `sendto` and the timerfd calls are
-- parameters; `send bytes` is what sendBuffer returns, `none` for -1. Logging is left out.
pub mod Flush
pub mod Keeps
pub mod Deadline
pub mod Receive
pub mod Deliver
pub mod OwnBuffer
pub mod Alarm
pub mod AlarmRounds
pub mod Run
pub mod Rounds
use cannelloni.Prelude.{
  ℕ, ◌+◌, ◌-◌, ◌%◌, ◌^◌, Bool, Option, none, some, List, [], ◌∷◌, ltb, leb, ◌==◌, if◌then◌else◌,
  length,
}
use mathlib.Core.Option
use cannelloni.Frame.{
  Frame, arbitration_id, cannelloni_data_packet_base_size, cannelloni_frame_base_size,
}
use cannelloni.FrameBuffer.{
  FrameBuffer, size_mod, insert_frame, swap_buffers, sort_intermediate_buffer,
  merge_intermediate_buffer, return_intermediate_buffer, get_frame_buffer_size,
}
use cannelloni.Packet.Build.{Packet, build_packet}
use cannelloni.Timer.{ItimerSpec, get_value, adjust, disable, enable, fire, is_enabled}

-- `UDP_PAYLOAD_SIZE`: the Ethernet MTU less the IP and UDP headers.
abbrev pub udp_payload_size : ℕ
udp_payload_size = 1500 - 20 - 8

-- `SELECT_TIMEOUT`, in microseconds.
abbrev pub select_timeout : ℕ
select_timeout = 500000

-- `RECEIVE_BUFFER_SIZE`.
abbrev pub receive_buffer_size : ℕ
receive_buffer_size = 1500

-- `remote_addr` is the 32-bit address of the peer; `timeout_table` is the map as a list of pairs.
pub record UdpThread (Fd : Type 0) : Type 0 where
  pub frame_buffer : FrameBuffer
  pub transmit_timer : Fd
  pub block_timer : Fd
  pub sort_frames : Bool
  pub check_peer : Bool
  pub remote_addr : ℕ
  pub sequence_number : ℕ
  pub timeout : ℕ
  pub timeout_table : List (ℕ × ℕ)
  pub rx_count : ℕ
  pub tx_count : ℕ
  pub payload_size : ℕ

-- The constructor.
unfoldable pub init : {Fd : Type 0} → Fd → Fd → FrameBuffer → ℕ → Bool → Bool → UdpThread Fd
init transmit_timer block_timer buffer remote_addr sort_frames check_peer = record {
  frame_buffer = buffer;
  transmit_timer = transmit_timer;
  block_timer = block_timer;
  sort_frames = sort_frames;
  check_peer = check_peer;
  remote_addr = remote_addr;
  sequence_number = 0;
  timeout = 100;
  timeout_table = [];
  rx_count = 0;
  tx_count = 0;
  payload_size = udp_payload_size;
}

-- `m_timeoutTable.find(can_id)`.
unfoldable pub find : ℕ → List (ℕ × ℕ) → Option ℕ
find id [] = none
find id ((key, value) ∷ entries) = if key == id then some value else find id entries

unfoldable pub set_timeout : {Fd : Type 0} → ℕ → UdpThread Fd → UdpThread Fd
set_timeout timeout t = record t { timeout = timeout }

unfoldable pub set_timeout_table : {Fd : Type 0} → List (ℕ × ℕ) → UdpThread Fd → UdpThread Fd
set_timeout_table table t = record t { timeout_table = table }

-- `overflowHandler`, at the iterator of the first frame that was left over. buildPacket calls it
-- only if there is one.
unfoldable pub handle_overflow : List Frame → FrameBuffer → FrameBuffer
handle_overflow [] b = b
handle_overflow (f ∷ fs) b =
    return_intermediate_buffer (length b.intermediate_buffer - length (f ∷ fs)) b

-- `transmittedBytes != data-packetBuffer` is an error, which is logged.
unfoldable pub count_sent : Option ℕ → ℕ → ℕ → ℕ
count_sent none len tx_count = tx_count
count_sent (some n) len tx_count = if n == len then (tx_count + 1) % 2 ^ 64 else tx_count

-- The two buffers swapped, and the intermediate buffer sorted if the user asked for that.
unfoldable pub take_over : {Fd : Type 0} → UdpThread Fd → FrameBuffer
take_over t =
    if t.sort_frames
    then sort_intermediate_buffer (swap_buffers t.frame_buffer)
    else swap_buffers t.frame_buffer

-- After buildPacket: the packet is sent, and the frames of it go to the pool.
unfoldable pub send_packet :
    {Fd : Type 0} → (List ℕ → Option ℕ) → UdpThread Fd → FrameBuffer → Packet → UdpThread Fd
send_packet send t b p = record t {
  frame_buffer = merge_intermediate_buffer (handle_overflow p.overflow b);
  sequence_number = (t.sequence_number + 1) % 256;
  tx_count = count_sent (send p.bytes) (length p.bytes) t.tx_count;
}

-- The packet that is sent and the thread afterwards; `none` is a fault of buildPacket.
unfoldable pub prepare_buffer :
    {Fd : Type 0} → (List ℕ → Option ℕ) → UdpThread Fd → Option (List ℕ × UdpThread Fd)
prepare_buffer send t =
    Option.map (λ (p : Packet). (p.bytes, send_packet send t (take_over t) p))
      (build_packet t.payload_size t.sequence_number (take_over t).intermediate_buffer)

module _ {Fd : Type 0} (gettime : Fd → ItimerSpec) (settime : ItimerSpec → Fd → Fd) where
  -- The timer after `if (!m_transmitTimer.isEnabled()) m_transmitTimer.enable()`.
  unfoldable pub ensure_enabled : Fd → Fd
  ensure_enabled fd = if is_enabled gettime settime fd then fd else enable gettime settime fd

  -- A timeout from the table brings the expiration forward, never back.
  unfoldable pub shorten : ℕ → Option ℕ → Fd → Fd
  shorten timeout none fd = fd
  shorten timeout (some entry) fd =
      if ltb entry timeout
      then (if ltb entry (get_value gettime settime fd)
          then adjust gettime settime timeout entry fd
          else fd)
      else fd

  unfoldable pub transmit_frame : Frame → UdpThread Fd → UdpThread Fd
  unfolding get_frame_buffer_size
  transmit_frame f t =
      let buffer = insert_frame f t.frame_buffer in
      let timer = ensure_enabled t.transmit_timer in
      let needed =
        (get_frame_buffer_size buffer
          + cannelloni_data_packet_base_size
          + cannelloni_frame_base_size)
        % size_mod in
      record t {
        frame_buffer = buffer;
        transmit_timer =
            if leb t.payload_size needed
            then fire gettime settime timer
            else shorten t.timeout (find (arbitration_id f.can_id) t.timeout_table) timer;
      }

  -- The part of the loop of `run` for the transmit timer; `expirations` is what `Timer::read` gives.
  unfoldable pub on_transmit_timer :
      (List ℕ → Option ℕ) → ℕ → UdpThread Fd → Option (List (List ℕ) × UdpThread Fd)
  on_transmit_timer send expirations t =
      if ltb 0 expirations
      then (if get_frame_buffer_size t.frame_buffer == 0
          then some ([], record t { transmit_timer = disable gettime settime t.transmit_timer })
          else Option.map (λ (r : List ℕ × UdpThread Fd). (r.0 ∷ [], r.1)) (prepare_buffer send t))
      else some ([], t)
