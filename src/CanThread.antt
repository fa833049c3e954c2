-- ===== src/CanThread.antt =====
-- canthread.h and canthread.cpp: the thread at the CAN socket. `write` and the timerfd calls are
-- parameters; `write k f mtu` is what the k-th call of write(2) returns, `none` for -1.
pub mod Calls
pub mod Transmit
pub mod Receive
pub mod Start
pub mod Rounds
pub mod Peers
pub mod Keeps
use cannelloni.Prelude.{
  ℕ, zero, suc, ◌+◌, ◌%◌, ◌^◌, bit_and, bit_or, Bool, false, ◌||◌, Option, none, some, List, [],
  ◌∷◌, ◌==◌, if◌then◌else◌, length,
}
use cannelloni.Frame.{Frame, is_fd, canfd_frame}
use cannelloni.FrameBuffer.{
  FrameBuffer, insert_frame, insert_frame_pool, return_frame, request_buffer_front,
}
use cannelloni.Timer.{ItimerSpec, adjust}

-- `CAN_TIMEOUT`, in microseconds.
abbrev pub can_timeout : ℕ
can_timeout = 2000000

-- The sizes of `struct can_frame` and `struct canfd_frame`.
abbrev pub can_mtu : ℕ
can_mtu = 16

abbrev pub canfd_mtu : ℕ
canfd_mtu = 72

pub record CanThread (Fd : Type 0) : Type 0 where
  pub frame_buffer : FrameBuffer
  pub timer : Fd
  pub canfd : Bool
  pub rx_count : ℕ
  pub tx_count : ℕ

-- `frame->len &= ~(CANFD_FRAME)` and `frame->len |= CANFD_FRAME`.
unfoldable pub clear_fd : Frame → Frame
clear_fd f = record f { len = bit_and f.len 0xFFFFFF7F % 256 }

unfoldable pub set_fd : Frame → Frame
set_fd f = record f { len = bit_or f.len canfd_frame % 256 }

-- `transmittedBytes == CANFD_MTU || transmittedBytes == CAN_MTU`.
unfoldable pub is_written : Option ℕ → Bool
is_written none = false
is_written (some n) = n == canfd_mtu || n == can_mtu

-- What one round does with a frame that was taken from the buffer: it is written with its size, or
-- dropped since the socket takes no CAN FD frames.
pub data Attempt : Type 0 where
  writes : Frame → ℕ → Attempt
  drops : Frame → Attempt

unfoldable pub attempt : Bool → Frame → Attempt
attempt canfd f =
    if canfd
    then (if is_fd f then writes (clear_fd f) canfd_mtu else writes (clear_fd f) can_mtu)
    else (if is_fd f then drops (clear_fd f) else writes f can_mtu)

-- The frames given to write(2), with their sizes, and the thread afterwards.
pub record Sent (Fd : Type 0) : Type 0 where
  pub frames : List (Frame × ℕ)
  pub thread : CanThread Fd

unfoldable pub log : {Fd : Type 0} → Frame → ℕ → Option (Sent Fd) → Option (Sent Fd)
log f mtu none = none
log f mtu (some s) = some (record s { frames = (f, mtu) ∷ s.frames })

module _ {Fd : Type 0} (gettime : Fd → ItimerSpec) (settime : ItimerSpec → Fd → Fd) where
  unfoldable pub fire_timer : CanThread Fd → CanThread Fd
  fire_timer t = record t { timer = adjust gettime settime can_timeout 1 t.timer }

  unfoldable pub transmit_frame : Frame → CanThread Fd → CanThread Fd
  transmit_frame f t = fire_timer (record t { frame_buffer = insert_frame f t.frame_buffer })

  -- After a write that succeeded, and after one that failed.
  unfoldable pub written : Frame → CanThread Fd → CanThread Fd
  written f t = record t {
    frame_buffer = insert_frame_pool f t.frame_buffer;
    tx_count = (t.tx_count + 1) % 2 ^ 64;
  }

  unfoldable pub not_written : Frame → CanThread Fd → CanThread Fd
  not_written f t = record t {
    frame_buffer = return_frame f t.frame_buffer;
    timer = adjust gettime settime can_timeout 25 t.timer;
  }

  -- One round of `transmitBuffer` on the frame that was taken; `rest` makes the rounds that follow,
  -- and `k` counts the calls of write(2).
  unfoldable pub do_attempt :
      (ℕ → Frame → ℕ → Option ℕ)
      → (ℕ → CanThread Fd → Option (Sent Fd))
      → ℕ
      → Attempt
      → CanThread Fd
      → Option (Sent Fd)
  do_attempt write rest k (drops f) t =
      rest k (record t { frame_buffer = insert_frame_pool f t.frame_buffer })
  do_attempt write rest k (writes f mtu) t =
      if is_written (write k f mtu)
      then log f mtu (rest (k + 1) (written f t))
      else some (record { frames = (f, mtu) ∷ []; thread = not_written f t })

  unfoldable pub one_round :
      (ℕ → Frame → ℕ → Option ℕ)
      → (ℕ → CanThread Fd → Option (Sent Fd))
      → ℕ
      → Option Frame × FrameBuffer
      → CanThread Fd
      → Option (Sent Fd)
  unfolding do_attempt log
  one_round write rest k (none, b) t =
      some (record { frames = []; thread = record t { frame_buffer = b } })
  one_round write rest k (some f, b) t =
      do_attempt write rest k (attempt t.canfd f) (record t { frame_buffer = b })

  -- The loop, with fuel; `none` means that the fuel ran out.
  unfoldable pub transmit_loop :
      (ℕ → Frame → ℕ → Option ℕ) → ℕ → ℕ → CanThread Fd → Option (Sent Fd)
  transmit_loop write zero k t = none
  transmit_loop write (suc fuel) k t =
      one_round write (transmit_loop write fuel) k (request_buffer_front t.frame_buffer) t

  -- `transmitBuffer`. Each round takes a frame off the buffer, so its length and one more suffice.
  unfoldable pub transmit_buffer : (ℕ → Frame → ℕ → Option ℕ) → CanThread Fd → Option (Sent Fd)
  unfolding transmit_loop one_round
  transmit_buffer write t = transmit_loop write (length t.frame_buffer.buffer + 1) 0 t
