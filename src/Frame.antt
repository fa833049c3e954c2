-- ===== src/Frame.antt =====
-- cannelloni.h and the part of include/linux/can.h that the program uses: a CAN frame, its length
-- and flag bits, the identifier by which frames are ordered, and the bytes a frame takes on the wire.
pub mod Bits
use cannelloni.Prelude.{
  ℕ, ◌+◌, ◌%◌, ◌^◌, ◌≤◌, ◌<◌, ◌≡◌, Bool, not, List, All, length, ltb, ◌==◌, if◌then◌else◌, bit_and,
}

abbrev pub can_eff_flag : ℕ
can_eff_flag = 0x80000000

abbrev pub can_rtr_flag : ℕ
can_rtr_flag = 0x40000000

abbrev pub can_sff_mask : ℕ
can_sff_mask = 0x000007FF

abbrev pub can_eff_mask : ℕ
can_eff_mask = 0x1FFFFFFF

abbrev pub canfd_max_dlen : ℕ
canfd_max_dlen = 64

abbrev pub cannelloni_frame_base_size : ℕ
cannelloni_frame_base_size = 5

abbrev pub cannelloni_data_packet_base_size : ℕ
cannelloni_data_packet_base_size = 5

abbrev pub cannelloni_frame_version : ℕ
cannelloni_frame_version = 2

abbrev pub canfd_frame : ℕ
canfd_frame = 0x80

-- `enum op_codes {DATA, ACK, NACK}`.
abbrev pub op_data : ℕ
op_data = 0

-- `struct canfd_frame` behind a pointer: `addr` is the address, the rest is what stands there.
-- `payload` is the array `data`, padding is left out.
pub record Frame : Type 0 where
  pub addr : ℕ
  pub can_id : ℕ
  pub len : ℕ
  pub flags : ℕ
  pub payload : List ℕ

-- `f->len & ~(CANFD_FRAME)`, in 32 bits, cut to the `uint8_t` that the function returns.
unfoldable pub canfd_len : Frame → ℕ
canfd_len f = bit_and f.len 0xFFFFFF7F % 256

-- `len & CANFD_FRAME` as a condition.
unfoldable pub has_fd_bit : ℕ → Bool
has_fd_bit l = not (bit_and l canfd_frame == 0)

abbrev pub is_fd : Frame → Bool
is_fd f = has_fd_bit f.len

-- `(can_id & CAN_RTR_FLAG) == 0` is the test for a frame with a data section.
unfoldable pub has_data : ℕ → Bool
has_data id = bit_and id can_rtr_flag == 0

-- The identifier without the flag bits: 29 bits of an extended frame, 11 of a standard one.
unfoldable pub arbitration_id : ℕ → ℕ
arbitration_id id =
    if not (bit_and id can_eff_flag == 0) then bit_and id can_eff_mask else bit_and id can_sff_mask

-- `canfd_frame_comp`.
unfoldable pub frame_lt : Frame → Frame → Bool
frame_lt f1 f2 = ltb (arbitration_id f1.can_id) (arbitration_id f2.can_id)

-- What the program takes a frame for on the wire: base size, data, and a byte of flags for CAN FD.
unfoldable pub frame_size : Frame → ℕ
frame_size f = cannelloni_frame_base_size + canfd_len f + (if is_fd f then 1 else 0)

abbrev pub IsByte : ℕ → Type 0
IsByte b = b < 256

-- A frame whose fields are in the range of their C types, with an array of 64 bytes and a length
-- within it.
pub record IsValid (f : Frame) : Type 0 where
  pub id_range : f.can_id < 2 ^ 32
  pub len_range : f.len < 256
  pub flags_range : f.flags < 256
  pub payload_size : length f.payload ≡ canfd_max_dlen
  pub payload_range : All IsByte f.payload
  pub len_fits : canfd_len f ≤ canfd_max_dlen
