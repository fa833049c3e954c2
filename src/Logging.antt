-- ===== src/Logging.antt =====
-- logging.h: what printCANInfo prints of a frame, piece by piece.
pub mod Overread
pub mod Path
use cannelloni.Prelude.{
  ℕ, zero, suc, bit_and, Option, some, List, [], ◌∷◌, ◌==◌, if◌then◌else◌, get_elem?,
}
use mathlib.Core.Option
use cannelloni.Frame.{Frame, canfd_len, is_fd, has_data, can_eff_flag, can_eff_mask, can_sff_mask}

abbrev pub can_err_flag : ℕ
can_err_flag = 0x20000000

-- A text, with the number in it.
pub data Piece : Type 0 where
  kind_fd : Piece
  kind_classic : Piece
  eff_id : ℕ → Piece
  sff_id : ℕ → Piece
  error_mark : Piece
  length_mark : ℕ → Piece
  remote_mark : Piece
  data_byte : ℕ → Piece

unfoldable pub print_kind : Frame → Piece
print_kind f = if is_fd f then kind_fd else kind_classic

unfoldable pub print_id : ℕ → Piece
print_id id =
    if bit_and id can_eff_flag == 0
    then sff_id (bit_and id can_sff_mask)
    else eff_id (bit_and id can_eff_mask)

unfoldable pub print_length : Frame → Piece
print_length f =
    if bit_and f.can_id can_err_flag == 0 then length_mark (canfd_len f) else error_mark

-- The loop, with the number of bytes that are left and the index; `none` is a read behind the array.
unfoldable pub print_bytes : ℕ → ℕ → List ℕ → Option (List Piece)
print_bytes zero i bytes = some []
print_bytes (suc n) i bytes =
    Option.bind (get_elem? bytes i)
      λ b. Option.map (λ (ps : List Piece). data_byte b ∷ ps) (print_bytes n (suc i) bytes)

unfoldable pub print_data : Frame → Option (List Piece)
print_data f =
    if has_data f.can_id then print_bytes (canfd_len f) 0 f.payload else some (remote_mark ∷ [])

unfoldable pub print_can_info : Frame → Option (List Piece)
print_can_info f =
    Option.map (λ (ps : List Piece). print_kind f ∷ (print_id f.can_id ∷ (print_length f ∷ ps)))
      (print_data f)
