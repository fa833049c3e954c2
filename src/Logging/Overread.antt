-- ===== src/Logging/Overread.antt =====
-- When printCANInfo of logging.h reads behind the data of a frame.
use cannelloni.Prelude.{
  ℕ, zero, suc, ◌%◌, ◌<◌, ◌≡◌, refl, inl, inr, not, none, some, List, [], ◌∷◌, map, arith, leb,
  if◌then◌else◌, Bool-cases, length, take,
}
use mathlib.Core.Option
use cannelloni.Frame.{Frame, has_data, canfd_max_dlen}
use cannelloni.Frame.Bits.{canfd_len-mod}
use cannelloni.Logging.{data_byte, remote_mark, print_bytes, print_data}

print_bytes-suc :
    (n i b : ℕ) (bytes : List ℕ) → print_bytes n (suc i) (b ∷ bytes) ≡ print_bytes n i bytes
unfolding print_bytes Option.bind
print_bytes-suc zero i b bytes = refl
print_bytes-suc (suc n) i b bytes = rw (print_bytes-suc n (suc i) b bytes) refl

print_bytes_lem :
    (n : ℕ) (bytes : List ℕ)
    → print_bytes n 0 bytes
      ≡ (if leb n (length bytes) then some (map data_byte (take n bytes)) else none)
unfolding print_bytes Option.bind
print_bytes_lem zero bytes = ground arith
print_bytes_lem (suc n) [] = ground arith
print_bytes_lem (suc n) (b ∷ bytes) = elim (Bool-cases (leb n (length bytes))) [
  | inl fits ↦
      rw (print_bytes-suc n 0 b bytes, print_bytes_lem n bytes, fits) (ground (arith, fits))
  | inr over ↦
      rw (print_bytes-suc n 0 b bytes, print_bytes_lem n bytes, over) (ground (arith, over))
]

-- The data of a frame with an array of 64 bytes, whose length byte gives the low seven bits as its length:
-- of a remote frame, only its mark is printed; of another one, as many bytes from the start of the array
-- as its length says, if these are at most 64. If they are more, bytes behind the array are read.
pub print_data_lem :
    (f : Frame)
    → f.len < 256
    → length f.payload ≡ canfd_max_dlen
    → print_data f ≡ (
        if not (has_data f.can_id)
        then some (remote_mark ∷ [])
        else if leb (f.len % 128) canfd_max_dlen
        then some (map data_byte (take (f.len % 128) f.payload))
        else none)
unfolding print_data
print_data_lem f range size =
    rw (canfd_len-mod f range, print_bytes_lem (f.len % 128) f.payload, size)
      (elim (Bool-cases (has_data f.can_id)) [
        | inr remote ↦ rw remote refl
        | inl some_data ↦ rw some_data refl
      ])
