-- ===== src/Packet/Fields.antt =====
-- The fields of a frame on the wire, read by the parts of `parseFrames` of parser.cpp.
use cannelloni.Prelude.{
  ℕ, ◌+◌, ◌^◌, ◌≤◌, ◌<◌, ◌≡◌, List, [], ◌∷◌, ◌++◌, append_assoc, arith, if◌then◌else◌, length, drop,
  length-append, take-append, drop-append,
}
use cannelloni.Frame.{Frame, canfd_len, is_fd}
use cannelloni.Packet.Bytes.{be32, of_be32-be32}
use cannelloni.Packet.Outcome.{ok}
use cannelloni.Packet.Wire.{data_section, wire}
use cannelloni.Packet.Parse.{read_id, read_flags, copy_payload}

unfoldable pub flag_bytes : Frame → List ℕ
flag_bytes f = if is_fd f then f.flags ∷ [] else []

pub wire_parts :
    (f : Frame) (more : List ℕ)
    → wire f ++ more ≡ be32 f.can_id ++ (f.len ∷ (flag_bytes f ++ (data_section f ++ more)))
unfolding wire flag_bytes be32
wire_parts f more = ground (arith, append_assoc (flag_bytes f) (data_section f) more)

pub length-wire :
    (f : Frame) → length (wire f) ≡ 5 + length (flag_bytes f) + length (data_section f)
unfolding wire flag_bytes be32
length-wire f = omega (arith, length-append (flag_bytes f) (data_section f))

module _ {S : Type 0} where
  pub read_id-be32 :
      (x pos : ℕ) (r : List ℕ) (s : S)
      → x < 2 ^ 32
      → read_id (record { pos = pos; rest = be32 x ++ r }) s
        ≡ ok (x, record { pos = pos + 4; rest = r }) s
  unfolding read_id be32
  read_id-be32 x pos r s h = ground (arith, of_be32-be32 x h)

  pub read_flags-flag_bytes :
      (f g : Frame) (pos : ℕ) (r : List ℕ) (s : S)
      → g.len ≡ f.len
      → read_flags g (record { pos = pos; rest = flag_bytes f ++ r }) s
        ≡ ok
            (
              record g { flags = if is_fd f then f.flags else g.flags },
              record { pos = pos + length (flag_bytes f); rest = r },
            )
            s
  unfolding read_flags flag_bytes
  read_flags-flag_bytes f g pos r s e = ground arith

  pub copy_payload-append :
      (n : ℕ) (g : Frame) (pos : ℕ) (xs r : List ℕ) (s : S)
      → n ≤ length g.payload
      → n ≡ length xs
      → copy_payload n g (record { pos = pos; rest = xs ++ r }) s
        ≡ ok (record g { payload = xs ++ drop n g.payload }, record { pos = pos + n; rest = r }) s
  unfolding copy_payload
  copy_payload-append n g pos xs r s fits e =
      ground (arith, take-append xs r n e, drop-append xs r n e, length-append xs r)

pub canfd_len-cong : (f g : Frame) → g.len ≡ f.len → canfd_len g ≡ canfd_len f
unfolding canfd_len
canfd_len-cong f g e = rw e
