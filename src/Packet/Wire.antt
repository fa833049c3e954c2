-- ===== src/Packet/Wire.antt =====
-- The packet format of doc/udp_format.md as a total function of valid frames, and the writer of
-- parser.cpp against it.
use cannelloni.Prelude.{
  ℕ, ◌+◌, ◌*◌, ◌%◌, ◌^◌, ◌≤◌, ◌<◌, ◌≡◌, refl, ap, subst, inl, inr, Option, some, List, [], ◌∷◌,
  ◌++◌, arith, ltb, if◌then◌else◌, ltb→lt, ltb→le, Bool-cases, length, take, All, length-append,
  length-take,
}
use cannelloni.Frame.{Frame, IsValid, canfd_len, is_fd, has_data, frame_size}
use cannelloni.Packet.Bytes.{be32, be16}
use cannelloni.Packet.Build.{
  Loaded, Packet, payload_bytes, frame_bytes, load_frames, header, build_packet,
}

-- The data section of a frame, and the whole frame.
unfoldable pub data_section : Frame → List ℕ
data_section f = if has_data f.can_id then take (canfd_len f) f.payload else []

unfoldable pub wire : Frame → List ℕ
wire f = be32 f.can_id ++ (f.len ∷ ((if is_fd f then f.flags ∷ [] else []) ++ data_section f))

unfoldable pub wires : List Frame → List ℕ
wires [] = []
wires (f ∷ fs) = wire f ++ wires fs

pub length-wire_bounds :
    (f : Frame) → IsValid f → (5 ≤ length (wire f)) × (length (wire f) ≤ frame_size f)
unfolding wire data_section be32 frame_size
length-wire_bounds f v = ground (
  arith,
  length-take (canfd_len f) f.payload (omega arith),
  length-append (if is_fd f then f.flags ∷ [] else []) (data_section f),
)

frame_bytes-wire : (f : Frame) → IsValid f → frame_bytes f ≡ some (wire f)
unfolding frame_bytes payload_bytes wire data_section
frame_bytes-wire f v = ground arith

-- The loop stopped at the end of the list, or at a frame that could have been too long.
abbrev pub Stops : ℕ → ℕ → List Frame → Type 0
Stops len position [] = Unit {0}
Stops len position (f ∷ fs) = len < position + frame_size f

-- What the loop does from `position` on: it writes the frames of a prefix, and hands over the rest.
abbrev pub Loads : ℕ → ℕ → ℕ → List Frame → Option Loaded → Type 0
Loads len position count fs result =
    (sent rest : List Frame) × (result
      ≡ some
          (record { body = wires sent; count = (count + length sent) % 2 ^ 16; overflow = rest }))
    × (fs ≡ sent ++ rest)
    × (position + length (wires sent) ≤ len)
    × (5 * length sent ≤ length (wires sent))
    × Stops len (position + length (wires sent)) rest

load_full :
    (len position count : ℕ) (f : Frame) (fs : List Frame)
    → count < 2 ^ 16
    → position ≤ len
    → len < position + frame_size f
    → Loads len position count (f ∷ fs) (load_frames len position count (f ∷ fs))
unfolding load_frames wires
load_full len position count f fs c h full =
    ([], f ∷ fs, ground arith, refl, omega arith, omega arith, omega arith)

load_fits :
    (len position count : ℕ) (f : Frame) (fs : List Frame)
    → IsValid f
    → position + frame_size f ≤ len
    → Loads len
        (position + length (wire f))
        ((count + 1) % 2 ^ 16)
        fs
        (load_frames len (position + length (wire f)) ((count + 1) % 2 ^ 16) fs)
    → Loads len position count (f ∷ fs) (load_frames len position count (f ∷ fs))
unfolding load_frames wires
load_fits len position count f fs v room (sent, rest, e, split, bound, five, stops) = (
  f ∷ sent,
  rest,
  ground (arith, frame_bytes-wire f v),
  ap (◌∷◌ f) split,
  omega (arith, length-append (wire f) (wires sent)),
  omega (arith, length-append (wire f) (wires sent), length-wire_bounds f v),
  subst (λ (n : ℕ). Stops len n rest) (omega (arith, length-append (wire f) (wires sent))) stops,
)

load_frames_lem :
    (len position count : ℕ) (fs : List Frame)
    → All IsValid fs
    → count < 2 ^ 16
    → position ≤ len
    → Loads len position count fs (load_frames len position count fs)
load_frames_lem len position count [] vs c h = (
  [],
  [],
  unfold load_frames wires in ground arith,
  refl,
  unfold wires in omega arith,
  omega arith,
  tt,
)
load_frames_lem len position count (f ∷ fs) (v, vs) c h =
    elim (Bool-cases (ltb len (position + frame_size f))) [
      | inl full ↦ load_full len position count f fs c h (ltb→lt _ _ full)
      | inr room ↦ load_fits len position count f fs v (ltb→le _ _ room) (
          load_frames_lem len (position + length (wire f)) ((count + 1) % 2 ^ 16) fs vs
            (omega arith) (omega (arith, length-wire_bounds f v, ltb→le _ _ room)))
    ]

-- On valid frames, and with room for the header, `buildPacket` succeeds. It writes the header with
-- the exact count and the frames of a prefix, at most `len` bytes in all, and hands the others to
-- `handleOverflow` in order; if there are others, then the packet and what the program takes for the size
-- of the first of them, in which the data of a remote frame counts though it is not written, are more
-- than `len`.
pub build_packet_lem :
    (len seq_no : ℕ) (fs : List Frame)
    → All IsValid fs
    → 5 ≤ len
    → len < 2 ^ 16
    → (sent : List Frame) × (p : Packet) × (build_packet len seq_no fs ≡ some p)
      × (p.bytes ≡ header seq_no (length sent) ++ wires sent)
      × (fs ≡ sent ++ p.overflow)
      × (length p.bytes ≤ len)
      × (length sent < 2 ^ 16)
      × Stops len (length p.bytes) p.overflow
unfolding build_packet header be16
build_packet_lem len seq_no fs vs room u16 =
    let (sent, rest, e, split, bound, five, stops) =
      load_frames_lem len 5 0 fs vs (omega arith) room in
    (
      sent,
      record { bytes = header seq_no (length sent) ++ wires sent; overflow = rest },
      ground arith,
      refl,
      split,
      omega arith,
      omega arith,
      subst (λ (n : ℕ). Stops len n rest) (omega arith) stops,
    )

-- No frame is shorter than a byte.
pub length-le-length-wires : (fs : List Frame) → length fs ≤ length (wires fs)
unfolding wires wire be32
length-le-length-wires [] = omega arith
length-le-length-wires (f ∷ fs) =
    omega (arith, length-le-length-wires fs, length-append (wire f) (wires fs))
