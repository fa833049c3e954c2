-- ===== src/Packet/Build.antt =====
-- `buildPacket` of parser.cpp. The pointer `data` is the count of bytes before it, `position`, and
-- the packet is the list of the bytes that were written. `none` is a read past `canfd_frame::data`.
use cannelloni.Prelude.{
  ℕ, ◌+◌, ◌%◌, ◌^◌, List, [], ◌∷◌, ◌++◌, Option, none, some, length, take, ltb, if◌then◌else◌,
}
use cannelloni.Frame.{
  Frame, canfd_len, is_fd, has_data, frame_size, cannelloni_data_packet_base_size,
  cannelloni_frame_version, op_data,
}
use cannelloni.Packet.Bytes.{be32, be16}

infixl 5 ◌>>=◌
abbrev ◌>>=◌ : {A B : Type 0} → Option A → (A → Option B) → Option B
none >>= f = none
some a >>= f = f a

-- `memcpy(data, frame->data, canfd_len(frame))`, unless this is a remote frame.
unfoldable pub payload_bytes : Frame → Option (List ℕ)
payload_bytes f =
    if has_data f.can_id
    then (if ltb (length f.payload) (canfd_len f)
        then none
        else some (take (canfd_len f) f.payload))
    else some []

-- The bytes of one frame, as the loop's body writes them.
unfoldable pub frame_bytes : Frame → Option (List ℕ)
frame_bytes f = do
  bytes ← payload_bytes f
  some (be32 f.can_id ++ (f.len ∷ ((if is_fd f then f.flags ∷ [] else []) ++ bytes)))

-- What the loop leaves: the bytes behind the header, `frameCount`, and the frames that were handed
-- to `handleOverflow`, which is called only if there are any.
pub record Loaded : Type 0 where
  pub body : List ℕ
  pub count : ℕ
  pub overflow : List Frame

-- The loop over `frames`; `frameCount` is a `uint16_t`.
unfoldable pub load_frames : ℕ → ℕ → ℕ → List Frame → Option Loaded
load_frames len position count [] = some (record { body = []; count = count; overflow = [] })
load_frames len position count (f ∷ fs) =
    if ltb len (position + frame_size f)
    then some (record { body = []; count = count; overflow = f ∷ fs })
    else (do
      bytes ← frame_bytes f
      rest ← load_frames len (position + length bytes) ((count + 1) % 2 ^ 16) fs
      some (record rest { body = bytes ++ rest.body }))

-- `struct CannelloniDataPacket`, packed.
unfoldable pub header : ℕ → ℕ → List ℕ
header seq_no count = cannelloni_frame_version ∷ op_data ∷ seq_no ∷ be16 count

pub record Packet : Type 0 where
  pub bytes : List ℕ
  pub overflow : List Frame

unfoldable pub build_packet : ℕ → ℕ → List Frame → Option Packet
build_packet len seq_no frames = do
  loaded ← load_frames len cannelloni_data_packet_base_size 0 frames
  some (record { bytes = header seq_no loaded.count ++ loaded.body; overflow = loaded.overflow })
