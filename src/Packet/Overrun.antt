-- ===== src/Packet/Overrun.antt =====
-- Packets on which `parseFrames` of parser.cpp leaves its arrays, and those that it refuses.
use cannelloni.Prelude.{
  ℕ, ◌+◌, ◌^◌, ◌≤◌, ◌<◌, ◌≡◌, refl, ◌≢◌, ◌⊎◌, Bool, true, Option, some, List, [], ◌∷◌, ◌++◌, arith,
  ◌==◌, if◌then◌else◌, length, length-take,
}
use cannelloni.Frame.{Frame, canfd_len, is_fd, has_fd_bit, has_data, canfd_max_dlen}
use cannelloni.Packet.Bytes.{be32, be16, of_be16}
use cannelloni.Packet.Outcome.{
  threw, fault, read_past_buffer, write_past_frame, wrong_version, wrong_op_code,
}
use cannelloni.Packet.Build.{header}
use cannelloni.Packet.Wire.{data_section, wire}
use cannelloni.Packet.Fields.{
  flag_bytes, wire_parts, length-wire, read_id-be32, read_flags-flag_bytes, canfd_len-cong,
}
use cannelloni.Packet.Parse.{
  Cursor, read_byte, read_flags, read_data, copy_payload, allocate, parse_frame, parse_loop,
  parse_body, parse_frames,
}

module _ {S : Type 0} (frame_allocator : S → Option Frame × S)
    (frame_receiver : Frame → Bool → S → S) where
  copy_overrun :
      (n : ℕ) (g : Frame) (c : Cursor) (s : S)
      → length g.payload < n
      → copy_payload n g c s ≡ fault write_past_frame
  unfolding copy_payload
  copy_overrun n g c s h = ground arith

  parse_frame_overrun :
      (len pos : ℕ) (f g : Frame) (more : List ℕ) (s s' : S)
      → f.can_id < 2 ^ 32
      → has_data f.can_id ≡ true
      → 64 < canfd_len f
      → canfd_len f ≤ length f.payload
      → frame_allocator s ≡ (some g, s')
      → length g.payload ≡ 64
      → pos + length (wire f) ≤ len
      → parse_frame frame_allocator frame_receiver len
          (record { pos = pos; rest = wire f ++ more })
          s
        ≡ fault write_past_frame
  unfolding parse_frame allocate read_byte read_data data_section
  parse_frame_overrun len pos f g more s s' id plain long real e size room =
      let g1 : Frame = record g { can_id = f.can_id; len = f.len } in
      let g2 : Frame = record g1 { flags = if is_fd f then f.flags else g.flags } in
      let at : ℕ = pos + 4 + 1 + length (flag_bytes f) in
      rw (wire_parts f more) (
        ground (
          arith,
          length-wire f,
          length-take (canfd_len f) f.payload real,
          read_id-be32 f.can_id pos (f.len ∷ (flag_bytes f ++ (data_section f ++ more))) s' id,
          read_flags-flag_bytes f g1 (pos + 4 + 1) (data_section f ++ more) s' refl,
          canfd_len-cong f g2 refl,
          copy_overrun (canfd_len f) g2 (record { pos = at; rest = data_section f ++ more }) s',
        ))

  -- A packet with one frame, whose length byte names more than the 64 bytes of `canfd_frame::data`
  -- and which is as long as it says, makes the reader write behind that array.
  pub parse_frames_overrun :
      (len seq_no : ℕ) (f g : Frame) (more : List ℕ) (s s' : S)
      → f.can_id < 2 ^ 32
      → has_data f.can_id ≡ true
      → canfd_max_dlen < canfd_len f
      → canfd_len f ≤ length f.payload
      → frame_allocator s ≡ (some g, s')
      → length g.payload ≡ canfd_max_dlen
      → 5 + length (wire f) ≤ len
      → parse_frames frame_allocator frame_receiver len (header seq_no 1 ++ (wire f ++ more)) s
        ≡ fault write_past_frame
  unfolding parse_frames parse_body parse_loop header be16 of_be16
  parse_frames_overrun len seq_no f g more s s' id plain long real e size room =
      ground (arith, parse_frame_overrun len 5 f g more s s' id plain long real e size room)

  -- A CAN FD frame header in the last five bytes of the receive buffer makes the reader read the
  -- flags from behind it.
  pub parse_frame_overread :
      (len pos id l : ℕ) (g : Frame) (s s' : S)
      → id < 2 ^ 32
      → has_fd_bit l ≡ true
      → pos + 5 ≤ len
      → frame_allocator s ≡ (some g, s')
      → parse_frame frame_allocator frame_receiver len
          (record { pos = pos; rest = be32 id ++ (l ∷ []) })
          s
        ≡ fault read_past_buffer
  unfolding parse_frame allocate read_byte read_flags
  parse_frame_overread len pos id l g s s' h fd room e =
      ground (arith, read_id-be32 id pos (l ∷ []) s' h)

  -- A packet of another version, or of another kind than `DATA`, is refused before any callback: the
  -- caller's state stays as it was. The version is looked at first.
  pub parse_frames_refuses :
      (len v o : ℕ) (rest : List ℕ) (s : S)
      → (v ≢ 2) ⊎ (o ≢ 0)
      → parse_frames frame_allocator frame_receiver len (v ∷ o ∷ rest) s
        ≡ threw (if v == 2 then wrong_op_code else wrong_version) s
  unfolding parse_frames
  parse_frames_refuses len v o rest s h = ground arith
