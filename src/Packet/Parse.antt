-- ===== src/Packet/Parse.antt =====
-- `parseFrames` of parser.cpp. `len` is the length that the caller reports, `buffer` the whole array
-- that it passes. The callbacks are functions on a state of the caller's.
use cannelloni.Prelude.{
  ℕ, zero, suc, ◌+◌, Bool, true, false, not, List, [], ◌∷◌, ◌++◌, Option, none, some, length, take,
  drop, get_elem?, ltb, ◌==◌, if◌then◌else◌,
}
use cannelloni.Frame.{
  Frame, canfd_len, is_fd, has_data, cannelloni_frame_base_size, cannelloni_data_packet_base_size,
  cannelloni_frame_version, op_data,
}
use cannelloni.Packet.Bytes.{of_be32, of_be16}
use cannelloni.Packet.Outcome.{
  ◌>>=◌, ◌>>◌, Outcome, M, ok, threw, pure, throw, throw_if, crash, wrong_version, wrong_op_code,
  incomplete_packet, allocation_error, corrupt_header, read_past_buffer, write_past_frame,
}

-- The pointer `rawData`: its offset from `buffer`, and the bytes of the array from there on.
pub record Cursor : Type 0 where
  pub pos : ℕ
  pub rest : List ℕ

module _ {S : Type 0} where
  -- `*rawData`, and the pointer moved on by one.
  next_byte : ℕ → List ℕ → M S (ℕ × Cursor)
  next_byte pos [] = crash read_past_buffer
  next_byte pos (b ∷ rest) = pure (b, record { pos = pos + 1; rest = rest })

  unfoldable pub read_byte : Cursor → M S (ℕ × Cursor)
  unfolding next_byte
  read_byte c = next_byte c.pos c.rest

  -- `memcpy(&tmp, rawData, 4)`, `ntohl(tmp)` and `rawData += 4`.
  unfoldable pub read_id : Cursor → M S (ℕ × Cursor)
  unfolding read_byte
  read_id c = do
    (a, c1) ← read_byte c
    (b, c2) ← read_byte c1
    (d, c3) ← read_byte c2
    (e, c4) ← read_byte c3
    pure (of_be32 a b d e, c4)

  -- The flags, which follow `len` in a CAN FD frame only.
  unfoldable pub read_flags : Frame → Cursor → M S (Frame × Cursor)
  unfolding read_byte
  read_flags f c =
      if is_fd f then (do (b, c') ← read_byte c; pure (record f { flags = b }, c')) else pure (f, c)

  -- `memcpy(frame->data, rawData, n)` and `rawData += n`.
  unfoldable pub copy_payload : ℕ → Frame → Cursor → M S (Frame × Cursor)
  copy_payload n f c =
      if ltb (length f.payload) n
      then crash write_past_frame
      else if ltb (length c.rest) n
      then crash read_past_buffer
      else pure (
        record f { payload = take n c.rest ++ drop n f.payload },
        record { pos = c.pos + n; rest = drop n c.rest },
      )

  -- The byte `buffer[i]`.
  at_offset : Option ℕ → M S ℕ
  at_offset none = crash read_past_buffer
  at_offset (some b) = pure b

  unfoldable pub byte_at : List ℕ → ℕ → M S ℕ
  unfolding at_offset
  byte_at buffer i = at_offset (get_elem? buffer i)

-- `frameAllocator` gives a frame or a null pointer, `frameReceiver` takes a frame and the flag.
module _ {S : Type 0} (frame_allocator : S → Option Frame × S)
    (frame_receiver : Frame → Bool → S → S) where
  allocated : Option Frame × S → Outcome S Frame
  allocated (none, s) = threw allocation_error s
  allocated (some f, s) = ok f s

  unfoldable pub allocate : M S Frame
  unfolding allocated
  allocate s = allocated (frame_allocator s)

  unfoldable pub receive : Frame → Bool → M S (Unit {0})
  receive f success s = ok tt (frame_receiver f success s)

  -- The data section, with the second check of the length. Remote frames have none.
  unfoldable pub read_data : ℕ → Frame → Cursor → M S (Frame × Cursor)
  unfolding receive
  read_data len f c =
      if has_data f.can_id
      then (if ltb len (c.pos + canfd_len f)
          then (do receive (record f { len = 0 }) false; throw corrupt_header)
          else copy_payload (canfd_len f) f c)
      else pure (f, c)

  -- One round of the loop.
  unfoldable pub parse_frame : ℕ → Cursor → M S Cursor
  parse_frame len c = do
    throw_if (ltb len (c.pos + cannelloni_frame_base_size)) incomplete_packet
    frame ← allocate
    (id, c1) ← read_id c
    (l, c2) ← read_byte c1
    (frame', c3) ← read_flags (record frame { can_id = id; len = l }) c2
    (frame'', c4) ← read_data len frame' c3
    receive frame'' true
    pure c4

  -- The rounds that are left of the `for` loop.
  unfoldable pub parse_loop : ℕ → ℕ → Cursor → M S (Unit {0})
  parse_loop len zero c = pure tt
  parse_loop len (suc n) c = do c' ← parse_frame len c; parse_loop len n c'

  -- The packet's frames; an empty packet is ignored.
  unfoldable pub parse_body : ℕ → List ℕ → ℕ → M S (Unit {0})
  parse_body len buffer count =
      if count == 0
      then pure tt
      else parse_loop len count (record {
        pos = cannelloni_data_packet_base_size;
        rest = drop cannelloni_data_packet_base_size buffer;
      })

  unfoldable pub parse_frames : ℕ → List ℕ → M S (Unit {0})
  unfolding byte_at parse_body
  parse_frames len buffer = do
    version ← byte_at buffer 0
    throw_if (not (version == cannelloni_frame_version)) wrong_version
    op_code ← byte_at buffer 1
    throw_if (not (op_code == op_data)) wrong_op_code
    hi ← byte_at buffer 3
    lo ← byte_at buffer 4
    parse_body len buffer (of_be16 hi lo)
