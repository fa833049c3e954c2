-- ===== src/Packet/RoundTrip.antt =====
-- `parseFrames` of parser.cpp on what `buildPacket` wrote.
use cannelloni.Prelude.{
  ℕ, suc, ◌+◌, ◌^◌, ◌≤◌, ◌<◌, ◌≡◌, refl, subst, Bool, true, Option, none, some, List, [], ◌∷◌, ◌++◌,
  append_assoc, arith, if◌then◌else◌, length, take, drop, All, length-append, length-take,
  drop-append, All-append_left,
}
use cannelloni.Frame.{Frame, IsValid, canfd_len, is_fd, has_data}
use cannelloni.Packet.Bytes.{be32, be16, of_be16-be16}
use cannelloni.Packet.Outcome.{◌>>=◌, ◌>>◌, M, ok, pure}
use cannelloni.Packet.Build.{Packet, build_packet, header}
use cannelloni.Packet.Wire.{data_section, wire, wires, build_packet_lem}
use cannelloni.Packet.Parse.{
  read_byte, allocate, receive, read_data, parse_frame, parse_loop, parse_body, parse_frames,
}
use cannelloni.Packet.Deliver.{fill, AllocatesFrames, deliver}
use cannelloni.Packet.Fields.{
  flag_bytes, wire_parts, length-wire, read_id-be32, read_flags-flag_bytes, copy_payload-append,
  canfd_len-cong,
}

module _ {S : Type 0} (frame_allocator : S → Option Frame × S)
    (frame_receiver : Frame → Bool → S → S) where
  read_data-data_section :
      (len : ℕ) (f g : Frame) (pos : ℕ) (r : List ℕ) (s : S)
      → IsValid f
      → g.len ≡ f.len
      → g.can_id ≡ f.can_id
      → length g.payload ≡ 64
      → pos + length (data_section f) ≤ len
      → read_data frame_allocator frame_receiver len g
          (record { pos = pos; rest = data_section f ++ r })
          s
        ≡ ok
            (
              record g {
                payload =
                    if has_data f.can_id
                    then take (canfd_len f) f.payload ++ drop (canfd_len f) g.payload
                    else g.payload;
              },
              record { pos = pos + length (data_section f); rest = r },
            )
            s
  unfolding read_data data_section
  read_data-data_section len f g pos r s v el ei size room = ground (
    arith,
    canfd_len-cong f g el,
    length-take (canfd_len f) f.payload (omega arith),
    copy_payload-append (canfd_len f) g pos (take (canfd_len f) f.payload) r s,
  )

module _ {S : Type 0} (frame_allocator : S → Option Frame × S)
    (frame_receiver : Frame → Bool → S → S) (CanBe : S → Type 0)
    (all : AllocatesFrames frame_allocator frame_receiver CanBe) where
  abbrev delivered : List Frame → M S (Unit {0})
  delivered = deliver frame_allocator frame_receiver

  -- One round on the bytes of a valid frame, in room of the packet.
  pub parse_frame-wire_at :
      (len pos : ℕ) (f : Frame) (more : List ℕ) (s : S) (r : Option Frame × S)
      → frame_allocator s ≡ r
      → IsValid f
      → CanBe s
      → pos + length (wire f) ≤ len
      → parse_frame frame_allocator frame_receiver len
          (record {
            pos = pos;
            rest = be32 f.can_id ++ (f.len ∷ (flag_bytes f ++ (data_section f ++ more)));
          })
          s
        ≡ (do
          g ← allocate frame_allocator frame_receiver
          receive frame_allocator frame_receiver (fill f g) true
          pure (record { pos = pos + length (wire f); rest = more }))
            s
  unfolding parse_frame allocate receive read_byte
  parse_frame-wire_at len pos f more s (none, s') e v c room = ground (arith, length-wire f)
  parse_frame-wire_at len pos f more s (some g, s') e v c room =
      let g1 : Frame = record g { can_id = f.can_id; len = f.len } in
      let g2 : Frame = record g1 { flags = if is_fd f then f.flags else g.flags } in
      let at : ℕ = pos + 4 + 1 + length (flag_bytes f) in
      unfold fill in
      ground (
        arith,
        length-wire f,
        read_id-be32 f.can_id pos (f.len ∷ (flag_bytes f ++ (data_section f ++ more))) s'
            v.id_range,
        read_flags-flag_bytes f g1 (pos + 4 + 1) (data_section f ++ more) s' refl,
        read_data-data_section frame_allocator frame_receiver len f g2 at more s' v refl refl
            (all s s' g c e).0,
      )

  -- The rounds that follow the first one.
  parse_loop_step :
      (len pos n : ℕ) (f : Frame) (fs : List Frame) (more : List ℕ) (s : S) (r : Option Frame × S)
      → frame_allocator s ≡ r
      → IsValid f
      → CanBe s
      → pos + length (wire f) ≤ len
      → ((s' : S)
          → CanBe s'
          → parse_loop frame_allocator frame_receiver len n
              (record { pos = pos + length (wire f); rest = more })
              s'
            ≡ delivered fs s')
      → parse_loop frame_allocator frame_receiver len
          (suc n)
          (record { pos = pos; rest = wire f ++ more })
          s
        ≡ delivered (f ∷ fs) s
  unfolding parse_loop deliver allocate receive
  parse_loop_step len pos n f fs more s (none, s') e v c room ih =
      rw (wire_parts f more)
        (ground (arith, e, parse_frame-wire_at len pos f more s (none, s') e v c room))
  parse_loop_step len pos n f fs more s (some g, s') e v c room ih = rw (wire_parts f more) (
      ground (
        arith,
        e,
        parse_frame-wire_at len pos f more s (some g, s') e v c room,
        ih (frame_receiver (fill f g) true s') ((all s s' g c e).1 f v),
      ))

  parse_loop-wires :
      (len pos : ℕ) (fs : List Frame) (more : List ℕ) (s : S)
      → All IsValid fs
      → CanBe s
      → pos + length (wires fs) ≤ len
      → parse_loop frame_allocator frame_receiver len
          (length fs)
          (record { pos = pos; rest = wires fs ++ more })
          s
        ≡ delivered fs s
  unfolding parse_loop deliver wires
  parse_loop-wires len pos [] more s vs c room = refl
  parse_loop-wires len pos (f ∷ fs) more s (v, vs) c room =
      rw (append_assoc (wire f) (wires fs) more) (
        parse_loop_step len pos (length fs) f fs (wires fs ++ more) s (frame_allocator s) refl v c
          (omega (arith, length-append (wire f) (wires fs)))
          (λ s' c'.
            parse_loop-wires len (pos + length (wire f)) fs more s' vs c'
              (omega (arith, length-append (wire f) (wires fs)))))

  parse_body-wires :
      (len : ℕ) (head : List ℕ) (fs : List Frame) (more : List ℕ) (s : S)
      → All IsValid fs
      → CanBe s
      → length head ≡ 5
      → 5 + length (wires fs) ≤ len
      → parse_body frame_allocator frame_receiver len (head ++ (wires fs ++ more)) (length fs) s
        ≡ delivered fs s
  unfolding parse_body
  parse_body-wires len head [] more s vs c h room = unfold deliver in refl
  parse_body-wires len head (f ∷ fs) more s vs c h room =
      rw (drop-append head (wires (f ∷ fs) ++ more) 5 (omega arith))
        (ground (arith, parse_loop-wires len 5 (f ∷ fs) more s vs c room))

  -- A packet in the writer's format, in a buffer that may go on behind it.
  pub parse_frames-wires :
      (seq_no : ℕ) (fs : List Frame) (padding : List ℕ) (s : S)
      → All IsValid fs
      → CanBe s
      → length fs < 2 ^ 16
      → parse_frames frame_allocator frame_receiver
          (length (header seq_no (length fs) ++ wires fs))
          ((header seq_no (length fs) ++ wires fs) ++ padding)
          s
        ≡ delivered fs s
  unfolding parse_frames header be16
  parse_frames-wires seq_no fs padding s vs c count =
      let head : List ℕ = header seq_no (length fs) in
      ground (
        arith,
        of_be16-be16 (length fs) count,
        parse_body-wires (length (head ++ wires fs)) head fs padding s vs c refl (omega arith),
      )

  -- A reader that gets what the writer sent, whatever stands behind it in its buffer, allocates and
  -- receives exactly the frames that were sent, in order; all others are those that were left over.
  -- The caller may be in any state of an invariant of its own, in which it allocates whole frames.
  pub parse_frames-build_packet :
      (len seq_no : ℕ) (fs : List Frame) (padding : List ℕ) (s : S)
      → All IsValid fs
      → CanBe s
      → 5 ≤ len
      → len < 2 ^ 16
      → (sent : List Frame) × (p : Packet) × (build_packet len seq_no fs ≡ some p)
        × (fs ≡ sent ++ p.overflow)
        × (parse_frames frame_allocator frame_receiver (length p.bytes) (p.bytes ++ padding) s
            ≡ delivered sent s)
  parse_frames-build_packet len seq_no fs padding s vs c room u16 =
      let (sent, p, built, bytes, split, bound, count, stops) =
        build_packet_lem len seq_no fs vs room u16 in
      let valid : All IsValid sent =
        All-append_left IsValid sent p.overflow (subst (All IsValid) split vs) in
      (sent, p, built, split, rw bytes (parse_frames-wires seq_no sent padding s valid c count))
