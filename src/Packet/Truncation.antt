-- ===== src/Packet/Truncation.antt =====
-- `parseFrames` of parser.cpp on a packet that was cut short.
use cannelloni.Prelude.{
  ℕ, suc, ◌+◌, ◌^◌, ◌≤◌, ◌<◌, ◌≡◌, refl, sym, ap, subst, ◌∙◌, inl, inr, Bool, true, false, Option,
  none, some, List, [], ◌∷◌, ◌++◌, append_assoc, arith, ltb, if◌then◌else◌, ltb→lt, ltb→le,
  Bool-cases, length, All, length-append, length-take,
}
use cannelloni.Frame.{Frame, IsValid, canfd_len, is_fd, has_data}
use cannelloni.Packet.Bytes.{be32, be16, of_be16-be16}
use cannelloni.Packet.Outcome.{
  Outcome, Error, threw, allocation_error, incomplete_packet, corrupt_header,
}
use cannelloni.Packet.Build.{header}
use cannelloni.Packet.Wire.{data_section, wire, wires}
use cannelloni.Packet.Fields.{flag_bytes, wire_parts, length-wire, read_id-be32, canfd_len-cong}
use cannelloni.Packet.Deliver.{fill, AllocatesFrames}
use cannelloni.Packet.RoundTrip.{parse_frame-wire_at}
use cannelloni.Packet.Parse.{
  read_flags, Cursor, read_byte, read_data, receive, allocate, parse_frame, parse_loop, parse_body,
  parse_frames,
}

abbrev pub Throws : {S A : Type 0} → Outcome S A → Type 0
Throws {S} o = (e : Error) × (s : S) × (o ≡ threw e s)

-- No remote frames: their `len` byte has no data behind it to miss.
abbrev pub HaveData : List Frame → Type 0
HaveData = All (λ f. has_data f.can_id ≡ true)

-- Of two splits of one list, the one that comes later goes on from the other one.
split_at_length :
    (start part end missing : List ℕ)
    → part ++ missing ≡ start ++ end
    → length start ≤ length part
    → (tail : List ℕ) × (part ≡ start ++ tail) × (tail ++ missing ≡ end)
split_at_length [] part end missing e h = (part, refl, e)
split_at_length (x ∷ start) [] end missing e h = absurd (omega (arith, h))
split_at_length (x ∷ start) (y ∷ part) end missing e h =
    let (tail, split, rest) = split_at_length start part end missing (cc) (omega (arith, h)) in
    (tail, cc, rest)

-- The first byte behind a part.
next_of :
    (tail : List ℕ) (x : ℕ) (more : List ℕ)
    → (y : ℕ) × (ys : List ℕ) × (tail ++ (x ∷ more) ≡ y ∷ ys)
next_of [] x more = (x, more, refl)
next_of (y ∷ tail) x more = (y, tail ++ (x ∷ more), refl)

module _ {S : Type 0} (frame_allocator : S → Option Frame × S)
    (frame_receiver : Frame → Bool → S → S) where
  -- Cut behind the identifier and the length, with `x` as the next byte in the buffer: the second check of
  -- the length finds it.
  parse_frame_cut_late :
      (len pos : ℕ) (f : Frame) (x : ℕ) (more : List ℕ) (s : S) (r : Option Frame × S)
      → frame_allocator s ≡ r
      → IsValid f
      → has_data f.can_id ≡ true
      → len < pos + length (wire f)
      → pos + 5 ≤ len
      → Throws (
          parse_frame frame_allocator frame_receiver len
            (record { pos = pos; rest = be32 f.can_id ++ (f.len ∷ (x ∷ more)) })
            s)
  unfolding parse_frame allocate read_byte read_flags read_data data_section receive flag_bytes
  parse_frame_cut_late len pos f x more s (none, s') e v plain cut late =
      (allocation_error, s', ground arith)
  parse_frame_cut_late len pos f x more s (some g, s') e v plain cut late =
      let g1 : Frame = record g { can_id = f.can_id; len = f.len } in
      let g2 : Frame = record g1 { flags = if is_fd f then x else g.flags } in
      (
        corrupt_header,
        frame_receiver (record g2 { len = 0 }) false s',
        ground (
          arith,
          length-wire f,
          length-take (canfd_len f) f.payload (omega arith),
          read_id-be32 f.can_id pos (f.len ∷ (x ∷ more)) s' v.id_range,
          canfd_len-cong f g2 refl,
        ),
      )

  parse_frame_cut :
      (len pos : ℕ) (f : Frame) (part missing more : List ℕ) (x : ℕ) (fs : List Frame) (s : S)
      → IsValid f
      → has_data f.can_id ≡ true
      → part ++ missing ≡ wire f ++ wires fs
      → len ≡ pos + length part
      → length part < length (wire f)
      → Throws (
          parse_frame frame_allocator frame_receiver len
            (record { pos = pos; rest = part ++ (x ∷ more) })
            s)
  unfolding wire
  parse_frame_cut len pos f part missing more x fs s v plain e at cut =
      elim (Bool-cases (ltb len (pos + 5))) [
        | inl early ↦ (incomplete_packet, s, unfold parse_frame in ground arith)
        | inr late ↦
            let start = be32 f.can_id ++ (f.len ∷ []) in
            let behind = flag_bytes f ++ (data_section f ++ wires fs) in
            let (tail, split, rest) =
              split_at_length start part behind missing
                (e
                  ∙ wire_parts f (wires fs)
                  ∙ sym (append_assoc (be32 f.can_id) (f.len ∷ []) behind))
                (unfold be32 in omega (arith, ltb→le _ _ late)) in
            let (y, ys, next_byte) = next_of tail x more in
            let content : part ++ (x ∷ more) ≡ be32 f.can_id ++ (f.len ∷ (y ∷ ys)) =
              ap (λ (xs : List ℕ). xs ++ (x ∷ more)) split
              ∙ append_assoc start tail (x ∷ more)
              ∙ ap (λ (xs : List ℕ). start ++ xs) next_byte
              ∙ append_assoc (be32 f.can_id) (f.len ∷ []) (y ∷ ys) in
            subst
              (λ (xs : List ℕ). Throws (
                parse_frame frame_allocator frame_receiver len (record { pos = pos; rest = xs }) s))
              (sym content)
              (parse_frame_cut_late len pos f y ys s (frame_allocator s) refl v plain
                (omega (arith, at, cut)) (ltb→le _ _ late))
      ]

  -- One round that throws ends the loop.
  parse_loop_stops :
      (len n : ℕ) (c : Cursor) (s : S)
      → Throws (parse_frame frame_allocator frame_receiver len c s)
      → Throws (parse_loop frame_allocator frame_receiver len (suc n) c s)
  unfolding parse_loop
  parse_loop_stops len n c s (e, s', h) = (e, s', ground arith)

module _ {S : Type 0} (frame_allocator : S → Option Frame × S)
    (frame_receiver : Frame → Bool → S → S) (CanBe : S → Type 0)
    (all : AllocatesFrames frame_allocator frame_receiver CanBe) where
  parse_loop_goes_on :
      (len pos n : ℕ) (f : Frame) (more : List ℕ) (s : S) (r : Option Frame × S)
      → frame_allocator s ≡ r
      → IsValid f
      → CanBe s
      → pos + length (wire f) ≤ len
      → ((s' : S)
          → CanBe s'
          → Throws (
              parse_loop frame_allocator frame_receiver len n
                (record { pos = pos + length (wire f); rest = more })
                s'))
      → Throws (
          parse_loop frame_allocator frame_receiver len
            (suc n)
            (record { pos = pos; rest = wire f ++ more })
            s)
  unfolding parse_loop allocate receive
  parse_loop_goes_on len pos n f more s (none, s') e v c room ih = (
    allocation_error,
    s',
    rw (wire_parts f more) (
        ground (
          arith,
          e,
          parse_frame-wire_at frame_allocator frame_receiver CanBe all len pos f more s (none, s') e
              v c room,
        )),
  )
  parse_loop_goes_on len pos n f more s (some g, s') e v c room ih =
      let (x, s2, h) = ih (frame_receiver (fill f g) true s') ((all s s' g c e).1 f v) in
      (
        x,
        s2,
        rw (wire_parts f more) (
            ground (
              arith,
              e,
              h,
              parse_frame-wire_at frame_allocator frame_receiver CanBe all len pos f more s
                  (some g, s') e v c room,
            )),
      )

  parse_loop_cut :
      (len pos : ℕ) (fs : List Frame) (part missing more : List ℕ) (x : ℕ) (s : S)
      → All IsValid fs
      → HaveData fs
      → CanBe s
      → part ++ missing ≡ wires fs
      → 0 < length missing
      → len ≡ pos + length part
      → Throws (
          parse_loop frame_allocator frame_receiver len
            (length fs)
            (record { pos = pos; rest = part ++ (x ∷ more) })
            s)
  unfolding wires
  parse_loop_cut len pos [] part missing more x s vs ds c e some_missing at =
      absurd (omega (arith, some_missing, length-append part missing, ap (length {A = ℕ}) e))
  parse_loop_cut len pos (f ∷ fs) part missing more x s (v, vs) (d, ds) c e some_missing at =
      elim (Bool-cases (ltb (length part) (length (wire f)))) [
        | inl here ↦ parse_loop_stops frame_allocator frame_receiver len (length fs) _ s (
            parse_frame_cut frame_allocator frame_receiver len pos f part missing more x fs s v d e
              at (ltb→lt _ _ here))
        | inr later ↦
            let (tail, split, rest) =
              split_at_length (wire f) part (wires fs) missing e (ltb→le _ _ later) in
            let lengths : length part ≡ length (wire f) + length tail =
              ap (length {A = ℕ}) split ∙ length-append (wire f) tail in
            let content : part ++ (x ∷ more) ≡ wire f ++ (tail ++ (x ∷ more)) =
              ap (λ (xs : List ℕ). xs ++ (x ∷ more)) split
              ∙ append_assoc (wire f) tail (x ∷ more) in
            subst
              (λ (xs : List ℕ). Throws (
                parse_loop frame_allocator frame_receiver len (suc (length fs))
                  (record { pos = pos; rest = xs }) s))
              (sym content)
              (parse_loop_goes_on len pos (length fs) f (tail ++ (x ∷ more)) s (frame_allocator s)
                refl v c (omega (arith, at, lengths))
                (λ s' c'.
                  parse_loop_cut len (pos + length (wire f)) fs tail missing more x s' vs ds c' rest
                    some_missing (omega (arith, at, lengths))))
      ]

  -- A packet of valid data frames that is cut anywhere behind its header, read from a buffer that has at
  -- least one byte, of any value, behind what is left of it, ends in an exception, not in a shorter
  -- packet.
  pub parse_frames_truncated :
      (seq_no : ℕ) (f : Frame) (fs : List Frame) (part missing more : List ℕ) (x : ℕ) (s : S)
      → All IsValid (f ∷ fs)
      → HaveData (f ∷ fs)
      → CanBe s
      → length (f ∷ fs) < 2 ^ 16
      → part ++ missing ≡ wires (f ∷ fs)
      → 0 < length missing
      → Throws (
          parse_frames frame_allocator frame_receiver
            (5 + length part)
            (header seq_no (length (f ∷ fs)) ++ (part ++ (x ∷ more)))
            s)
  unfolding parse_frames parse_body header be16
  parse_frames_truncated seq_no f fs part missing more x s vs ds c count e some_missing =
      let (error, s', t) =
        parse_loop_cut (5 + length part) 5 (f ∷ fs) part missing more x s vs ds c e some_missing
          refl in
      (error, s', ground (arith, t, of_be16-be16 (length (f ∷ fs)) count))
