-- ===== src/Tests/Packets.antt =====
-- Runs of the packet writer and reader at concrete inputs.
use cannelloni.Prelude.{
  ℕ, ◌^◌, ◌≤◌, ◌<◌, ◌≡◌, refl, Bool, true, Option, some, List, [], ◌∷◌, ◌++◌, arith, length,
  replicate, All, All-append,
}
use cannelloni.Frame.{Frame, canfd_len, has_fd_bit, has_data, frame_size}
use cannelloni.Frame.{IsValid}
use cannelloni.Packet.Wire.{wire, wires, data_section, build_packet_lem, Stops}
use cannelloni.Packet.Deliver.{AllocatesFrames, deliver}
use cannelloni.Packet.RoundTrip.{parse_frames-build_packet}
use cannelloni.Packet.Post.{Post}
use cannelloni.Packet.Safety.{Keeps, BufferTooSmall, parse_frames-Post}
use cannelloni.Packet.Truncation.{Throws, parse_frames_truncated}
use cannelloni.Packet.Overrun.{parse_frames_overrun, parse_frame_overread}
use cannelloni.Packet.Build.{Packet, build_packet, load_frames, frame_bytes, payload_bytes, header}
use cannelloni.Packet.Bytes.{be32, be16, of_be32, of_be16}
use cannelloni.Packet.Parse.{
  parse_frames, parse_loop, parse_frame, allocate, read_id, read_flags, read_data, copy_payload,
}
use cannelloni.Packet.Outcome.{ok, fault, write_past_frame, read_past_buffer}

-- A caller that gives out zeroed frames and keeps what it receives.
abbrev Received : Type 0
Received = List (Frame × Bool)

abbrev blank : Frame
blank = record { addr = 0; can_id = 0; len = 0; flags = 0; payload = replicate 64 0 }

abbrev give : Received → Option Frame × Received
give s = (some blank, s)

abbrev keep : Frame → Bool → Received → Received
keep f b s = s ++ ((f, b) ∷ [])

abbrev standard : Frame
standard = record {
  addr = 1;
  can_id = 0x123;
  len = 3;
  flags = 0;
  payload = 0xaa ∷ 0xbb ∷ 0xcc ∷ replicate 61 0;
}

abbrev fd : Frame
fd = record {
  addr = 2;
  can_id = 0x92345678;
  len = 0x82;
  flags = 1;
  payload = 7 ∷ 8 ∷ replicate 62 0;
}

abbrev remote : Frame
remote = record { addr = 3; can_id = 0x40000001; len = 4; flags = 0; payload = replicate 64 0 }

abbrev packet : List ℕ
packet =
    2 ∷ 0 ∷ 9 ∷ 0 ∷ 3 ∷ 0 ∷ 0 ∷ 0x01 ∷ 0x23 ∷ 3 ∷ 0xaa ∷ 0xbb ∷ 0xcc ∷ 0x92 ∷ 0x34 ∷ 0x56 ∷ 0x78
    ∷ 0x82 ∷ 1 ∷ 7 ∷ 8 ∷ 0x40 ∷ 0 ∷ 0 ∷ 1 ∷ 4 ∷ []

build_three :
    build_packet 1472 9 (standard ∷ fd ∷ remote ∷ [])
    ≡ some (record { bytes = packet; overflow = [] })
unfolding build_packet load_frames frame_bytes payload_bytes header be32 be16 canfd_len has_fd_bit
    has_data frame_size
build_three = refl

parse_three :
    parse_frames give keep 26 packet []
    ≡ ok tt (
        (record standard { addr = 0 }, true)
        ∷ (record fd { addr = 0 }, true)
        ∷ (record remote { addr = 0 }, true)
        ∷ [])
unfolding parse_frames parse_loop parse_frame allocate read_id read_flags read_data copy_payload
    of_be32 of_be16 canfd_len has_fd_bit has_data
parse_three = refl

abbrev three : List Frame
three = standard ∷ fd ∷ remote ∷ []

standard-IsValid : IsValid standard
unfolding canfd_len
standard-IsValid = omega arith

three-IsValid : All IsValid three
unfolding canfd_len
three-IsValid = omega arith

give-AllocatesFrames : AllocatesFrames give keep (λ _. Unit {0})
give-AllocatesFrames s s' g c e = (ground arith, λ f v. tt)

parse_frames-build_packet_example :
    (sent : List Frame) × (p : Packet) × (build_packet 1472 9 three ≡ some p)
    × (three ≡ sent ++ p.overflow)
    × (parse_frames give keep (length p.bytes) (p.bytes ++ (0 ∷ 0 ∷ [])) []
        ≡ deliver give keep sent [])
parse_frames-build_packet_example =
    parse_frames-build_packet give keep (λ _. Unit {0}) give-AllocatesFrames 1472 9 three
      (0 ∷ 0 ∷ []) [] three-IsValid tt (omega arith) (omega arith)

build_packet_lem_example :
    (sent : List Frame) × (p : Packet) × (build_packet 20 9 three ≡ some p)
    × (p.bytes ≡ header 9 (length sent) ++ wires sent)
    × (three ≡ sent ++ p.overflow)
    × (length p.bytes ≤ 20)
    × (length sent < 2 ^ 16)
    × Stops 20 (length p.bytes) p.overflow
build_packet_lem_example = build_packet_lem 20 9 three three-IsValid (omega arith) (omega arith)

-- The reader's callbacks keep the number of frames received below, or equal to, any number.
keep-Keeps :
    Keeps give keep (λ s. All (λ r. r.0.addr ≡ 0) s) (λ a s. (a ≡ 0) × All (λ r. r.0.addr ≡ 0) s)
keep-Keeps = record {
  gives = λ s h. (refl, h);
  takes = λ g b s h. All-append (λ r. r.0.addr ≡ 0) s ((g, b) ∷ []) h.1 (h.0, tt);
}

parse_frames-Post_example :
    Post
      (All (λ r. r.0.addr ≡ 0))
      (BufferTooSmall 26 26)
      (λ _. All (λ r. r.0.addr ≡ 0))
      (parse_frames give keep 26 packet [])
parse_frames-Post_example =
    parse_frames-Post give keep (All (λ r. r.0.addr ≡ 0))
      (λ a s. (a ≡ 0) × All (λ r. r.0.addr ≡ 0) s) keep-Keeps 26 packet [] tt (omega arith)

-- Seven of its eight bytes are left, and the buffer is zeroed behind them.
parse_frames_truncated_example : Throws (
    parse_frames give keep 12
      (header 9 1 ++ (be32 0x123 ++ (3 ∷ 0xaa ∷ 0xbb ∷ []) ++ (0 ∷ 0 ∷ [])))
      [])
unfolding canfd_len has_data wires wire be32 has_fd_bit data_section
parse_frames_truncated_example =
    parse_frames_truncated give keep (λ _. Unit {0}) give-AllocatesFrames 9 standard []
      (be32 0x123 ++ (3 ∷ 0xaa ∷ 0xbb ∷ [])) (0xcc ∷ []) (0 ∷ []) 0 [] (standard-IsValid, tt)
      (refl, tt) tt (omega arith) refl (omega arith)

-- 70 bytes of data, as no `canfd_frame` holds but a packet may say.
abbrev long : Frame
long = record { addr = 4; can_id = 1; len = 70; flags = 0; payload = replicate 70 0xee }

parse_frames_overrun_example :
    parse_frames give keep 80 (header 9 1 ++ (wire long ++ [])) [] ≡ fault write_past_frame
unfolding canfd_len has_data wire be32 has_fd_bit data_section
parse_frames_overrun_example =
    parse_frames_overrun give keep 80 9 long blank [] [] [] (omega arith) refl (omega arith)
      (omega arith) refl refl (omega arith)

parse_frame_overread_example :
    parse_frame give keep 1500 (record { pos = 1495; rest = be32 1 ++ (0x80 ∷ []) }) []
    ≡ fault read_past_buffer
unfolding has_fd_bit
parse_frame_overread_example =
    parse_frame_overread give keep 1500 1495 1 0x80 blank [] [] (omega arith) refl (omega arith)
      refl
