-- ===== src/Packet/Safety.antt =====
-- What `parseFrames` keeps: the caller's invariant, and the bounds of the receive buffer.
use cannelloni.Prelude.{
  ℕ, zero, suc, ◌+◌, ◌≤◌, ◌≡◌, refl, ◌∙◌, inl, inr, Bool, true, false, Option, none, some, List, [],
  ◌∷◌, arith, ltb, ◌==◌, ltb→le, Bool-cases, length, length-drop,
}
use cannelloni.Frame.{Frame, canfd_len, has_data}
use cannelloni.Packet.Outcome.{◌>>=◌, ◌>>◌, Fault, pure, read_past_buffer}
use cannelloni.Packet.Bytes.{of_be16}
use cannelloni.Packet.Post.{Post, Post->>=}
use cannelloni.Packet.Parse.{
  Cursor, read_byte, read_id, read_flags, allocate, receive, read_data, parse_frame, parse_loop,
  parse_body, parse_frames,
}
use cannelloni.Packet.Reading.{
  end_of, At, read_id-Post, read_byte-Post, read_flags-Post, copy_payload-Post,
}

-- `P` holds between the callbacks, and `Q a` while the frame at address `a` is in the reader's hands.
abbrev pub Given : {S : Type 0} → (S → Type 0) → (ℕ → S → Type 0) → Option Frame × S → Type 0
Given P Q (none, s) = P s
Given P Q (some g, s) = Q g.addr s

pub record Keeps {S : Type 0} (frame_allocator : S → Option Frame × S)
    (frame_receiver : Frame → Bool → S → S) (P : S → Type 0) (Q : ℕ → S → Type 0) : Type 0 where
  pub gives : (s : S) → P s → Given P Q (frame_allocator s)
  pub takes : (g : Frame) (b : Bool) (s : S) → Q g.addr s → P (frame_receiver g b s)

-- A fault of the reader: an overrun of `canfd_frame::data`, or else of a receive buffer that has no
-- byte behind the packet.
abbrev pub BufferTooSmall : ℕ → ℕ → Fault → Type 0
BufferTooSmall len size x = x ≡ read_past_buffer → size ≤ len

module _ {S : Type 0} (frame_allocator : S → Option Frame × S)
    (frame_receiver : Frame → Bool → S → S) (P : S → Type 0) (Q : ℕ → S → Type 0)
    (keeps : Keeps frame_allocator frame_receiver P Q) where
  read_data-Post :
      (len size : ℕ) (f : Frame) (c : Cursor) (s : S)
      → Q f.addr s
      → end_of c ≡ size
      → Post P
          (BufferTooSmall len size)
          (λ r s'. (r.0.addr ≡ f.addr) × (s' ≡ s) × (end_of r.1 ≡ end_of c))
          (read_data frame_allocator frame_receiver len f c s)
  unfolding read_data
  read_data-Post len size f c s q e = elim (Bool-cases (has_data f.can_id)) [
    | inr remote ↦ rw remote (refl, refl, refl)
    | inl plain ↦ rw plain (elim (Bool-cases (ltb len (c.pos + canfd_len f))) [
      | inl cut ↦ rw cut (keeps.takes (record f { len = 0 }) false s q)
      | inr fits ↦ rw fits (
          copy_payload-Post P (BufferTooSmall len size) (canfd_len f) c s f (λ x. cc)
            (λ h _. omega (arith, ltb→le _ _ fits)))
    ])
  ]

  allocate-Post :
      (F : Fault → Type 0) (s : S)
      → P s
      → Post P F (λ g. Q g.addr) (allocate frame_allocator frame_receiver s)
  unfolding allocate
  allocate-Post F s p = go (frame_allocator s) (keeps.gives s p)
    where
      go :
          (r : Option Frame × S)
          → Given P Q r
          → Post P F (λ g. Q g.addr) (allocate (λ _. r) frame_receiver s)
      go (none, s') h = h
      go (some g, s') h = h

  -- From the data section on, with the frame at address `a` in hand.
  finish-Post :
      (len size a : ℕ) (f : Frame) (c : Cursor) (s : S)
      → f.addr ≡ a
      → Q a s
      → end_of c ≡ size
      → Post P
          (BufferTooSmall len size)
          (λ c' s'. P s' × (end_of c' ≡ size))
          ((do
            (f', c') ← read_data frame_allocator frame_receiver len f c
            receive frame_allocator frame_receiver f' true
            pure c')
            s)
  unfolding receive
  finish-Post len size a f c s ea q e =
      Post->>= P (BufferTooSmall len size)
        (λ r s'. (r.0.addr ≡ f.addr) × (s' ≡ s) × (end_of r.1 ≡ end_of c))
        (λ c' s'. P s' × (end_of c' ≡ size)) (read_data frame_allocator frame_receiver len f c) _ s
        (read_data-Post len size f c s (rw ea q) e)
        λ (f', c') s' (ef, es, ec). (keeps.takes f' true s' (rw (ef, ea, es) q), ec ∙ e)

  fill-Post :
      (len size : ℕ) (g : Frame) (c : Cursor) (s : S)
      → Q g.addr s
      → c.pos + 5 ≤ len
      → end_of c ≡ size
      → Post P
          (BufferTooSmall len size)
          (λ c' s'. P s' × (end_of c' ≡ size))
          ((do
            (id, c1) ← read_id c
            (l, c2) ← read_byte c1
            (f, c3) ← read_flags (record g { can_id = id; len = l }) c2
            (f', c4) ← read_data frame_allocator frame_receiver len f c3
            receive frame_allocator frame_receiver f' true
            pure c4)
            s)
  fill-Post len size g c s q room e =
      let F : Fault → Type 0 = BufferTooSmall len size in
      let L : Cursor → S → Type 0 = λ c' s'. P s' × (end_of c' ≡ size) in
      Post->>= P F (λ r. At c s 4 r.1) L (read_id c) _ s (read_id-Post P F c s (λ h _. omega arith))
        λ (id, c1) s1 h1.
          Post->>= P F (λ r. At c s 5 r.1) L (read_byte c1) _ s1
            (read_byte-Post P F c s 4 c1 s1 h1 (λ h _. omega arith))
            λ (l, c2) s2 h2.
              let f : Frame = record g { can_id = id; len = l } in
              Post->>= P F (λ r s'. (r.0.addr ≡ f.addr) × (s' ≡ s2) × (end_of r.1 ≡ end_of c2)) L
                (read_flags f c2) _ s2 (read_flags-Post P F c2 s2 f (λ h _. omega (arith, h2)))
                λ (f', c3) s3 (ef, es, ec).
                  finish-Post len size g.addr f' c3 s3 ef (rw (es, h2.0) q) (ec ∙ h2.2 ∙ e)

  parse_frame-Post :
      (len size : ℕ) (c : Cursor) (s : S)
      → P s
      → end_of c ≡ size
      → Post P
          (BufferTooSmall len size)
          (λ c' s'. P s' × (end_of c' ≡ size))
          (parse_frame frame_allocator frame_receiver len c s)
  unfolding parse_frame
  parse_frame-Post len size c s p e = elim (Bool-cases (ltb len (c.pos + 5))) [
    | inl cut ↦ rw cut p
    | inr fits ↦ rw fits (
        Post->>= P (BufferTooSmall len size) (λ g. Q g.addr) (λ c' s'. P s' × (end_of c' ≡ size))
          (allocate frame_allocator frame_receiver) _ s
          (allocate-Post (BufferTooSmall len size) s p)
          λ g s' q. fill-Post len size g c s' q (ltb→le _ _ fits) e)
  ]

  parse_loop-Post :
      (len size n : ℕ) (c : Cursor) (s : S)
      → P s
      → end_of c ≡ size
      → Post P
          (BufferTooSmall len size)
          (λ _. P)
          (parse_loop frame_allocator frame_receiver len n c s)
  unfolding parse_loop
  parse_loop-Post len size zero c s p e = p
  parse_loop-Post len size (suc n) c s p e =
      Post->>= P (BufferTooSmall len size) (λ c' s'. P s' × (end_of c' ≡ size)) (λ _. P)
        (parse_frame frame_allocator frame_receiver len c) _ s (parse_frame-Post len size c s p e)
        λ c' s' h. parse_loop-Post len size n c' s' h.0 h.1

  parse_body-Post :
      (len count : ℕ) (buffer : List ℕ) (s : S)
      → P s
      → 5 ≤ length buffer
      → Post P
          (BufferTooSmall len (length buffer))
          (λ _. P)
          (parse_body frame_allocator frame_receiver len buffer count s)
  unfolding parse_body
  parse_body-Post len count buffer s p h = elim (Bool-cases (count == 0)) [
    | inl empty ↦ rw empty p
    | inr some_frames ↦
        rw some_frames
          (parse_loop-Post len (length buffer) count _ s p (omega (arith, length-drop 5 buffer)))
  ]

  -- Whatever the packet: an invariant that the callbacks keep holds after `parseFrames`, also where
  -- it throws; each frame that it took from the allocator has gone to the receiver by then. It can
  -- read past the receive buffer only if the packet fills the buffer to its end.
  pub parse_frames-Post :
      (len : ℕ) (buffer : List ℕ) (s : S)
      → P s
      → 5 ≤ length buffer
      → Post P
          (BufferTooSmall len (length buffer))
          (λ _. P)
          (parse_frames frame_allocator frame_receiver len buffer s)
  unfolding parse_frames
  parse_frames-Post len [] s p h = absurd (omega arith)
  parse_frames-Post len (v ∷ []) s p h = absurd (omega arith)
  parse_frames-Post len (v ∷ o ∷ []) s p h = absurd (omega arith)
  parse_frames-Post len (v ∷ o ∷ q ∷ []) s p h = absurd (omega arith)
  parse_frames-Post len (v ∷ o ∷ q ∷ a ∷ []) s p h = absurd (omega arith)
  parse_frames-Post len (v ∷ o ∷ q ∷ a ∷ b ∷ r) s p h = elim (Bool-cases (v == 2)) [
    | inr other ↦ rw other p
    | inl v2 ↦ rw v2 (elim (Bool-cases (o == 0)) [
      | inr other ↦ rw other p
      | inl op ↦ rw op (parse_body-Post len (of_be16 a b) (v ∷ o ∷ q ∷ a ∷ b ∷ r) s p h)
    ])
  ]
