-- ===== src/Packet/Reading.antt =====
-- What the parts of `parseFrames` of parser.cpp that only read keep: the caller's state and the frame's
-- address, and how far they read.
use cannelloni.Prelude.{
  ℕ, ◌+◌, ◌<◌, ◌≡◌, refl, inl, inr, List, [], ◌∷◌, arith, ltb, ltb→lt, ltb→le, Bool-cases, length,
  length-drop,
}
use cannelloni.Frame.{Frame, is_fd}
use cannelloni.Packet.Outcome.{Fault, read_past_buffer, write_past_frame}
use cannelloni.Packet.Post.{Post, Post->>=}
use cannelloni.Packet.Parse.{Cursor, read_byte, read_id, read_flags, copy_payload}

-- The end of the array that a cursor walks through.
abbrev pub end_of : Cursor → ℕ
end_of c = c.pos + length c.rest

-- The state is as before, and the cursor moved on by `k` bytes of the same array.
abbrev pub At : {S : Type 0} → Cursor → S → ℕ → Cursor → S → Type 0
At c s k c' s' = (s' ≡ s) × (c'.pos ≡ c.pos + k) × (end_of c' ≡ end_of c)

-- The parts that touch no state of the caller's. `short` says what a read past the array means.
module _ {S : Type 0} (E : S → Type 0) (F : Fault → Type 0) where
  next_byte-Post :
      (c : Cursor) (s : S) (k pos : ℕ) (rest : List ℕ) (s' : S)
      → At c s k (record { pos = pos; rest = rest }) s'
      → (length c.rest < k + 1 → F read_past_buffer)
      → Post E F (λ r. At c s (k + 1) r.1) (read_byte (record { pos = pos; rest = rest }) s')
  unfolding read_byte
  next_byte-Post c s k pos [] s' (e, p, q) short = short (omega arith)
  next_byte-Post c s k pos (b ∷ r) s' (e, p, q) short = (e, omega arith, omega arith)

  pub read_byte-Post :
      (c : Cursor) (s : S) (k : ℕ) (c' : Cursor) (s' : S)
      → At c s k c' s'
      → (length c.rest < k + 1 → F read_past_buffer)
      → Post E F (λ r. At c s (k + 1) r.1) (read_byte c' s')
  read_byte-Post c s k c' s' at short = next_byte-Post c s k c'.pos c'.rest s' at short

  pub read_id-Post :
      (c : Cursor) (s : S)
      → (length c.rest < 4 → F read_past_buffer)
      → Post E F (λ r. At c s 4 r.1) (read_id c s)
  unfolding read_id
  read_id-Post c s short =
      Post->>= E F (λ r. At c s 1 r.1) (λ r. At c s 4 r.1) (read_byte c) _ s
        (read_byte-Post c s 0 c s (refl, omega arith, refl) (λ h. short (omega arith)))
        λ (a, c1) s1 h1.
          Post->>= E F (λ r. At c s 2 r.1) (λ r. At c s 4 r.1) (read_byte c1) _ s1
            (read_byte-Post c s 1 c1 s1 h1 (λ h. short (omega arith)))
            λ (b, c2) s2 h2.
              Post->>= E F (λ r. At c s 3 r.1) (λ r. At c s 4 r.1) (read_byte c2) _ s2
                (read_byte-Post c s 2 c2 s2 h2 (λ h. short (omega arith)))
                λ (d, c3) s3 h3.
                  Post->>= E F (λ r. At c s 4 r.1) (λ r. At c s 4 r.1) (read_byte c3) _ s3
                    (read_byte-Post c s 3 c3 s3 h3 (λ h. short (omega arith))) λ (e, c4) s4 h4. h4

  -- The same frame, and at most one byte read.
  pub read_flags-Post :
      (c : Cursor) (s : S) (f : Frame)
      → (length c.rest < 1 → F read_past_buffer)
      → Post E F
          (λ r s'. (r.0.addr ≡ f.addr) × (s' ≡ s) × (end_of r.1 ≡ end_of c))
          (read_flags f c s)
  unfolding read_flags
  read_flags-Post c s f short = elim (Bool-cases (is_fd f)) [
    | inl fd ↦ rw fd (
        Post->>= E F (λ r. At c s 1 r.1)
          (λ r s'. (r.0.addr ≡ f.addr) × (s' ≡ s) × (end_of r.1 ≡ end_of c)) (read_byte c) _ s
          (read_byte-Post c s 0 c s (refl, omega arith, refl) (λ h. short (omega arith)))
          λ (b, c') s' (e, p, q). (refl, e, q))
    | inr classic ↦ rw classic (refl, refl, refl)
  ]

  pub copy_payload-Post :
      (n : ℕ) (c : Cursor) (s : S) (f : Frame)
      → F write_past_frame
      → (length c.rest < n → F read_past_buffer)
      → Post E F
          (λ r s'. (r.0.addr ≡ f.addr) × (s' ≡ s) × (end_of r.1 ≡ end_of c))
          (copy_payload n f c s)
  unfolding copy_payload
  copy_payload-Post n c s f over short = elim (Bool-cases (ltb (length f.payload) n)) [
    | inl long ↦ rw long over
    | inr fits ↦ rw fits (elim (Bool-cases (ltb (length c.rest) n)) [
      | inl past ↦ rw past (short (ltb→lt _ _ past))
      | inr room ↦ rw room (refl, refl, omega (arith, length-drop n c.rest, ltb→le _ _ room))
    ])
  ]
