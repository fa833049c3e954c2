-- ===== src/TimeoutTable/Range.antt =====
-- The width of the timeouts that `CSVMapParser::parse` of csvmapparser.h reads.
use cannelloni.Prelude.{
  ℕ, ◌+◌, ◌^◌, ◌<◌, ◌≡◌, refl, sym, subst, inl, inr, Option, none, some, List, [], ◌∷◌, arith, ◌==◌,
  Bool-cases, Option-cases, take, drop, All-append,
}
use cannelloni.UdpThread.Deadline.{InRange}
use cannelloni.TimeoutTable.{
  Parsed, parse_lines, parse_line, add, insert, contains, is_comment, read_line, split_at, convert,
  find_first, comma,
}
use cannelloni.TimeoutTable.Lines.{run_on}

module _ (read_key read_value : List ℕ → Option ℕ)
    (narrow : (text : List ℕ) (v : ℕ) → read_value text ≡ some v → v < 2 ^ 32) where
  insert-InRange :
      (k v : ℕ) (m : List (ℕ × ℕ))
      → v < 2 ^ 32
      → InRange m
      → InRange (insert ◌==◌ read_key read_value k v m)
  unfolding insert
  insert-InRange k v m h hs = elim (Bool-cases (contains ◌==◌ read_key read_value k m)) [
    | inl old ↦ rw old hs
    | inr new ↦ rw new (All-append _ m ((k, v) ∷ []) hs (h, tt))
  ]

  convert-range :
      (a b : Option ℕ) (k v : ℕ) → convert ◌==◌ read_key read_value a b ≡ some (k, v) → b ≡ some v
  unfolding convert
  convert-range none b k v e = absurd (cc)
  convert-range (some a) none k v e = absurd (cc)
  convert-range (some a) (some b) k v e = cc

  split_at-range :
      (pos : Option ℕ) (line : List ℕ) (k v : ℕ)
      → split_at ◌==◌ read_key read_value pos line ≡ some (k, v)
      → v < 2 ^ 32
  unfolding split_at
  split_at-range none line k v e = absurd (cc)
  split_at-range (some pos) line k v e =
      narrow (drop (pos + 1) line) v (convert-range (read_key (take pos line)) _ k v e)

  add-InRange :
      (entry : Option (ℕ × ℕ)) (m m' : List (ℕ × ℕ))
      → ((k v : ℕ) → entry ≡ some (k, v) → v < 2 ^ 32)
      → InRange m
      → add ◌==◌ read_key read_value entry m ≡ some m'
      → InRange m'
  unfolding add
  add-InRange none m m' small h e = absurd (cc)
  add-InRange (some (k, v)) m m' small h e =
      let same : insert ◌==◌ read_key read_value k v m ≡ m' = cc in
      subst InRange same (insert-InRange k v m (small k v refl) h)

  parse_line-InRange :
      (line : List ℕ) (m m' : List (ℕ × ℕ))
      → InRange m
      → parse_line ◌==◌ read_key read_value line m ≡ some m'
      → InRange m'
  unfolding parse_line read_line
  parse_line-InRange line m m' h e = elim (Bool-cases (is_comment line)) [
    | inl skipped ↦ let same : m ≡ m' = cc (rw skipped at e) in subst InRange same h
    | inr counted ↦
        add-InRange (split_at ◌==◌ read_key read_value (find_first comma 0 line) line) m m'
          (split_at-range (find_first comma 0 line) line) h (rw counted at e)
  ]

  -- If no value of a line is wider than 32 bits, no value of the table is.
  pub parse_lines-InRange :
      (lines : List (List ℕ)) (m : List (ℕ × ℕ))
      → InRange m
      → InRange (parse_lines ◌==◌ read_key read_value lines m).entries
  unfolding parse_lines
  parse_lines-InRange [] m h = h
  parse_lines-InRange (line ∷ lines) m h =
      elim (Option-cases (parse_line ◌==◌ read_key read_value line m)) [
        | inl failed ↦ ground (arith, failed)
        | inr (m', went) ↦
            subst (λ (p : Parsed ℕ ℕ). InRange p.entries)
              (sym (run_on read_key read_value line lines m m' went))
              (parse_lines-InRange lines m' (parse_line-InRange line m m' h went))
      ]
