-- ===== src/TimeoutTable/Stream.antt =====
-- The object CSVMapParser of csvmapparser.h: the map and the file stream. `read` gives the map, which is
-- a field here.
use cannelloni.Prelude.{
  ℕ, ◌≡◌, refl, sym, ap, ◌∙◌, inl, inr, Bool, true, false, Option, none, some, List, [], ◌∷◌,
  Option-cases,
}
use cannelloni.TimeoutTable.{parse_line, parse_lines, parse}

-- `stream` holds the lines that are still to be read, if a file is open.
pub record CsvMapParser (K V : Type 0) : Type 0 where
  pub entries : List (K × V)
  pub stream : Option (List (List ℕ))

abbrev pub new_parser : {K V : Type 0} → CsvMapParser K V
new_parser = record { entries = []; stream = none }

-- `open`, with what the file holds, if it can be opened.
unfoldable pub open_stream :
    {K V : Type 0} → Option (List (List ℕ)) → CsvMapParser K V → Bool × CsvMapParser K V
open_stream file p = elim p.stream [
  | some lines ↦ (false, p)
  | none ↦ elim file [ none ↦ (false, p) | some lines ↦ (true, record p { stream = some lines }) ]
]

unfoldable pub close_stream : {K V : Type 0} → CsvMapParser K V → Bool × CsvMapParser K V
close_stream p = elim p.stream [
  | none ↦ (false, p)
  | some lines ↦ (true, record p { stream = none })
]

module _ {K V : Type 0} (same : K → K → Bool) (read_key : List ℕ → Option K)
    (read_value : List ℕ → Option V) where
  -- The lines behind those that the loop of `parse` reads.
  unfoldable pub unread : List (List ℕ) → List (K × V) → List (List ℕ)
  unread [] m = []
  unread (line ∷ lines) m = elim (parse_line same read_key read_value line m) [
    | none ↦ lines
    | some m' ↦ unread lines m'
  ]

  unfoldable pub parse_stream : CsvMapParser K V → Bool × CsvMapParser K V
  parse_stream p = elim p.stream [
    | none ↦ (false, record p { entries = [] })
    | some lines ↦
        let parsed = parse same read_key read_value (some lines) in
        (parsed.success, record { entries = parsed.entries; stream = some (unread lines []) })
  ]

  unread-success :
      (lines : List (List ℕ)) (m : List (K × V))
      → (parse_lines same read_key read_value lines m).success ≡ true
      → unread lines m ≡ []
  unfolding unread parse_lines
  unread-success [] m e = refl
  unread-success (line ∷ lines) m e =
      elim (Option-cases (parse_line same read_key read_value line m)) [
        | inl failed ↦ absurd (cc (rw (failed, parse_lines) at e))
        | inr (m', good) ↦ rw (good, unread) (unread-success lines m' (rw (good, parse_lines) at e))
      ]

  -- A successful parse leaves nothing in the stream: a second one of the same object succeeds, too, but
  -- empties the map.
  pub parse_stream-again :
      (p p' : CsvMapParser K V)
      → parse_stream p ≡ (true, p')
      → parse_stream p' ≡ (true, record { entries = []; stream = some [] })
  unfolding parse_stream parse parse_lines unread
  parse_stream-again p p' e = elim (Option-cases p.stream) [
    | inl closed ↦ absurd (cc (rw closed at e))
    | inr (lines, opened) ↦
        let good : (parse_lines same read_key read_value lines []).success ≡ true =
          cc (rw opened at e) in
        let rest : p'.stream ≡ some [] =
          sym (ap (λ (q : Bool × CsvMapParser K V). q.1.stream) (rw opened at e))
          ∙ ap some (unread-success lines [] good) in
        rw rest refl
  ]
