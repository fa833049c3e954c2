-- ===== src/TimeoutTable/Lines.antt =====
-- `CSVMapParser::parse` of csvmapparser.h: which lines count, and what the map holds for a key.
use cannelloni.Prelude.{
  ℕ, ◌+◌, ◌<◌, ◌≡◌, refl, sym, ap, subst, ◌∙◌, inl, inr, true, false, Option, none, some, List, [],
  ◌∷◌, ◌++◌, append_assoc, arith, ◌==◌, if◌then◌else◌, ==_refl, Bool-cases, Option-cases, length,
  All, length-append,
}
use mathlib.Core.Bool.{false≢true}
use mathlib.Core.Option
use cannelloni.TimeoutTable.{
  hash, npos, find_first, find_last_not, later, position, is_comment, Parsed, contains, insert,
  lookup, read_line, add, parse_line, parse_lines, parse,
}

find_first_skips :
    (c i : ℕ) (xs ys : List ℕ)
    → All (λ x. (x == c) ≡ false) xs
    → find_first c i (xs ++ (c ∷ ys)) ≡ some (i + length xs)
unfolding find_first
find_first_skips c i [] ys h = rw (==_refl c) (ap some (omega arith))
find_first_skips c i (x ∷ xs) ys (h, hs) =
    rw h (find_first_skips c (i + 1) xs ys hs ∙ ap some (omega arith))

find_last_not-last :
    (c i y : ℕ) (xs : List ℕ)
    → (y == c) ≡ false
    → find_last_not c i (xs ++ (y ∷ [])) ≡ some (i + length xs)
unfolding find_last_not later
find_last_not-last c i y [] h = rw h (ap some (omega arith))
find_last_not-last c i y (x ∷ xs) h =
    rw (find_last_not-last c (i + 1) y xs h) (ap some (omega arith))

-- A line with a `#` anywhere, and with another character at its end, is skipped: not only a line that
-- starts with `#`, also an entry with a remark behind it.
pub is_comment_inline :
    (xs ys : List ℕ) (y : ℕ)
    → All (λ x. (x == hash) ≡ false) xs
    → (y == hash) ≡ false
    → length xs + length ys < npos
    → is_comment (xs ++ (hash ∷ (ys ++ (y ∷ [])))) ≡ true
unfolding is_comment position
is_comment_inline xs ys y h last range =
    let all : xs ++ (hash ∷ (ys ++ (y ∷ []))) ≡ (xs ++ (hash ∷ ys)) ++ (y ∷ []) =
      sym (append_assoc xs (hash ∷ ys) (y ∷ [])) in
    let second : find_last_not hash 0 (xs ++ (hash ∷ (ys ++ (y ∷ []))))
        ≡ some (0 + length (xs ++ (hash ∷ ys))) =
      ap (find_last_not hash 0) all ∙ find_last_not-last hash 0 y (xs ++ (hash ∷ ys)) last in
    rw (find_first_skips hash 0 xs (ys ++ (y ∷ [])) h, second)
      (ground (arith, length-append xs (hash ∷ ys)))

-- The first of two results that there is.
or_else : {A : Type 0} → Option A → Option A → Option A
or_else none r = r
or_else (some a) r = some a

or_else_assoc : {A : Type 0} (p q r : Option A) → or_else (or_else p q) r ≡ or_else p (or_else q r)
unfolding or_else
or_else_assoc none q r = refl
or_else_assoc (some a) q r = refl

or_else-none : {A : Type 0} (p : Option A) → p ≡ or_else p none
unfolding or_else
or_else-none none = refl
or_else-none (some a) = refl

module _ {V : Type 0} (read_key : List ℕ → Option ℕ) (read_value : List ℕ → Option V) where
  -- The entries of the lines that are no comments, in order; `none` if one of them is not well formed.
  unfoldable pub entries_of : List (List ℕ) → Option (List (ℕ × V))
  entries_of [] = some []
  entries_of (line ∷ lines) =
      let rest = entries_of lines in
      if is_comment line
      then rest
      else Option.bind (read_line ◌==◌ read_key read_value line) λ e. Option.map (λ es. e ∷ es) rest

  abbrev pub look : ℕ → List (ℕ × V) → Option V
  look = lookup ◌==◌ read_key read_value

  lookup-append : (k : ℕ) (m n : List (ℕ × V)) → look k (m ++ n) ≡ or_else (look k m) (look k n)
  unfolding lookup or_else
  lookup-append k [] n = refl
  lookup-append k ((k', v) ∷ m) n = ground (arith, lookup-append k m n)

  contains_lookup :
      (k : ℕ) (m : List (ℕ × V))
      → contains ◌==◌ read_key read_value k m ≡ true
      → (v : V) × (look k m ≡ some v)
  unfolding lookup contains
  contains_lookup k [] e = absurd (false≢true e)
  contains_lookup k ((k', v) ∷ m) e = elim (Bool-cases (k == k')) [
    | inl same ↦ (v, rw same refl)
    | inr other ↦ rw other (contains_lookup k m (rw other at e))
  ]

  lookup-insert :
      (k k' : ℕ) (v : V) (m : List (ℕ × V))
      → look k (insert ◌==◌ read_key read_value k' v m) ≡ or_else (look k m) (look k ((k', v) ∷ []))
  unfolding insert or_else
  lookup-insert k k' v m = elim (Bool-cases (contains ◌==◌ read_key read_value k' m)) [
    | inr new ↦ rw new (lookup-append k m ((k', v) ∷ []))
    | inl old ↦ rw old (
        unfold lookup in
        elim (Bool-cases (k == k')) [
          | inl same ↦
              let (v', found) = contains_lookup k' m old in
              let e : k ≡ k' = ground (arith, same) in rw (ap (λ (x : ℕ). look x m) e ∙ found) refl
          | inr other ↦ rw other (elim (Option-cases (look k m)) [
            | inl none_there ↦ rw none_there refl
            | inr (w, there) ↦ rw there refl
          ])
        ])
  ]

  abbrev pub run : List (List ℕ) → List (ℕ × V) → Parsed ℕ V
  run = parse_lines ◌==◌ read_key read_value

  -- What a run of the loop from the map `m` gives, by what the lines hold.
  abbrev Agrees : Option (List (ℕ × V)) → List (ℕ × V) → Parsed ℕ V → Type 0
  Agrees none m p = p.success ≡ false
  Agrees (some es) m p =
      (p.success ≡ true) × ((k : ℕ) → look k p.entries ≡ or_else (look k m) (look k es))

  Agrees-insert :
      (es : Option (List (ℕ × V))) (k : ℕ) (v : V) (m : List (ℕ × V)) (p : Parsed ℕ V)
      → Agrees es (insert ◌==◌ read_key read_value k v m) p
      → Agrees (Option.map (λ xs. (k, v) ∷ xs) es) m p
  Agrees-insert none k v m p h = h
  Agrees-insert (some es) k v m p (good, h) = (
    good,
    λ x.
        h x
        ∙ ap (λ (r : Option V). or_else r (look x es)) (lookup-insert x k v m)
        ∙ or_else_assoc (look x m) (look x ((k, v) ∷ [])) (look x es)
        ∙ ap (or_else (look x m)) (sym (lookup-append x ((k, v) ∷ []) es)),
  )

  pub run_on :
      (line : List ℕ) (lines : List (List ℕ)) (m m' : List (ℕ × V))
      → parse_line ◌==◌ read_key read_value line m ≡ some m'
      → run (line ∷ lines) m ≡ run lines m'
  unfolding parse_lines
  run_on line lines m m' e = ground (arith, e)

  run_fails :
      (line : List ℕ) (lines : List (List ℕ)) (m : List (ℕ × V))
      → parse_line ◌==◌ read_key read_value line m ≡ none
      → (run (line ∷ lines) m).success ≡ false
  unfolding parse_lines
  run_fails line lines m e = ground (arith, e)

  parse_lines_lem :
      (lines : List (List ℕ)) (m : List (ℕ × V)) → Agrees (entries_of lines) m (run lines m)
  unfolding entries_of Option.bind
  parse_lines_lem [] m =
      (unfold parse_lines in refl, λ k. unfold parse_lines lookup in or_else-none (look k m))
  parse_lines_lem (line ∷ lines) m = elim (Bool-cases (is_comment line)) [
    | inl skipped ↦
        rw (skipped, run_on line lines m m (unfold parse_line in rw skipped refl))
          (parse_lines_lem lines m)
    | inr counted ↦ elim (Option-cases (read_line ◌==◌ read_key read_value line)) [
      | inl malformed ↦
          rw (counted, malformed)
            (run_fails line lines m (unfold parse_line add in rw (counted, malformed) refl))
      | inr ((k, v), fine) ↦
          rw
            (
              counted,
              fine,
              run_on line lines m (insert ◌==◌ read_key read_value k v m)
                  (unfold parse_line add in rw (counted, fine) refl),
            )
            (Agrees-insert (entries_of lines) k v m _
              (parse_lines_lem lines (insert ◌==◌ read_key read_value k v m)))
    ]
  ]

  -- If each line that is no comment is well formed, the parser succeeds, and the map holds for each key
  -- the value of the first of these lines that has it.
  pub parse_lem :
      (lines : List (List ℕ)) (es : List (ℕ × V)) (k : ℕ)
      → entries_of lines ≡ some es
      → ((parse ◌==◌ read_key read_value (some lines)).success ≡ true)
        × (look k (parse ◌==◌ read_key read_value (some lines)).entries ≡ look k es)
  unfolding parse
  parse_lem lines es k e =
      let (good, h) = subst (λ x. Agrees x [] (run lines [])) e (parse_lines_lem lines []) in
      (good, h k ∙ (unfold lookup or_else in refl))

  -- If a line is neither a comment nor well formed, the parser fails.
  pub parse_fails :
      (lines : List (List ℕ))
      → entries_of lines ≡ none
      → (parse ◌==◌ read_key read_value (some lines)).success ≡ false
  unfolding parse
  parse_fails lines e = subst (λ x. Agrees x [] (run lines [])) e (parse_lines_lem lines [])
