-- ===== src/TimeoutTable.antt =====
-- csvmapparser.h: the parser of the file of timeouts, lines of `key,value`. A line is a list of
-- character codes; the conversions by `istringstream >> key` and `>> value` are parameters, `none` for
-- a failure.
pub mod Lines
pub mod Range
pub mod Stream
use cannelloni.Prelude.{
  ℕ, ◌+◌, ◌-◌, ◌^◌, Bool, true, false, ◌||◌, Option, none, some, List, [], ◌∷◌, ◌++◌, ltb, ◌==◌,
  if◌then◌else◌, take, drop,
}

-- The codes of `#` and `,`.
abbrev pub hash : ℕ
hash = 35

abbrev pub comma : ℕ
comma = 44

-- `std::string::npos`, which is above every position in a line.
abbrev pub npos : ℕ
npos = 2 ^ 64 - 1

-- `line.find(c)`, and `line.find_first_of(c)` for one character, from position `i` on.
unfoldable pub find_first : ℕ → ℕ → List ℕ → Option ℕ
find_first c i [] = none
find_first c i (x ∷ xs) = if x == c then some i else find_first c (i + 1) xs

-- The later of two positions.
unfoldable pub later : Option ℕ → Option ℕ → Option ℕ
later r none = r
later r (some i) = some i

-- `line.find_last_not_of(c)`, from position `i` on.
unfoldable pub find_last_not : ℕ → ℕ → List ℕ → Option ℕ
find_last_not c i [] = none
find_last_not c i (x ∷ xs) = later (if x == c then none else some i) (find_last_not c (i + 1) xs)

-- A position as `size_t`.
unfoldable pub position : Option ℕ → ℕ
position none = npos
position (some i) = i

-- `line.find_first_of('#') < line.find_last_not_of('#')`.
unfoldable pub is_comment : List ℕ → Bool
is_comment line = ltb (position (find_first hash 0 line)) (position (find_last_not hash 0 line))

-- What parse() gives: whether it came to the end of the file, and `m_map` by then.
pub record Parsed (K V : Type 0) : Type 0 where
  pub success : Bool
  pub entries : List (K × V)

module _ {K V : Type 0} (same : K → K → Bool) (read_key : List ℕ → Option K)
    (read_value : List ℕ → Option V) where
  unfoldable pub contains : K → List (K × V) → Bool
  contains k [] = false
  contains k ((k', v) ∷ m) = same k k' || contains k m

  -- `m_map.insert`, which keeps the entry that is there.
  unfoldable pub insert : K → V → List (K × V) → List (K × V)
  insert k v m = if contains k m then m else m ++ ((k, v) ∷ [])

  unfoldable pub lookup : K → List (K × V) → Option V
  lookup k [] = none
  lookup k ((k', v) ∷ m) = if same k k' then some v else lookup k m

  -- The key and the value of a line, split at its first comma.
  unfoldable pub convert : Option K → Option V → Option (K × V)
  convert none v = none
  convert (some k) none = none
  convert (some k) (some v) = some (k, v)

  unfoldable pub split_at : Option ℕ → List ℕ → Option (K × V)
  split_at none line = none
  split_at (some pos) line = convert (read_key (take pos line)) (read_value (drop (pos + 1) line))

  unfoldable pub read_line : List ℕ → Option (K × V)
  read_line line = split_at (find_first comma 0 line) line

  unfoldable pub add : Option (K × V) → List (K × V) → Option (List (K × V))
  add none m = none
  add (some (k, v)) m = some (insert k v m)

  -- One round of the loop; `none` ends it with a failure.
  unfoldable pub parse_line : List ℕ → List (K × V) → Option (List (K × V))
  unfolding add
  parse_line line m = if is_comment line then some m else add (read_line line) m

  -- The loop over the lines.
  unfoldable pub parse_lines : List (List ℕ) → List (K × V) → Parsed K V
  parse_lines [] m = record { success = true; entries = m }
  parse_lines (line ∷ lines) m = elim (parse_line line m) [
    | none ↦ record { success = false; entries = m }
    | some m' ↦ parse_lines lines m'
  ]

  -- `parse`, on the lines of the file; `none` if no file is open.
  unfoldable pub parse : Option (List (List ℕ)) → Parsed K V
  parse none = record { success = false; entries = [] }
  parse (some lines) = parse_lines lines []
