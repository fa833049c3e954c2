-- ===== src/Tests/Tables.antt =====
-- Runs of the parser of timeouts at concrete inputs. The conversions read one digit.
use cannelloni.Prelude.{
  ℕ, ◌-◌, ◌≡◌, refl, true, false, ◌&&◌, Option, none, some, List, [], ◌∷◌, ◌++◌, arith, ltb, leb,
  ◌==◌, if◌then◌else◌,
}
use mathlib.Core.Option
use cannelloni.TimeoutTable.{
  hash, is_comment, find_first, find_last_not, later, position, read_line, split_at, convert, parse,
}
use cannelloni.TimeoutTable.Lines.{is_comment_inline, entries_of, look, parse_lem, parse_fails}

abbrev digit : List ℕ → Option ℕ
digit [] = none
digit (x ∷ xs) = if leb 48 x && ltb x 58 then some (x - 48) else none

-- `7,2`, a comment, `7,3` and `8,4`.
abbrev table : List (List ℕ)
table =
    (55 ∷ 44 ∷ 50 ∷ []) ∷ (35 ∷ 55 ∷ 44 ∷ 49 ∷ []) ∷ (55 ∷ 44 ∷ 51 ∷ []) ∷ (56 ∷ 44 ∷ 52 ∷ []) ∷ []

table_entries : entries_of digit digit table ≡ some ((7, 2) ∷ (7, 3) ∷ (8, 4) ∷ [])
unfolding entries_of is_comment find_first find_last_not later position read_line split_at convert
    Option.bind
table_entries = refl

parse_lem_example :
    ((parse ◌==◌ digit digit (some table)).success ≡ true)
    × (look digit digit 7 (parse ◌==◌ digit digit (some table)).entries
        ≡ look digit digit 7 ((7, 2) ∷ (7, 3) ∷ (8, 4) ∷ []))
parse_lem_example = parse_lem digit digit table ((7, 2) ∷ (7, 3) ∷ (8, 4) ∷ []) 7 table_entries

-- `7,2` and a line without a comma.
no_comma : entries_of digit digit ((55 ∷ 44 ∷ 50 ∷ []) ∷ (56 ∷ []) ∷ []) ≡ none
unfolding entries_of is_comment find_first find_last_not later position read_line split_at convert
    Option.bind
no_comma = refl

parse_fails_example :
    (parse ◌==◌ digit digit (some ((55 ∷ 44 ∷ 50 ∷ []) ∷ (56 ∷ []) ∷ []))).success ≡ false
parse_fails_example = parse_fails digit digit ((55 ∷ 44 ∷ 50 ∷ []) ∷ (56 ∷ []) ∷ []) no_comma

-- `7,2#x` is skipped.
is_comment_inline_example : is_comment ((55 ∷ 44 ∷ 50 ∷ []) ++ (hash ∷ ([] ++ (120 ∷ [])))) ≡ true
is_comment_inline_example =
    is_comment_inline (55 ∷ 44 ∷ 50 ∷ []) [] 120 (refl, (refl, (refl, tt))) refl (omega arith)
