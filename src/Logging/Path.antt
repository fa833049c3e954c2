-- ===== src/Logging/Path.antt =====
-- The name of a source file in logging.h, without its folders.
use cannelloni.Prelude.{
  ℕ, suc, ◌≡◌, refl, subst, inl, inr, Bool, false, ◌||◌, Option, none, some, List, [], ◌∷◌, ◌++◌,
  ◌==◌, if◌then◌else◌, Bool-cases, Option-cases, take, drop, All, take-append-drop,
}

abbrev pub is_separator : ℕ → Bool
is_separator c = c == b'/' || c == 92

-- `find_last_of("/\\")`.
unfoldable pub find_last_of : List ℕ → Option ℕ
find_last_of [] = none
find_last_of (c ∷ cs) = elim (find_last_of cs) [
  | some pos ↦ some (suc pos)
  | none ↦ if is_separator c then some 0 else none
]

-- `substr`, behind the separator.
abbrev pub behind : List ℕ → Option ℕ → List ℕ
behind path none = path
behind path (some pos) = drop (suc pos) path

unfoldable pub split_filename : List ℕ → List ℕ
split_filename path = behind path (find_last_of path)

find_last_of-none :
    (path : List ℕ) → find_last_of path ≡ none → All (λ c. is_separator c ≡ false) path
unfolding find_last_of
find_last_of-none [] e = tt
find_last_of-none (c ∷ cs) e = elim (Option-cases (find_last_of cs)) [
  | inr (pos, found) ↦ absurd (cc (rw found at e))
  | inl not_found ↦ elim (Bool-cases (is_separator c)) [
    | inl here ↦ absurd (cc (rw (not_found, here) at e))
    | inr other ↦ (other, find_last_of-none cs not_found)
  ]
]

find_last_of-some :
    (path : List ℕ) (pos : ℕ)
    → find_last_of path ≡ some pos
    → All (λ c. is_separator c ≡ false) (drop (suc pos) path)
unfolding find_last_of
find_last_of-some [] pos e = tt
find_last_of-some (c ∷ cs) pos e = elim (Option-cases (find_last_of cs)) [
  | inr (p, found) ↦
      let same : suc p ≡ pos = cc (rw found at e) in
      subst (λ (n : ℕ). All (λ c. is_separator c ≡ false) (drop n cs)) same
        (find_last_of-some cs p found)
  | inl not_found ↦ elim (Bool-cases (is_separator c)) [
    | inl here ↦
        let same : 0 ≡ pos = cc (rw (not_found, here) at e) in
        subst (λ (n : ℕ). All (λ c. is_separator c ≡ false) (drop n cs)) same
          (find_last_of-none cs not_found)
    | inr other ↦ absurd (cc (rw (not_found, other) at e))
  ]
]

-- A part of the path behind some folders, without a separator.
abbrev pub IsName : List ℕ → List ℕ → Type 0
IsName path name =
    ((folders : List ℕ) × (folders ++ name ≡ path)) × All (λ c. is_separator c ≡ false) name

behind-IsName :
    (path : List ℕ) (pos : Option ℕ) → find_last_of path ≡ pos → IsName path (behind path pos)
behind-IsName path none e = (([], refl), find_last_of-none path e)
behind-IsName path (some pos) e =
    ((take (suc pos) path, take-append-drop (suc pos) path), find_last_of-some path pos e)

-- Of a path, the part behind some folders is left, and it has no separator.
pub split_filename-IsName : (path : List ℕ) → IsName path (split_filename path)
unfolding split_filename
split_filename-IsName path = behind-IsName path (find_last_of path) refl
