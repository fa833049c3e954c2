-- ===== src/Main/Addresses.antt =====
-- To whom the program of cannelloni.cpp talks: the addresses of its command line.
use cannelloni.Prelude.{
  ℕ, zero, suc, ◌-◌, ◌≤◌, ◌<◌, ◌≡◌, refl, ap, ◌∙◌, inl, inr, false, Option, none, some, List, [],
  ◌∷◌, ◌++◌, append-nil, arith, ltb, ◌==◌, if◌then◌else◌, ltb→lt, ltb→le, Bool-cases, Option-cases,
  length, take, replicate, All,
}
use mathlib.Core.Option
use cannelloni.Main.{copy_text, inet_addrstrlen}
use cannelloni.Main.Setup.{text_of, address}

text_of-append :
    (text rest : List ℕ)
    → All (λ c. (c == 0) ≡ false) text
    → text_of (text ++ rest) ≡ Option.map (λ s. text ++ s) (text_of rest)
unfolding text_of
text_of-append [] rest h = elim (Option-cases (text_of rest)) [
  | inl missing ↦ rw missing refl
  | inr (s, found) ↦ rw found refl
]
text_of-append (c ∷ cs) rest (h, hs) =
    rw (h, text_of-append cs rest hs)
      (elim (Option-cases (text_of rest)) [
        | inl missing ↦ rw missing refl
        | inr (s, found) ↦ rw found refl
      ])

text_of-plain : (text : List ℕ) → All (λ c. (c == 0) ≡ false) text → text_of text ≡ none
unfolding text_of
text_of-plain [] h = refl
text_of-plain (c ∷ cs) (h, hs) = rw (h, text_of-plain cs hs) refl

All-take :
    (n : ℕ) (xs : List ℕ) → All (λ c. (c == 0) ≡ false) xs → All (λ c. (c == 0) ≡ false) (take n xs)
All-take zero xs h = tt
All-take (suc n) [] h = tt
All-take (suc n) (x ∷ xs) (h, hs) = (h, All-take n xs hs)

take-append_long : (n : ℕ) (xs ys : List ℕ) → n ≤ length xs → take n (xs ++ ys) ≡ take n xs
take-append_long zero xs ys h = refl
take-append_long (suc n) [] ys h = absurd (omega arith)
take-append_long (suc n) (x ∷ xs) ys h = ap (◌∷◌ x) (take-append_long n xs ys (omega arith))

-- A text of at most fifteen characters is followed by zeros.
take-append_short :
    (n : ℕ) (xs ys : List ℕ) → length xs ≤ n → take n (xs ++ ys) ≡ xs ++ take (n - length xs) ys
take-append_short n [] ys h = ap (λ k. take k ys) (omega arith)
take-append_short zero (x ∷ xs) ys h = absurd (omega arith)
take-append_short (suc n) (x ∷ xs) ys h =
    ap (◌∷◌ x) (take-append_short n xs ys (omega arith) ∙ ap (λ k. xs ++ take k ys) (omega arith))

text_of-zeros : (n k : ℕ) → 0 < n → 0 < k → text_of (take n (replicate k 0)) ≡ some []
unfolding text_of
text_of-zeros zero k h g = absurd (omega arith)
text_of-zeros (suc n) zero h g = absurd (omega arith)
text_of-zeros (suc n) (suc k) h g = refl

-- An address of the command line with fifteen characters at most, none of them the end of a text, is
-- handed to inet_pton as it was given; if inet_pton refuses it, the address is 0.0.0.0. With one of
-- sixteen characters or more, inet_pton reads behind the array.
pub address-copy_text :
    (inet_pton : List ℕ → Option ℕ) (text : List ℕ)
    → All (λ c. (c == 0) ≡ false) text
    → address inet_pton (copy_text text) ≡ (
        if ltb (length text) inet_addrstrlen
        then some (elim (inet_pton text) [ none ↦ 0 | some addr ↦ addr ])
        else none)
unfolding address copy_text
address-copy_text inet_pton text h = elim (Bool-cases (ltb (length text) inet_addrstrlen)) [
  | inl short ↦
      let at : text_of (take inet_addrstrlen (text ++ replicate inet_addrstrlen 0)) ≡ some text =
        ap text_of (take-append_short inet_addrstrlen text _ (omega (arith, ltb→lt _ _ short)))
        ∙ text_of-append text _ h
        ∙ ap (Option.map (λ s. text ++ s)) (
            text_of-zeros (inet_addrstrlen - length text) inet_addrstrlen
              (omega (arith, ltb→lt _ _ short)) (omega arith))
        ∙ ap some (append-nil text) in
      rw (at, short) refl
  | inr long ↦
      let at : text_of (take inet_addrstrlen (text ++ replicate inet_addrstrlen 0)) ≡ none =
        ap text_of (take-append_long inet_addrstrlen text _ (ltb→le _ _ long))
        ∙ text_of-plain _ (All-take inet_addrstrlen text h) in
      rw (at, long) refl
]
