-- ===== src/Packet/Bytes.antt =====
-- Numbers in network byte order: what `htonl`, `htons`, `ntohl` and `ntohs` give when their result
-- is copied byte by byte, as parser.cpp does.
use cannelloni.Prelude.{ℕ, ◌+◌, ◌*◌, ◌/◌, ◌%◌, ◌^◌, ◌<◌, ◌≡◌, List, [], ◌∷◌, arith}

unfoldable pub be32 : ℕ → List ℕ
be32 x = (x / 2 ^ 24 % 256) ∷ (x / 2 ^ 16 % 256) ∷ (x / 2 ^ 8 % 256) ∷ (x % 256) ∷ []

unfoldable pub of_be32 : ℕ → ℕ → ℕ → ℕ → ℕ
of_be32 a b c d = a * 2 ^ 24 + b * 2 ^ 16 + c * 2 ^ 8 + d

unfoldable pub be16 : ℕ → List ℕ
be16 x = (x / 2 ^ 8 % 256) ∷ (x % 256) ∷ []

unfoldable pub of_be16 : ℕ → ℕ → ℕ
of_be16 a b = a * 2 ^ 8 + b

pub of_be32-be32 :
    (x : ℕ)
    → x < 2 ^ 32
    → of_be32 (x / 2 ^ 24 % 256) (x / 2 ^ 16 % 256) (x / 2 ^ 8 % 256) (x % 256) ≡ x
unfolding of_be32
of_be32-be32 x h = omega arith

pub of_be16-be16 : (x : ℕ) → x < 2 ^ 16 → of_be16 (x / 2 ^ 8 % 256) (x % 256) ≡ x
unfolding of_be16
of_be16-be16 x h = omega arith
