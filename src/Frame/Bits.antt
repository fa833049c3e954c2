-- ===== src/Frame/Bits.antt =====
-- The masks of cannelloni.h as arithmetic on one byte, from tables checked by evaluation.
use cannelloni.Prelude.{
  ℕ, zero, suc, ◌+◌, ◌%◌, ◌≤◌, ◌<◌, bit_and, ◌≡◌, refl, ap, ◌∙◌, Bool, true, false, not, arith, leb,
  ◌==◌, if◌then◌else◌, ==_iff,
}
use cannelloni.Frame.{Frame, canfd_len, has_fd_bit, is_fd, frame_size}

-- The test `p` on 0, 1, … and n - 1.
tabulate : (ℕ → Bool) → ℕ → Bool
tabulate p zero = true
tabulate p (suc n) = if p n then tabulate p n else false

tabulate-entry : (p : ℕ → Bool) (n byte : ℕ) → byte < n → tabulate p n ≡ true → p byte ≡ true
unfolding tabulate
tabulate-entry p zero byte low table = absurd (omega arith)
tabulate-entry p (suc n) byte low table = ground (arith, tabulate-entry p n byte)

len_table : tabulate (λ l. bit_and l 0xFFFFFF7F % 256 == l % 128) 256 ≡ true
unfolding tabulate
len_table = refl

pub canfd_len-mod : (f : Frame) → f.len < 256 → canfd_len f ≡ f.len % 128
unfolding canfd_len
canfd_len-mod f h = (==_iff _ _).0 (tabulate-entry _ 256 f.len h len_table)

fd_table : tabulate (λ l. bit_and l 0x80 == (if leb 128 l then 128 else 0)) 256 ≡ true
unfolding tabulate
fd_table = refl

pub has_fd_bit-leb : (l : ℕ) → l < 256 → has_fd_bit l ≡ leb 128 l
unfolding has_fd_bit
has_fd_bit-leb l h =
    ap (λ (x : ℕ). not (x == 0)) ((==_iff _ _).0 (tabulate-entry _ 256 l h fd_table)) ∙ ground arith

-- The two parts of `len` as the program splits them.
pub len_split : (f : Frame) → f.len < 256 → f.len ≡ canfd_len f + (if is_fd f then 128 else 0)
len_split f h = ground (arith, canfd_len-mod f h, has_fd_bit-leb f.len h)

pub frame_size_bounds :
    (f : Frame) → (5 + canfd_len f ≤ frame_size f) × (frame_size f ≤ 6 + canfd_len f)
unfolding frame_size
frame_size_bounds f = ground arith
