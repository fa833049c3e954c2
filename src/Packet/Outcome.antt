-- ===== src/Packet/Outcome.antt =====
-- What a call of `parseFrames` can end in, as a monad over the state that its callbacks change.
use cannelloni.Prelude.{Bool, true, false}

-- The exceptions of parseFrames, in the order in which they stand there.
pub data Error : Type 0 where
  wrong_version wrong_op_code incomplete_packet allocation_error corrupt_header : Error

-- Undefined behaviour: an access outside the receive buffer or outside `canfd_frame::data`.
pub data Fault : Type 0 where
  read_past_buffer write_past_frame : Fault

pub data Outcome (S : Type 0) (A : Type 0) : Type 0 where
  ok : A → S → Outcome S A
  threw : Error → S → Outcome S A
  fault : Fault → Outcome S A

abbrev pub M : Type 0 → Type 0 → Type 0
M S A = S → Outcome S A

infixl 5 ◌>>=◌ ◌>>◌
abbrev pub ◌>>=◌ : {S A B : Type 0} → M S A → (A → M S B) → M S B
◌>>=◌ m f s = elim (m s) [ ok a s' ↦ f a s' | threw e s' ↦ threw e s' | fault x ↦ fault x ]

abbrev pub ◌>>◌ : {S B : Type 0} → M S (Unit {0}) → M S B → M S B
m >> k = m >>= λ _. k

abbrev pub pure : {S A : Type 0} → A → M S A
pure a s = ok a s

abbrev pub throw : {S A : Type 0} → Error → M S A
throw e s = threw e s

abbrev pub crash : {S A : Type 0} → Fault → M S A
crash x s = fault x

-- `if (b) throw e;`
abbrev pub throw_if : {S : Type 0} → Bool → Error → M S (Unit {0})
throw_if true e s = threw e s
throw_if false e s = ok tt s
