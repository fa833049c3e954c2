-- ===== src/Packet/Post.antt =====
-- Postconditions of the monad in which `parseFrames` is written.

use cannelloni.Packet.Outcome.{Outcome, Fault, M, ok, threw, fault, ◌>>=◌}

-- `K` holds of a result and its state, `E` of the state at an exception, `F` of a fault.
abbrev pub Post :
    {S A : Type 0} → (S → Type 0) → (Fault → Type 0) → (A → S → Type 0) → Outcome S A → Type 0
Post E F K (ok a s) = K a s
Post E F K (threw e s) = E s
Post E F K (fault x) = F x

module _ {S : Type 0} (E : S → Type 0) (F : Fault → Type 0) where
  outcome_bind :
      {A B : Type 0} (K : A → S → Type 0) (L : B → S → Type 0) (o : Outcome S A) (f : A → M S B)
      → Post E F K o
      → ((a : A) (s : S) → K a s → Post E F L (f a s))
      → Post E F L (elim o [ ok a s' ↦ f a s' | threw e s' ↦ threw e s' | fault x ↦ fault x ])
  outcome_bind K L (ok a s) f h next = next a s h
  outcome_bind K L (threw e s) f h next = h
  outcome_bind K L (fault x) f h next = h

  pub Post->>= :
      {A B : Type 0} (K : A → S → Type 0) (L : B → S → Type 0) (m : M S A) (f : A → M S B) (s : S)
      → Post E F K (m s)
      → ((a : A) (s' : S) → K a s' → Post E F L (f a s'))
      → Post E F L ((m >>= f) s)
  Post->>= K L m f s h next = outcome_bind K L (m s) f h next
