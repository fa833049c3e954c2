-- ===== src/Main/Options.antt =====
-- What the options of cannelloni.cpp can lead to.
use cannelloni.Prelude.{
  ℕ, ◌^◌, ◌<◌, ◌≡◌, refl, sym, subst, ◌≢◌, ◌⊎◌, inl, inr, Bool, true, ◌&&◌, ◌||◌, List, [], ◌∷◌,
  ◌++◌, arith, ◌==◌, length, replicate, length-append, length-take,
}
use cannelloni.Main.{
  first_of, is_server, success, Result, goes_on, exits, ◌>>=◌, Config, inet_addrstrlen, copy_text,
  defaults, set_role, set_option, read_options, has_peer, check_options, parse_options,
}

-- The array that strncpy fills has its full length.
length-copy_text : (text : List ℕ) → length (copy_text text) ≡ inet_addrstrlen
unfolding copy_text
length-copy_text text =
    length-take inet_addrstrlen (text ++ replicate inet_addrstrlen 0)
      (omega (arith, length-append text (replicate inet_addrstrlen 0)))

-- The values of the variables fit their types.
pub record IsInRange (c : Config) : Type 0 where
  pub remote_port_range : c.remote_port < 2 ^ 16
  pub local_port_range : c.local_port < 2 ^ 16
  pub timeout_range : c.buffer_timeout < 2 ^ 32
  pub remote_ip_size : length c.remote_ip ≡ inet_addrstrlen
  pub local_ip_size : length c.local_ip ≡ inet_addrstrlen

-- A result that, if it goes on, does so with a value of which `P` holds.
abbrev Ensures : {A : Type 0} → (A → Type 0) → Result A → Type 0
Ensures P (goes_on a) = P a
Ensures P (exits code) = Unit {0}

Ensures->>= :
    {A B : Type 0} (P : A → Type 0) (Q : B → Type 0) (m : Result A) (f : A → Result B)
    → Ensures P m
    → ((a : A) → P a → Ensures Q (f a))
    → Ensures Q (m >>= f)
Ensures->>= P Q (goes_on a) f h k = k a h
Ensures->>= P Q (exits code) f h k = tt

-- A chain that goes on.
bind_goes_on :
    {A B : Type 0} (m : Result A) (f : A → Result B) (b : B)
    → (m >>= f) ≡ goes_on b
    → (a : A) × (m ≡ goes_on a) × (f a ≡ goes_on b)
bind_goes_on (goes_on a) f b e = (a, refl, e)
bind_goes_on (exits code) f b e = absurd (cc)

-- Where a chain exits, one of its two parts does.
bind_exits :
    {A B : Type 0} (m : Result A) (f : A → Result B)
    → (m >>= f) ≡ exits success
    → (m ≡ exits success) ⊎ ((a : A) × (m ≡ goes_on a) × (f a ≡ exits success))
bind_exits (goes_on a) f e = inr (a, refl, e)
bind_exits (exits code) f e = inl (cc)

-- The option `-S`, with an argument that begins with s or S, in a build with SCTP.
abbrev pub AsksToServe : Bool → ℕ × List ℕ → Type 0
AsksToServe sctp_support (opt, arg) =
    (opt ≡ b'S') × ((first_of arg == b's' || first_of arg == b'S') ≡ true) × (sctp_support ≡ true)

-- The options name an address of a peer, or ask to wait for a peer.
abbrev pub NamesPeer : Bool → List (ℕ × List ℕ) → Type 0
NamesPeer sctp_support [] = ⊥
NamesPeer sctp_support ((opt, arg) ∷ os) =
    (opt ≡ b'R') ⊎ (AsksToServe sctp_support (opt, arg) ⊎ NamesPeer sctp_support os)

module _ (sctp_support : Bool) (strtoul : List ℕ → ℕ) where
  set_role-IsInRange :
      (arg : List ℕ) (c : Config) → IsInRange c → Ensures IsInRange (set_role sctp_support arg c)
  unfolding set_role
  set_role-IsInRange arg c v = ground arith

  set_option-IsInRange :
      (opt : ℕ) (arg : List ℕ) (c : Config)
      → IsInRange c
      → Ensures IsInRange (set_option sctp_support strtoul (opt, arg) c)
  unfolding set_option
  set_option-IsInRange opt arg c v = ground (arith, length-copy_text arg)

  read_options-IsInRange :
      (os : List (ℕ × List ℕ)) (c : Config)
      → IsInRange c
      → Ensures IsInRange (read_options sctp_support strtoul os c)
  unfolding read_options
  read_options-IsInRange [] c v = v
  read_options-IsInRange ((opt, arg) ∷ os) c v =
      Ensures->>= IsInRange IsInRange (set_option sctp_support strtoul (opt, arg) c) _
        (set_option-IsInRange opt arg c v) (λ c' v'. read_options-IsInRange os c' v')

  -- What the program runs with: a peer, or the wait for one, and a timeout that is not zero.
  abbrev pub Runs : Config → Type 0
  Runs c = IsInRange c × (has_peer sctp_support strtoul c ≡ true) × (0 < c.buffer_timeout)

  check_options-Runs :
      (c : Config) → IsInRange c → Ensures Runs (check_options sctp_support strtoul c)
  unfolding check_options
  check_options-Runs c v = ground arith

  defaults-IsInRange : IsInRange defaults
  defaults-IsInRange = record {
    remote_port_range = omega arith;
    local_port_range = omega arith;
    timeout_range = omega arith;
    remote_ip_size = refl;
    local_ip_size = refl;
  }

  -- Whether the program is to wait for a peer.
  serves : Config → Bool
  serves c = c.use_sctp && is_server c.sctp_role

  knows_peer : Config → Bool
  knows_peer c = c.remote_ip_supplied || serves c

  -- What one option does to what is known of the peer.
  set_option-peer :
      (opt : ℕ) (arg : List ℕ) (c c' : Config)
      → set_option sctp_support strtoul (opt, arg) c ≡ goes_on c'
      → knows_peer c' ≡ true
      → (opt ≡ b'R') ⊎ (AsksToServe sctp_support (opt, arg) ⊎ (knows_peer c ≡ true))
  unfolding set_option set_role serves knows_peer is_server
  set_option-peer opt arg c c' e known = ground (arith, e, known)

  read_options-peer :
      (os : List (ℕ × List ℕ)) (c c' : Config)
      → read_options sctp_support strtoul os c ≡ goes_on c'
      → knows_peer c' ≡ true
      → NamesPeer sctp_support os ⊎ (knows_peer c ≡ true)
  unfolding read_options
  read_options-peer [] c c' e known =
      let same : c ≡ c' = cc in inr (subst (λ (x : Config). knows_peer x ≡ true) (sym same) known)
  read_options-peer ((opt, arg) ∷ os) c c' e known =
      let (c1, first, rest) =
        bind_goes_on (set_option sctp_support strtoul (opt, arg) c)
          (read_options sctp_support strtoul os) c' e in
      elim (read_options-peer os c1 c' rest known) [
        | inl later ↦ inl (inr (inr later))
        | inr before ↦ elim (set_option-peer opt arg c c1 first before) [
          | inl address ↦ inl (inl address)
          | inr (inl serve) ↦ inl (inr (inl serve))
          | inr (inr known_before) ↦ inr known_before
        ]
      ]

  check_options-peer :
      (c c' : Config) → check_options sctp_support strtoul c ≡ goes_on c' → knows_peer c ≡ true
  unfolding check_options has_peer knows_peer serves
  check_options-peer c c' e = ground (arith, e)

  -- Whatever the options: if main goes on after them, both ports fit 16 bits and the timeout 32, the
  -- timeout is not zero, the arrays for addresses have their size, and among the options is `-R`, or,
  -- in a build with SCTP, `-S` with an argument that begins with s or S.
  pub parse_options-Runs :
      (os : List (ℕ × List ℕ)) (c : Config)
      → parse_options sctp_support strtoul os ≡ goes_on c
      → IsInRange c × NamesPeer sctp_support os × (0 < c.buffer_timeout)
  unfolding parse_options serves knows_peer
  parse_options-Runs os c e =
      let (range, peer, positive) : Runs c = subst (Ensures Runs) e (
        Ensures->>= IsInRange Runs (read_options sctp_support strtoul os defaults) _
          (read_options-IsInRange os defaults defaults-IsInRange) check_options-Runs) in
      let (c', read, checked) =
        bind_goes_on (read_options sctp_support strtoul os defaults)
          (check_options sctp_support strtoul) c e in
      (
        range,
        elim (read_options-peer os defaults c' read (check_options-peer c' c checked)) [
          | inl named ↦ named
          | inr known ↦ absurd (cc known)
        ],
        positive,
      )

  -- The option `-h` is among the options.
  abbrev pub AsksForHelp : List (ℕ × List ℕ) → Type 0
  AsksForHelp [] = ⊥
  AsksForHelp ((opt, arg) ∷ os) = (opt ≡ b'h') ⊎ AsksForHelp os

  set_option-success :
      (opt : ℕ) (arg : List ℕ) (c : Config)
      → set_option sctp_support strtoul (opt, arg) c ≡ exits success
      → opt ≡ b'h'
  unfolding set_option set_role
  set_option-success opt arg c e = ground (arith, e)

  read_options-success :
      (os : List (ℕ × List ℕ)) (c : Config)
      → read_options sctp_support strtoul os c ≡ exits success
      → AsksForHelp os
  unfolding read_options
  read_options-success [] c e = absurd (cc)
  read_options-success ((opt, arg) ∷ os) c e =
      elim (bind_exits (set_option sctp_support strtoul (opt, arg) c) _ e) [
        | inl now ↦ inl (set_option-success opt arg c now)
        | inr (c', q, later) ↦ inr (read_options-success os c' later)
      ]

  check_options-success : (c : Config) → check_options sctp_support strtoul c ≢ exits success
  unfolding check_options
  check_options-success c e = ground (arith, e)

  -- Whatever the options: main ends with 0, without having run, only if `-h` is among them.
  pub parse_options-success :
      (os : List (ℕ × List ℕ))
      → parse_options sctp_support strtoul os ≡ exits success
      → AsksForHelp os
  unfolding parse_options
  parse_options-success os e =
      elim (bind_exits (read_options sctp_support strtoul os defaults) _ e) [
        | inl now ↦ read_options-success os defaults now
        | inr (c, q, later) ↦ absurd (check_options-success c later)
      ]
