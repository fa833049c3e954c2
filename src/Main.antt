-- ===== src/Main.antt =====
-- cannelloni.cpp: the options of the command line. getopt(3) and strtoul(3) are not part of the program:
-- the options come as pairs of a letter and an argument, both as character codes, and the conversion of
-- an argument to a number is a parameter. What main prints is left out.
pub mod Options
pub mod Setup
pub mod Addresses
pub mod Ready
pub mod Life
pub mod Shutdown
use cannelloni.Prelude.{
  ℕ, ◌%◌, ◌^◌, Bool, true, false, not, ◌&&◌, ◌||◌, List, [], ◌∷◌, ◌++◌, ◌==◌, if◌then◌else◌, take,
  replicate,
}
use cannelloni.SctpThread.{SctpThreadRole, server, client}

-- How main ends before it starts the threads: with 0 or with -1.
pub data ExitCode : Type 0 where
  success failure : ExitCode

pub data Result (A : Type 0) : Type 0 where
  goes_on : A → Result A
  exits : ExitCode → Result A

infixl 5 ◌>>=◌
abbrev pub ◌>>=◌ : {A B : Type 0} → Result A → (A → Result B) → Result B
goes_on a >>= f = f a
exits c >>= f = exits c

-- `struct debugOptions_t`.
pub record DebugOptions : Type 0 where
  pub can : Bool
  pub udp : Bool
  pub buffer : Bool
  pub timer : Bool

-- The local variables of main that the options set.
pub record Config : Type 0 where
  pub remote_ip_supplied : Bool
  pub sort_udp : Bool
  pub use_sctp : Bool
  pub sctp_role : SctpThreadRole
  pub remote_ip : List ℕ
  pub remote_port : ℕ
  pub local_ip : List ℕ
  pub local_port : ℕ
  pub can_interface : List ℕ
  pub buffer_timeout : ℕ
  pub timeout_table_file : List ℕ
  pub debug : DebugOptions

-- `INET_ADDRSTRLEN`, the size of the arrays for addresses.
abbrev pub inet_addrstrlen : ℕ
inet_addrstrlen = 16

-- `strncpy(array, text, INET_ADDRSTRLEN)`, and an array with an initial text.
unfoldable pub copy_text : List ℕ → List ℕ
copy_text text = take inet_addrstrlen (text ++ replicate inet_addrstrlen 0)

-- The values before the options are read.
abbrev pub defaults : Config
defaults = record {
  remote_ip_supplied = false;
  sort_udp = false;
  use_sctp = false;
  sctp_role = client;
  remote_ip = b'1' ∷ b'2' ∷ b'7' ∷ b'.' ∷ b'0' ∷ b'.' ∷ b'0' ∷ b'.' ∷ b'1' ∷ replicate 7 0;
  remote_port = 20000;
  local_ip = b'0' ∷ b'.' ∷ b'0' ∷ b'.' ∷ b'0' ∷ b'.' ∷ b'0' ∷ replicate 9 0;
  local_port = 20000;
  can_interface = b'v' ∷ b'c' ∷ b'a' ∷ b'n' ∷ b'0' ∷ [];
  buffer_timeout = 100000;
  timeout_table_file = [];
  debug = record { can = false; udp = false; buffer = false; timer = false };
}

-- `sctpRole == SERVER`.
unfoldable pub is_server : SctpThreadRole → Bool
is_server server = true
is_server client = false

-- `optarg[0]`, which is the end of the text if it is empty.
unfoldable pub first_of : List ℕ → ℕ
first_of [] = 0
first_of (c ∷ cs) = c

-- `strchr(optarg, c)`.
unfoldable pub has_char : ℕ → List ℕ → Bool
has_char c [] = false
has_char c (x ∷ xs) = x == c || has_char c xs

-- The option `-S`.
unfoldable pub set_role : Bool → List ℕ → Config → Result Config
set_role sctp_support arg c =
    if not sctp_support
    then exits failure
    else if first_of arg == b's' || first_of arg == b'S'
    then goes_on (record c { sctp_role = server; use_sctp = true })
    else if first_of arg == b'c' || first_of arg == b'C'
    then goes_on (record c { sctp_role = client; use_sctp = true })
    else exits failure

-- The option `-d`: letters are set, none is reset.
unfoldable pub set_debug : List ℕ → DebugOptions → DebugOptions
set_debug arg d = record {
  can = has_char b'c' arg || d.can;
  udp = has_char b'u' arg || d.udp;
  buffer = has_char b'b' arg || d.buffer;
  timer = has_char b't' arg || d.timer;
}

module _ (sctp_support : Bool) (strtoul : List ℕ → ℕ) where
  -- The `switch` on one option. The results of strtoul are cut to the width of the variables.
  unfoldable pub set_option : ℕ × List ℕ → Config → Result Config
  unfolding set_role
  set_option (opt, arg) c =
      if opt == b'S'
      then set_role sctp_support arg c
      else if opt == b'l'
      then goes_on (record c { local_port = strtoul arg % 2 ^ 16 })
      else if opt == b'L'
      then goes_on (record c { local_ip = copy_text arg })
      else if opt == b'r'
      then goes_on (record c { remote_port = strtoul arg % 2 ^ 16 })
      else if opt == b'R'
      then goes_on (record c { remote_ip = copy_text arg; remote_ip_supplied = true })
      else if opt == b'I'
      then goes_on (record c { can_interface = arg })
      else if opt == b't'
      then goes_on (record c { buffer_timeout = strtoul arg % 2 ^ 32 })
      else if opt == b'T'
      then goes_on (record c { timeout_table_file = arg })
      else if opt == b'd'
      then goes_on (record c { debug = set_debug arg c.debug })
      else if opt == b'h'
      then exits success
      else if opt == b's'
      then goes_on (record c { sort_udp = true })
      else exits failure

  -- The loop over the options.
  unfoldable pub read_options : List (ℕ × List ℕ) → Config → Result Config
  read_options [] c = goes_on c
  read_options (o ∷ os) c = set_option o c >>= read_options os

  -- Whether the options name the peer, or wait for any.
  unfoldable pub has_peer : Config → Bool
  has_peer c =
      if sctp_support
      then c.remote_ip_supplied || (c.use_sctp && is_server c.sctp_role)
      else c.remote_ip_supplied

  -- The checks behind the loop.
  unfoldable pub check_options : Config → Result Config
  check_options c =
      if not (has_peer c)
      then exits failure
      else if c.buffer_timeout == 0
      then exits failure
      else goes_on c

  unfoldable pub parse_options : List (ℕ × List ℕ) → Result Config
  parse_options os = read_options os defaults >>= check_options
