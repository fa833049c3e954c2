-- ===== src/CanThread/Start.antt =====
-- The constructor, `start` and `stop` of canthread.cpp, and what `run` does before its loop. The flags of
-- thread.cpp are a model of their own.
use cannelloni.Prelude.{
  ℕ, ◌≡◌, sym, subst, ◌≢◌, ◌⊎◌, Bool, true, false, ◌&&◌, Option, none, some, List, [], ◌∷◌, ◌++◌,
  arith, ◌==◌, if◌then◌else◌, All, All-append,
}
use cannelloni.Frame.{Frame}
use cannelloni.FrameBuffer.{FrameBuffer}
use cannelloni.Timer.{ItimerSpec, adjust}
use cannelloni.CanThread.{
  CanThread, Sent, can_mtu, canfd_mtu, can_timeout, fire_timer, transmit_buffer,
}
use cannelloni.CanThread.Calls.{calls, first_call}
use cannelloni.CanThread.Transmit.{transmit_buffer_lem}

-- The constructor, and `setFrameBuffer`.
unfoldable pub init : {Fd : Type 0} → Fd → FrameBuffer → CanThread Fd
init timer buffer = record {
  frame_buffer = buffer;
  timer = timer;
  canfd = false;
  rx_count = 0;
  tx_count = 0;
}

-- What the calls of `start` give: whether there is a socket, the index of the interface, its MTU,
-- whether the socket could be switched to CAN FD, and whether it could be bound.
pub record Interface : Type 0 where
  pub has_socket : Bool
  pub index : Option ℕ
  pub mtu : Option ℕ
  pub switched : Bool
  pub bound : Bool

-- `canInterface.ifr_mtu`. It shares its place with `ifr_ifindex`, which stands there still if the MTU
-- could not be read.
unfoldable pub ifr_mtu : ℕ → Option ℕ → ℕ
ifr_mtu index none = index
ifr_mtu index (some mtu) = mtu

unfoldable pub switch_to_fd : {Fd : Type 0} → ℕ → Interface → CanThread Fd → CanThread Fd
unfolding ifr_mtu
switch_to_fd index i t =
    if ifr_mtu index i.mtu == canfd_mtu && i.switched then record t { canfd = true } else t

-- `none` is the result -1.
unfoldable pub start : {Fd : Type 0} → Interface → CanThread Fd → Option (CanThread Fd)
start i t = elim i.index [
  | none ↦ none
  | some index ↦ if i.has_socket && i.bound then some (switch_to_fd index i t) else none
]

module _ {Fd : Type 0} (gettime : Fd → ItimerSpec) (settime : ItimerSpec → Fd → Fd) where
  unfoldable pub stop : CanThread Fd → CanThread Fd
  stop t = fire_timer gettime settime t

  -- `m_timer.adjust(CAN_TIMEOUT, CAN_TIMEOUT)`.
  unfoldable pub arm : CanThread Fd → CanThread Fd
  arm t = record t { timer = adjust gettime settime can_timeout can_timeout t.timer }

-- All calls of write(2) are for frames of CAN.
abbrev pub AllClassic : List (Frame × ℕ) → Type 0
AllClassic = All (λ c. c.1 ≡ can_mtu)

calls-AllClassic : (fs : List Frame) → AllClassic (calls false fs)
unfolding calls
calls-AllClassic [] = tt
calls-AllClassic (f ∷ fs) = ground (arith, calls-AllClassic fs)

first_call-AllClassic : (fs : List Frame) → AllClassic (first_call false fs)
unfolding first_call
first_call-AllClassic [] = tt
first_call-AllClassic (f ∷ fs) = calls-AllClassic (f ∷ [])

classic-AllClassic :
    (canfd : Bool) (fs left : List Frame)
    → canfd ≡ false
    → AllClassic (calls canfd fs ++ first_call canfd left)
classic-AllClassic canfd fs left e =
    subst (λ (c : Bool). AllClassic (calls c fs ++ first_call c left)) (sym e)
      (All-append _ (calls false fs) (first_call false left) (calls-AllClassic fs)
        (first_call-AllClassic left))

-- A thread that was started on an interface whose MTU is not that of CAN FD, or that could not be
-- switched to it, calls write(2) with the size of a CAN frame only, whatever frames it has and
-- whatever write(2) returns.
pub start-AllClassic :
    {Fd : Type 0} (gettime : Fd → ItimerSpec) (settime : ItimerSpec → Fd → Fd)
    (write : ℕ → Frame → ℕ → Option ℕ) (i : Interface) (index : ℕ) (timer : Fd)
    (buffer other : FrameBuffer) (t : CanThread Fd)
    → i.index ≡ some index
    → (ifr_mtu index i.mtu ≢ canfd_mtu) ⊎ (i.switched ≡ false)
    → start i (init timer buffer) ≡ some t
    → (s : Sent Fd) × (transmit_buffer gettime settime write (record t { frame_buffer = other })
        ≡ some s)
      × AllClassic s.frames
unfolding start init switch_to_fd
start-AllClassic gettime settime write i index timer buffer other t e no_fd started =
    let t' = record t { frame_buffer = other } in
    let classic : t'.canfd ≡ false = ground (arith, e, started, no_fd) in
    let (s, done, (fs, left, split, frames, pool, rest, why)) =
      transmit_buffer_lem gettime settime write t' in
    (s, done, subst AllClassic (sym frames) (classic-AllClassic t'.canfd fs left classic))
