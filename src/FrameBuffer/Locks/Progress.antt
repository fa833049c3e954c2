-- ===== src/FrameBuffer/Locks/Progress.antt =====
-- Two threads on the mutexes of framebuffer.cpp: which of them can go on.
use cannelloni.Prelude.{
  ◌≡◌, refl, subst, ◌⊎◌, inl, inr, Bool, true, false, ◌&&◌, ◌||◌, some, List, [], ◌∷◌, arith, ltb,
  leb, ◌==◌, Bool-cases,
}
use cannelloni.FrameBuffer.Locks.{
  Locks, Action, acquires, releases, allows, plus, minus, Contender, act_on, act, Contention, Step,
  can_acts, net_acts, Reach, here, next,
}

abbrev pub is_unlocked : Locks → Bool
is_unlocked h = h.pool == 0 && (h.buffer == 0 && h.intermediate == 0)

-- While it has a mutex, a thread locks no other one but that of the buffer.
abbrev in_order : Locks → Locks → Bool
in_order h l =
    is_unlocked h
    || ((l.pool == 0 || ltb 0 h.pool) && (l.intermediate == 0 || ltb 0 h.intermediate))

abbrev has_all : Locks → Locks → Bool
has_all h l = leb l.pool h.pool && (leb l.buffer h.buffer && leb l.intermediate h.intermediate)

-- All that is locked is locked in order, and unlocked.
unfoldable pub is_disciplined : Locks → List Action → Bool
is_disciplined h [] = is_unlocked h
is_disciplined h (acquires l ∷ r) = in_order h l && is_disciplined (plus h l) r
is_disciplined h (releases l ∷ r) = has_all h l && is_disciplined (minus h l) r

pub record IsFair (s : Contention) : Type 0 where
  pub can_order : is_disciplined s.can.held s.can.rest ≡ true
  pub net_order : is_disciplined s.net.held s.net.rest ≡ true
  pub exclusive : allows s.net.held s.can.held ≡ true

allows-sym : (h l : Locks) → allows h l ≡ true → allows l h ≡ true
unfolding allows
allows-sym h l e = ground (arith, e)

allows-plus :
    (other h l : Locks)
    → allows other h ≡ true
    → allows other l ≡ true
    → allows other (plus h l) ≡ true
unfolding allows plus
allows-plus other h l e d = ground (arith, e, d)

allows-minus : (other h l : Locks) → allows other h ≡ true → allows other (minus h l) ≡ true
unfolding allows minus
allows-minus other h l e = ground (arith, e)

act_on-keeps :
    (other h : Locks) (r : List Action) (c : Contender)
    → is_disciplined h r ≡ true
    → allows other h ≡ true
    → act_on other h r ≡ some c
    → (is_disciplined c.held c.rest ≡ true) × (allows other c.held ≡ true)
unfolding act_on is_disciplined
act_on-keeps other h [] c d x e = absurd (cc)
act_on-keeps other h (acquires l ∷ r) c d x e = elim (Bool-cases (allows other l)) [
  | inr taken ↦ absurd (cc (rw taken at e))
  | inl free ↦
      let same : record { held = plus h l; rest = r } ≡ c = cc (rw free at e) in
      subst
        (λ (u : Contender). (is_disciplined u.held u.rest ≡ true) × (allows other u.held ≡ true))
        same (ground (arith, d), allows-plus other h l x free)
]
act_on-keeps other h (releases l ∷ r) c d x e =
    let same : record { held = minus h l; rest = r } ≡ c = cc in
    subst (λ (u : Contender). (is_disciplined u.held u.rest ≡ true) × (allows other u.held ≡ true))
      same (ground (arith, d), allows-minus other h l x)

Step-IsFair : {s t : Contention} → IsFair s → Step s t → IsFair t
unfolding act
Step-IsFair {s} v (can_acts c e) =
    let (order, free) = act_on-keeps s.net.held s.can.held s.can.rest c v.can_order v.exclusive e in
    record { can_order = order; net_order = v.net_order; exclusive = free }
Step-IsFair {s} v (net_acts c e) =
    let (order, free) =
      act_on-keeps s.can.held s.net.held s.net.rest c v.net_order
        (allows-sym s.net.held s.can.held v.exclusive) e in
    record {
      can_order = v.can_order;
      net_order = order;
      exclusive = allows-sym s.can.held c.held free;
    }

pub Reach-IsFair : {s t : Contention} → IsFair s → Reach s t → IsFair t
Reach-IsFair v here = v
Reach-IsFair v (next r step) = Step-IsFair (Reach-IsFair v r) step

-- Of two threads that are in order, one can go on.
one_goes_on :
    (h g : Locks) (l m : Locks)
    → in_order h l ≡ true
    → in_order g m ≡ true
    → allows g h ≡ true
    → (allows g l ≡ true) ⊎ (allows h m ≡ true)
unfolding allows
one_goes_on h g l m a b x = elim (Bool-cases (allows g l)) [
  | inl free ↦ inl free
  | inr waits ↦ inr (ground (arith, a, b, x, waits))
]

-- What a thread can do: it is at its end, it can go on, or it waits for a mutex of `l`.
data Turn (other h : Locks) (r : List Action) : Type 0 where
  is_done : r ≡ [] → is_unlocked h ≡ true → Turn other h r
  goes_on : (c : Contender) → act_on other h r ≡ some c → Turn other h r
  waits : (l : Locks) → in_order h l ≡ true → allows other l ≡ false → Turn other h r

turn : (other h : Locks) (r : List Action) → is_disciplined h r ≡ true → Turn other h r
unfolding act_on is_disciplined
turn other h [] d = is_done refl d
turn other h (acquires l ∷ r) d = elim (Bool-cases (allows other l)) [
  | inl free ↦ goes_on (record { held = plus h l; rest = r }) (rw free refl)
  | inr taken ↦ waits l (ground (arith, d)) taken
]
turn other h (releases l ∷ r) d = goes_on (record { held = minus h l; rest = r }) refl

allows-is_unlocked : (h l : Locks) → is_unlocked h ≡ true → allows h l ≡ true
unfolding allows
allows-is_unlocked h l e = ground (arith, e)

abbrev pub IsDone : Contention → Type 0
IsDone s = (s.can.rest ≡ []) × (s.net.rest ≡ [])

pub progress : (s : Contention) → IsFair s → IsDone s ⊎ ((t : Contention) × Step s t)
unfolding act
progress s v =
    by_turn (turn s.net.held s.can.held s.can.rest v.can_order)
      (turn s.can.held s.net.held s.net.rest v.net_order)
  where
    by_turn :
        Turn s.net.held s.can.held s.can.rest
        → Turn s.can.held s.net.held s.net.rest
        → IsDone s ⊎ ((t : Contention) × Step s t)
    by_turn (goes_on c e) k = inr (record s { can = c }, can_acts c e)
    by_turn (is_done e h) (goes_on c k) = inr (record s { net = c }, net_acts c k)
    by_turn (waits l o e) (goes_on c k) = inr (record s { net = c }, net_acts c k)
    by_turn (is_done e h) (is_done d g) = inl (e, d)
    by_turn (is_done e h) (waits l o k) = absurd (cc (allows-is_unlocked s.can.held l h))
    by_turn (waits l o e) (is_done d g) = absurd (cc (allows-is_unlocked s.net.held l g))
    by_turn (waits l o e) (waits m p k) =
        absurd (elim (one_goes_on s.can.held s.net.held l m o p v.exclusive) [
          | inl free ↦ cc
          | inr free ↦ cc
        ])
