-- ===== src/FrameBuffer/Locks/Order.antt =====
-- The order in which the methods of framebuffer.cpp, and prepareBuffer of udpthread.cpp, lock the mutexes.
use cannelloni.Prelude.{
  ℕ, zero, suc, ◌≡◌, refl, sym, ap, subst, ◌∙◌, Bool, true, false, Option, none, some, List, [],
  ◌∷◌, ◌++◌, append_assoc, arith, if◌then◌else◌,
}
use cannelloni.FrameBuffer.Locks.{
  Locks, unlocked, buffer_mutex, intermediate_mutex, both_buffers, pool_and_intermediate, Action,
  acquires, releases, guarded, Call, requests, to_pool, inserts, returns, gives_front,
  looks_at_size, prepares, resets, return_locks, overflow_locks, prepare_locks, locks, all_locks,
  plus, minus,
}
use cannelloni.FrameBuffer.Locks.Progress.{is_disciplined}

locks_lem :
    (h : Locks) (p b i : ℕ)
    → h.pool ≡ p
    → h.buffer ≡ b
    → h.intermediate ≡ i
    → h ≡ record { pool = p; buffer = b; intermediate = i }
locks_lem h p b i e d c =
    ap (λ (x : ℕ). record { pool = x; buffer = h.buffer; intermediate = h.intermediate }) e
    ∙ (ap (λ (x : ℕ). record { pool = p; buffer = x; intermediate = h.intermediate }) d
        ∙ ap (λ (x : ℕ). record { pool = p; buffer = b; intermediate = x }) c)

minus-plus : (h l : Locks) → minus (plus h l) l ≡ h
unfolding minus plus
minus-plus h l =
    locks_lem (minus (plus h l) l) h.pool h.buffer h.intermediate (omega arith) (omega arith)
      (omega arith)

is_disciplined-append :
    (xs ys : List Action) (h : Locks)
    → is_disciplined h xs ≡ true
    → is_disciplined unlocked ys ≡ true
    → is_disciplined h (xs ++ ys) ≡ true
unfolding is_disciplined
is_disciplined-append [] ys h d e =
    let same : h ≡ unlocked =
      locks_lem h 0 0 0 (ground (arith, d)) (ground (arith, d)) (ground (arith, d)) in
    subst (λ (x : Locks). is_disciplined x ys ≡ true) (sym same) e
is_disciplined-append (acquires l ∷ xs) ys h d e =
    let rest = is_disciplined-append xs ys (plus h l) (ground (arith, d)) e in
    rw rest (ground (arith, d))
is_disciplined-append (releases l ∷ xs) ys h d e =
    let rest = is_disciplined-append xs ys (minus h l) (ground (arith, d)) e in
    rw rest (ground (arith, d))

-- `returnFrame` locks the mutex of the buffer again.
is_disciplined-return_locks :
    (n : ℕ) (ys : List Action) (h : Locks)
    → is_disciplined h ys ≡ true
    → is_disciplined h (return_locks n ++ ys) ≡ true
unfolding return_locks guarded is_disciplined
is_disciplined-return_locks zero ys h e = e
is_disciplined-return_locks (suc n) ys h e =
    let rest = is_disciplined-return_locks n ys h e in
    rw (minus-plus h buffer_mutex, rest) (unfold plus in ground arith)

-- `returnIntermediateBuffer`, while the mutex of the intermediate buffer is held.
overflow_locks-is_disciplined :
    (overflow : Option ℕ)
    → is_disciplined unlocked (guarded intermediate_mutex (overflow_locks overflow)) ≡ true
unfolding overflow_locks guarded is_disciplined plus minus
overflow_locks-is_disciplined none = refl
overflow_locks-is_disciplined (some n) =
    rw
      (append_assoc (return_locks n) (releases both_buffers ∷ [])
        (releases intermediate_mutex ∷ []))
      (is_disciplined-return_locks n (releases both_buffers ∷ releases intermediate_mutex ∷ [])
        (record { pool = 0; buffer = 1; intermediate = 2 }) refl)

swap_ok : is_disciplined unlocked (guarded both_buffers []) ≡ true
unfolding guarded is_disciplined plus minus
swap_ok = refl

sort_ok :
    (sorts : Bool)
    → is_disciplined unlocked (if sorts then guarded intermediate_mutex [] else []) ≡ true
unfolding guarded is_disciplined plus minus
sort_ok true = refl
sort_ok false = refl

merge_ok : is_disciplined unlocked (guarded pool_and_intermediate []) ≡ true
unfolding guarded is_disciplined plus minus
merge_ok = refl

prepare_locks-is_disciplined :
    (sorts : Bool) (overflow : Option ℕ)
    → is_disciplined unlocked (prepare_locks sorts overflow) ≡ true
unfolding prepare_locks
prepare_locks-is_disciplined sorts overflow =
    is_disciplined-append (guarded both_buffers []) _ unlocked swap_ok (
      is_disciplined-append (if sorts then guarded intermediate_mutex [] else []) _ unlocked
        (sort_ok sorts)
        (is_disciplined-append (guarded intermediate_mutex (overflow_locks overflow)) _ unlocked
          (overflow_locks-is_disciplined overflow) merge_ok))

locks-is_disciplined : (c : Call) → is_disciplined unlocked (locks c) ≡ true
unfolding locks guarded is_disciplined plus minus
locks-is_disciplined (requests true true) = refl
locks-is_disciplined (requests true false) = refl
locks-is_disciplined (requests false true) = refl
locks-is_disciplined (requests false false) = refl
locks-is_disciplined to_pool = refl
locks-is_disciplined inserts = refl
locks-is_disciplined returns = refl
locks-is_disciplined gives_front = refl
locks-is_disciplined looks_at_size = refl
locks-is_disciplined (prepares sorts overflow) = prepare_locks-is_disciplined sorts overflow
locks-is_disciplined resets = refl

pub all_locks-is_disciplined : (cs : List Call) → is_disciplined unlocked (all_locks cs) ≡ true
unfolding all_locks is_disciplined
all_locks-is_disciplined [] = refl
all_locks-is_disciplined (c ∷ cs) =
    is_disciplined-append (locks c) (all_locks cs) unlocked (locks-is_disciplined c)
      (all_locks-is_disciplined cs)
