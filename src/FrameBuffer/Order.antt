-- ===== src/FrameBuffer/Order.antt =====
-- The order of frames: `canfd_frame_comp` with `std::list::sort`, and `returnIntermediateBuffer`.
use cannelloni.Prelude.{
  ℕ, ◌≤◌, ◌≡◌, refl, sym, ap, ◌∙◌, inl, inr, List, [], ◌∷◌, ◌++◌, reverse, append-nil, append_assoc,
  arith, ltb, ◌==◌, if◌then◌else◌, ltb→lt, ltb→le, Bool-cases, take, drop, All, take-append-drop,
}
use mathlib.Core.List.{reverse-cons}
use cannelloni.Frame.{Frame, frame_lt, arbitration_id}
use cannelloni.FrameBuffer.{
  FrameBuffer, return_frame, insert_sorted, sort, return_loop, return_intermediate_buffer,
}

-- Frames by rising identifier: each is at most all that follow.
abbrev pub id_of : Frame → ℕ
id_of f = arbitration_id f.can_id

abbrev pub IsSorted : List Frame → Type 0
IsSorted [] = Unit {0}
IsSorted (f ∷ fs) = All (λ g. id_of f ≤ id_of g) fs × IsSorted fs

All-insert_sorted :
    (n : ℕ) (f : Frame) (fs : List Frame)
    → n ≤ id_of f
    → All (λ g. n ≤ id_of g) fs
    → All (λ g. n ≤ id_of g) (insert_sorted f fs)
unfolding insert_sorted
All-insert_sorted n f [] h hs = (h, tt)
All-insert_sorted n f (g ∷ gs) h (k, ks) = ground (arith, All-insert_sorted n f gs h ks)

All-mono :
    (m n : ℕ) (fs : List Frame) → m ≤ n → All (λ g. n ≤ id_of g) fs → All (λ g. m ≤ id_of g) fs
All-mono m n [] h hs = tt
All-mono m n (f ∷ fs) h (k, ks) = (omega arith, All-mono m n fs h ks)

insert_sorted-IsSorted : (f : Frame) (fs : List Frame) → IsSorted fs → IsSorted (insert_sorted f fs)
unfolding insert_sorted frame_lt
insert_sorted-IsSorted f [] h = (tt, tt)
insert_sorted-IsSorted f (g ∷ gs) (h, hs) = elim (Bool-cases (ltb (id_of g) (id_of f))) [
  | inl less ↦ rw less (
    All-insert_sorted (id_of g) f gs (omega (arith, ltb→lt _ _ less)) h,
    insert_sorted-IsSorted f gs hs,
  )
  | inr more ↦
      rw more ((ltb→le _ _ more, All-mono (id_of f) (id_of g) gs (ltb→le _ _ more) h), (h, hs))
]

-- The sorted list has its identifiers in rising order.
pub sort-IsSorted : (fs : List Frame) → IsSorted (sort fs)
unfolding sort
sort-IsSorted [] = tt
sort-IsSorted (f ∷ fs) = insert_sorted-IsSorted f (sort fs) (sort-IsSorted fs)

-- The frames with one identifier.
unfoldable pub with_id : ℕ → List Frame → List Frame
with_id n [] = []
with_id n (f ∷ fs) = if id_of f == n then f ∷ with_id n fs else with_id n fs

with_id-insert_sorted :
    (n : ℕ) (f : Frame) (fs : List Frame) → with_id n (insert_sorted f fs) ≡ with_id n (f ∷ fs)
unfolding with_id insert_sorted frame_lt
with_id-insert_sorted n f [] = refl
with_id-insert_sorted n f (g ∷ gs) = ground (arith, with_id-insert_sorted n f gs)

-- The sort is stable: the frames of one identifier keep their order.
pub with_id-sort : (n : ℕ) (fs : List Frame) → with_id n (sort fs) ≡ with_id n fs
unfolding with_id sort
with_id-sort n [] = refl
with_id-sort n (f ∷ fs) = with_id-insert_sorted n f (sort fs) ∙ ground (arith, with_id-sort n fs)

return_loop_lem :
    (kept rest : List Frame) (b : FrameBuffer)
    → b.intermediate_buffer ≡ kept ++ rest
    → ((return_loop kept rest b).buffer ≡ reverse rest ++ b.buffer)
      × ((return_loop kept rest b).intermediate_buffer ≡ kept)
      × ((return_loop kept rest b).frame_pool ≡ b.frame_pool)
unfolding return_loop return_frame
return_loop_lem kept [] b e = (refl, e ∙ append-nil kept, refl)
return_loop_lem kept (f ∷ rest) b e =
    let (p, q, r) =
      return_loop_lem kept rest (return_frame f (record b { intermediate_buffer = kept ++ rest }))
        refl in
    (
      p
          ∙ sym (
              ap (λ (xs : List Frame). xs ++ b.buffer) (reverse-cons f rest)
              ∙ append_assoc (reverse rest) (f ∷ []) b.buffer),
      q,
      r,
    )

-- `returnIntermediateBuffer` cuts the intermediate buffer at the iterator. The frames behind it come
-- before those of the buffer, the last of them first; the pool is not touched.
pub return_intermediate_buffer_lem :
    (start : ℕ) (b : FrameBuffer)
    → ((return_intermediate_buffer start b).buffer
        ≡ reverse (drop start b.intermediate_buffer) ++ b.buffer)
      × ((return_intermediate_buffer start b).intermediate_buffer
          ≡ take start b.intermediate_buffer)
      × ((return_intermediate_buffer start b).frame_pool ≡ b.frame_pool)
unfolding return_intermediate_buffer
return_intermediate_buffer_lem start b =
    return_loop_lem (take start b.intermediate_buffer) (drop start b.intermediate_buffer) b
      (sym (take-append-drop start b.intermediate_buffer))
