-- ===== src/Pool/Order.antt =====
-- The order in which the queue of libbb/bb_pool.c hands frames out, and what a second dequeue before
-- a release gives.
use nxp_imx95_building_block.Common.{
  ℕ, zero, suc, ◌-◌, ◌≤◌, ◌<◌, ◌≡◌, refl, ap, ◌∙◌, ◌≢◌, inl, inr, true, false, none, List, [], ◌∷◌,
  arith, ltb, ltb→lt, Bool-cases, length, pos, eq_ℤ, fetch_inc, fetch_dec, fetch_inc_lt,
  fetch_dec_pos,
}
use nxp_imx95_building_block.Pool.{Pool, Frame, got, store_ref, is_queued, mp_enqueue, mp_dequeue}
use nxp_imx95_building_block.Pool.Find.{
  ref_at, ref_at-store_self, ref_at-store_ne, length-store_ref, add_ref-store,
}
use nxp_imx95_building_block.Pool.Mpsc.{IsBalanced, queued_count, mp_dequeue_lem}
use nxp_imx95_building_block.Pool.Balance.{mp_enqueue-IsBalanced}

queued_count_none :
    (fs : List Frame) (k : ℕ)
    → queued_count fs ≡ 0
    → k < length fs
    → is_queued (ref_at fs k) ≡ false
queued_count_none [] k h l = elim l [ ]
queued_count_none (f ∷ fs) zero h l = ground arith
queued_count_none (f ∷ fs) (suc k) h l = queued_count_none fs k (ground arith) (omega arith)

-- `bb_pool_mp_enqueue` of a frame that its producer holds stores 2 in that frame's count.
pub frames-enqueue :
    (p : Pool) (i : ℕ)
    → ref_at p.frames i ≡ pos 1
    → (mp_enqueue p i).frames ≡ store_ref p.frames i (pos 2)
unfolding mp_enqueue
frames-enqueue p i e =
    add_ref-store fetch_inc p.frames i
    ∙ ap (store_ref p.frames i) (ap fetch_inc e ∙ fetch_inc_lt 1 (omega arith))

pub ref_at-enqueue_ne :
    (p : Pool) (i k : ℕ)
    → ref_at p.frames i ≡ pos 1
    → i ≢ k
    → ref_at (mp_enqueue p i).frames k ≡ ref_at p.frames k
ref_at-enqueue_ne p i k e ne =
    ap (λ l. ref_at l k) (frames-enqueue p i e) ∙ ref_at-store_ne p.frames i k (pos 2) ne

pub count-enqueue : (p : Pool) (i : ℕ) → (mp_enqueue p i).count ≡ p.count
unfolding mp_enqueue
count-enqueue p i = refl

module _ (p : Pool) (i j : ℕ) (b : IsBalanced p none 0) (l : i < j) (c : j < p.count)
    (ei : ref_at p.frames i ≡ pos 1) (ej : ref_at p.frames j ≡ pos 1) where
  first_ref : ref_at (mp_enqueue p j).frames i ≡ pos 1
  first_ref = ref_at-enqueue_ne p j i ej (λ e. omega arith) ∙ ei

  both : Pool
  both = mp_enqueue (mp_enqueue p j) i

  both-IsBalanced : IsBalanced both none 2
  unfolding both
  both-IsBalanced =
      mp_enqueue-IsBalanced (mp_enqueue p j) none 1 i
        (mp_enqueue-IsBalanced p none 0 j b c ej (omega arith)) (omega (arith, count-enqueue p j))
        first_ref (omega arith)

  first_queued : is_queued (ref_at both.frames i) ≡ true
  unfolding both
  first_queued = ap is_queued (
      ap (λ fs. ref_at fs i) (frames-enqueue (mp_enqueue p j) i first_ref)
      ∙ ref_at-store_self (mp_enqueue p j).frames i (pos 2) (
          omega (
            arith,
            ap length (frames-enqueue p j ej),
            length-store_ref p.frames j (pos 2),
            b.full_length,
          )))

  none_before : (k : ℕ) → k < i → is_queued (ref_at both.frames k) ≡ false
  unfolding both
  none_before k h =
      ap is_queued (
        ref_at-enqueue_ne (mp_enqueue p j) i k first_ref (λ e. omega arith)
        ∙ ref_at-enqueue_ne p j k ej (λ e. omega arith))
      ∙ queued_count_none p.frames k (b.none_held refl) (omega (arith, b.full_length))

  only_first :
      (k : ℕ)
      → is_queued (ref_at both.frames k) ≡ true
      → ((m : ℕ) → m < k → is_queued (ref_at both.frames m) ≡ false)
      → k ≡ i
  only_first k q first = elim (Bool-cases (ltb k i)) [
    | inl h ↦ let e = none_before k (ltb→lt k i h) in cc
    | inr h ↦ elim (Bool-cases (ltb i k)) [
      | inl g ↦ let e = first i (ltb→lt i k g) in let f = first_queued in cc
      | inr g ↦ ground arith
    ]
  ]

  -- Whenever no frame is queued or held by the consumer, and two producers enqueue frame `j` and
  -- then frame `i` of a lower index, the next `bb_pool_mp_dequeue` hands out `i`: the queue is
  -- served by index, and not in the order of the calls.
  pub mp_dequeue_overtakes : (mp_dequeue (mp_enqueue (mp_enqueue p j) i)).0 ≡ got i
  unfolding both
  mp_dequeue_overtakes = elim (mp_dequeue_lem both 2 both-IsBalanced) [
    | inl (z, e) ↦ absurd (omega (arith, z, both-IsBalanced.none_held refl))
    | inr (z, (k, lt, q, first, e)) ↦ ap (λ x. x.0) e ∙ ap got (only_first k q first)
  ]

-- With two frames pending and none held, two calls of `bb_pool_mp_dequeue` with no release between
-- them hand out the same frame.
pub mp_dequeue_twice :
    (p : Pool) (n : ℕ)
    → IsBalanced p none n
    → 2 ≤ n
    → (mp_dequeue (mp_dequeue p).1).0 ≡ (mp_dequeue p).0
unfolding mp_dequeue
mp_dequeue_twice p n b h =
    let a : eq_ℤ p.mp_pending (pos 0) ≡ false = ground (arith, b.has_pending) in
    let d : fetch_dec p.mp_pending ≡ pos (n - 1) =
      ap fetch_dec b.has_pending ∙ fetch_dec_pos n (omega arith) in
    let c : eq_ℤ (fetch_dec p.mp_pending) (pos 0) ≡ false = ground (arith, d) in
    rw (a, mp_dequeue) (rw (c, mp_dequeue) refl)
