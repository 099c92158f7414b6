-- ===== src/Pool/Balance.antt =====
-- The functions of the mutex-protected queue of libbb/bb_pool.c keep `mp_pending` equal to the number
-- of frames queued, less the one that the consumer holds.
use nxp_imx95_building_block.Common.{
  ℕ, ◌+◌, ◌-◌, ◌<◌, ◌≡◌, refl, sym, ap, subst, ◌∙◌, ◌≢◌, inl, inr, true, false, Option, none, some,
  arith, ℤ, pos, int_max, fetch_inc, fetch_dec, fetch_inc_lt, fetch_dec_pos,
}
use nxp_imx95_building_block.Pool.{
  Pool, Reply, got, null, fault, blocked, store_ref, add_ref, is_free, is_queued, mp_acquire,
  mp_enqueue, mp_dequeue, mp_release,
}
use nxp_imx95_building_block.Pool.Find.{ref_at, ref_at-store_ne, length-store_ref, add_ref-store}
use nxp_imx95_building_block.Pool.Mpsc.{
  IsBalanced, weight, queued_count-store, mp_acquire_lem, mp_dequeue_lem,
}

-- The frame that the consumer holds after a reply.
abbrev pub taken : Reply → Option ℕ
taken (got i) = some i
taken null = none
taken fault = none
taken blocked = none

-- A store that leaves the weight of frame `i` alone keeps the balance.
store-IsBalanced :
    {p : Pool} {held : Option ℕ} {n : ℕ} (i : ℕ) (v : ℤ)
    → IsBalanced p held n
    → i < p.count
    → is_queued v ≡ is_queued (ref_at p.frames i)
    → held ≢ some i
    → IsBalanced (record p { frames = store_ref p.frames i v }) held n
store-IsBalanced {p} i v b l same other =
    let e = queued_count-store p.frames i v (omega (arith, b.full_length)) in
    let w : weight v ≡ weight (ref_at p.frames i) = rw same refl in
    record {
      full_length = length-store_ref p.frames i v ∙ b.full_length;
      has_pending = b.has_pending;
      small = b.small;
      none_held = λ h. omega (arith, e, w, b.none_held h);
      one_held = λ j h.
          let (x, y, z) = b.one_held j h in
          (
            omega (arith, e, w),
            y,
            ap is_queued (ref_at-store_ne p.frames i j v (λ g. other (h ∙ ap some (sym g)))) ∙ z,
          );
    }

free-not_queued : (x : ℤ) → is_free x ≡ true → is_queued x ≡ false
free-not_queued x h = ground arith

-- `bb_pool_mp_acquire` keeps the balance, whatever the consumer holds.
pub mp_acquire-IsBalanced :
    (p : Pool) (held : Option ℕ) (n : ℕ) → IsBalanced p held n → IsBalanced (mp_acquire p).1 held n
mp_acquire-IsBalanced p held n b = elim (mp_acquire_lem p b.full_length) [
  | inl (a, e) ↦ subst (λ x. IsBalanced x.1 held n) (sym e) b
  | inr (i, l, free, first, e) ↦
      let q = free-not_queued (ref_at p.frames i) free in
      subst (λ x. IsBalanced x.1 held n) (sym e)
        (store-IsBalanced i (pos 1) b l (sym q) (λ h. let (x, y, z) = b.one_held i h in cc))
]

-- `bb_pool_mp_enqueue` of a frame that its producer holds adds one to `mp_pending` and one to the
-- frames queued, below the bound of `atomic_int`.
pub mp_enqueue-IsBalanced :
    (p : Pool) (held : Option ℕ) (n i : ℕ)
    → IsBalanced p held n
    → i < p.count
    → ref_at p.frames i ≡ pos 1
    → n + 1 < int_max
    → IsBalanced (mp_enqueue p i) held (n + 1)
unfolding mp_enqueue
mp_enqueue-IsBalanced p held n i b l one room =
    let next : fetch_inc (ref_at p.frames i) ≡ pos 2 =
      ap fetch_inc one ∙ fetch_inc_lt 1 (omega arith) in
    let e : add_ref fetch_inc p.frames i ≡ store_ref p.frames i (pos 2) =
      add_ref-store fetch_inc p.frames i ∙ ap (store_ref p.frames i) next in
    let c = queued_count-store p.frames i (pos 2) (omega (arith, b.full_length)) in
    let w : weight (ref_at p.frames i) ≡ 0 = rw one refl in
    subst
      (λ fs.
        IsBalanced (record p { frames = fs; mp_pending = fetch_inc p.mp_pending }) held (n + 1))
      (sym e)
      (record {
        full_length = length-store_ref p.frames i (pos 2) ∙ b.full_length;
        has_pending = ap fetch_inc b.has_pending ∙ fetch_inc_lt n b.small;
        small = room;
        none_held = λ h. omega (arith, c, w, b.none_held h);
        one_held = λ j h.
            let (x, y, z) = b.one_held j h in
            (
              omega (arith, c, w),
              y,
              ap is_queued (
                    ref_at-store_ne p.frames i j (pos 2)
                      (λ g. not_one j (one ∙ refl) (ap (ref_at p.frames) (sym g)) z))
                  ∙ z,
            );
      })
  where
    not_one :
        (j : ℕ)
        → ref_at p.frames i ≡ pos 1
        → ref_at p.frames j ≡ ref_at p.frames i
        → is_queued (ref_at p.frames j) ≡ true
        → ⊥
    not_one j a e z = ground arith

-- `bb_pool_mp_dequeue` while the consumer holds no frame: it takes one from `mp_pending` exactly when
-- it hands out a frame, and the balance holds with that frame held.
pub mp_dequeue-IsBalanced :
    (p : Pool) (n : ℕ)
    → IsBalanced p none n
    → IsBalanced (mp_dequeue p).1 (taken (mp_dequeue p).0) (n - 1)
mp_dequeue-IsBalanced p n b = elim (mp_dequeue_lem p n b) [
  | inl (c, e) ↦
      subst (λ x. IsBalanced x.1 (taken x.0) (n - 1)) (sym e)
        (subst (IsBalanced p none) (omega (arith, b.none_held refl)) b)
  | inr (c, (i, l, q, first, e)) ↦
      let m = b.none_held refl in
      let d : fetch_dec p.mp_pending ≡ pos (n - 1) =
        ap fetch_dec b.has_pending ∙ fetch_dec_pos n (omega arith) in
      subst (λ x. IsBalanced x.1 (taken x.0) (n - 1)) (sym e)
        (record {
          full_length = b.full_length;
          has_pending = d;
          small = omega (arith, b.small);
          none_held = λ h. cc;
          one_held = λ j h. (
            omega arith,
            subst (λ j. j < p.count) (ground arith) l,
            subst (λ j. is_queued (ref_at p.frames j) ≡ true) (ground arith) q,
          );
        })
]

-- `bb_pool_mp_release` of the frame that the consumer holds: the consumer holds none, and the balance
-- holds for the frames still queued.
pub mp_release-IsBalanced :
    (p : Pool) (n i : ℕ) → IsBalanced p (some i) n → IsBalanced (mp_release p i) none n
unfolding mp_release
mp_release-IsBalanced p n i b =
    let (x, y, z) = b.one_held i refl in
    let e = queued_count-store p.frames i (pos 0) (omega (arith, b.full_length)) in
    let w : weight (ref_at p.frames i) ≡ 1 = rw z refl in
    record {
      full_length = length-store_ref p.frames i (pos 0) ∙ b.full_length;
      has_pending = b.has_pending;
      small = b.small;
      none_held = λ h. omega (arith, e, w);
      one_held = λ j h. cc;
    }
