-- ===== src/Pool/Spsc.antt =====
-- The lock-free ring of libbb/bb_pool.c between one producer and one consumer: what each function
-- does on a well-formed ring.
use native.Mathlib.Nat.{mod-lt}
use nxp_imx95_building_block.Common.{
  ℕ, ◌+◌, ◌-◌, ◌%◌, ◌≤◌, ◌<◌, ◌≡◌, refl, ap, ap₂, ◌∙◌, ◌≢◌, ◌⊎◌, inl, inr, true, false, some, arith,
  le→leb, Bool-cases, length, get_elem?_lt, ℤ, pos, negsuc, ltb_ℤ, leb_ℤ, eq_ℤ, ◌-ℤ◌, int_max,
  fetch_inc, fetch_inc_lt,
}
use nxp_imx95_building_block.Pool.{
  Pool, Reply, got, null, store_ref, slot, claim, take_slot, sp_acquire, sp_dequeue, sp_commit,
  fits_int, fault,
}
use nxp_imx95_building_block.Pool.Find.{ref_at, ref_at-get_elem?}
use nxp_imx95_building_block.Pool.Slots.{slot_pos, sub_pos}

-- A ring between `bb_pool_init` and the overflow of its counters, `w` frames committed and `r` taken.
pub record IsRing (p : Pool) (w r : ℕ) : Type 0 where
  pub has_write : p.write_idx ≡ pos w
  pub has_read : p.read_idx ≡ pos r
  pub read_le : r ≤ w
  pub within : w ≤ r + p.count
  pub small : w ≤ int_max
  pub nonempty : 0 < p.count
  pub full_length : length p.frames ≡ p.count

fetch_inc_max : fetch_inc (pos int_max) ≡ negsuc int_max
unfolding fetch_inc
fetch_inc_max = refl

sub_neg : (n r : ℕ) → negsuc n -ℤ pos r ≡ negsuc (n + r)
unfolding ◌-ℤ◌
sub_neg n r = ground arith

-- The pool after frame `i` is claimed.
abbrev pub claimed : Pool → ℕ → Pool
claimed p i = record p { frames = store_ref p.frames i (pos 1) }

-- The three ways in which `bb_pool_sp_acquire` ends.
abbrev pub Acquires : Pool → ℕ → ℕ → Reply × Pool → Type 0
Acquires p w r a =
    ((r + p.count ≤ w) × (a ≡ (null, p)))
    ⊎ ((w < r + p.count) × (ref_at p.frames (w % p.count) ≢ pos 0) × (a ≡ (null, p)))
    ⊎ ((w < r + p.count)
        × (ref_at p.frames (w % p.count) ≡ pos 0)
        × (a ≡ (got (w % p.count), claimed p (w % p.count))))

-- The three ways in which `bb_pool_sp_dequeue` ends.
abbrev pub Dequeues : Pool → ℕ → ℕ → Reply × Pool → Type 0
Dequeues p w r a =
    ((w ≡ r) × (a ≡ (null, p)))
    ⊎ ((r < w) × (ltb_ℤ (ref_at p.frames (r % p.count)) (pos 1) ≡ true) × (a ≡ (null, p)))
    ⊎ ((r < w)
        × (ltb_ℤ (ref_at p.frames (r % p.count)) (pos 1) ≡ false)
        × (a ≡ (got (r % p.count), record p { read_idx = pos (r + 1) })))

eq_ℤ→eq : (a : ℤ) → eq_ℤ a (pos 0) ≡ true → a ≡ pos 0
eq_ℤ→eq a h = ground arith

eq_ℤ→ne : (a : ℤ) → eq_ℤ a (pos 0) ≡ false → a ≢ pos 0
eq_ℤ→ne a h = ground arith

module _ (p : Pool) (w r : ℕ) (v : IsRing p w r) where
  write_slot_lt : w % p.count < length p.frames
  write_slot_lt = omega (arith, mod-lt w {m = p.count} v.nonempty, v.full_length)

  read_slot_lt : r % p.count < length p.frames
  read_slot_lt = omega (arith, mod-lt r {m = p.count} v.nonempty, v.full_length)

  write-sub-read : p.write_idx -ℤ p.read_idx ≡ pos (w - r)
  write-sub-read = ap₂ ◌-ℤ◌ v.has_write v.has_read ∙ sub_pos w r v.read_le

  write_slot : slot p.write_idx p.count ≡ some (w % p.count)
  write_slot = ap (λ x. slot x p.count) v.has_write ∙ slot_pos w p.count v.nonempty

  read_slot : slot p.read_idx p.count ≡ some (r % p.count)
  read_slot = ap (λ x. slot x p.count) v.has_read ∙ slot_pos r p.count v.nonempty

  read_next : r < w → fetch_inc p.read_idx ≡ pos (r + 1)
  read_next h = ap fetch_inc v.has_read ∙ fetch_inc_lt r (omega (arith, v.small))

  read_all : leb_ℤ p.write_idx p.read_idx ≡ true → w ≡ r
  read_all y = ground (arith, v.has_write, v.has_read, v.read_le)

  read_some : leb_ℤ p.write_idx p.read_idx ≡ false → r < w
  read_some y = ground (arith, v.has_write, v.has_read, v.read_le)

  claim_slot :
      ((ref_at p.frames (w % p.count) ≢ pos 0) × (claim p (some (w % p.count)) ≡ (null, p)))
      ⊎ ((ref_at p.frames (w % p.count) ≡ pos 0)
          × (claim p (some (w % p.count)) ≡ (got (w % p.count), claimed p (w % p.count))))
  unfolding claim
  claim_slot =
      let (f, e) = get_elem?_lt p.frames (w % p.count) write_slot_lt in
      let e' = ref_at-get_elem? p.frames (w % p.count) f e in
      elim (Bool-cases (eq_ℤ f.refcount (pos 0))) [
        | inl y ↦ inr (e' ∙ eq_ℤ→eq f.refcount y, rw (e, claim) (rw (y, claim) refl))
        | inr n ↦ inl (rw e' (eq_ℤ→ne f.refcount n), rw (e, claim) (rw (n, claim) refl))
      ]

  -- On a well-formed ring `bb_pool_sp_acquire` answers NULL and changes nothing when `count`
  -- frames are committed and not taken, or when the next frame is still referenced; otherwise it
  -- hands out frame `write_idx % count`, and only that frame's count changes, from 0 to 1.
  pub sp_acquire_lem : Acquires p w r (sp_acquire p)
  unfolding sp_acquire
  sp_acquire_lem =
      let e = write-sub-read in
      let at = write_slot in
      let fits : fits_int (p.write_idx -ℤ p.read_idx) ≡ true =
        ap fits_int e ∙ le→leb (w - r) int_max (omega (arith, v.small)) in
      elim (Bool-cases (leb_ℤ (pos p.count) (p.write_idx -ℤ p.read_idx))) [
        | inl y ↦ inl (ground (arith, e, v.read_le), rw (fits, y) refl)
        | inr n ↦
            rw (fits, n, at)
              (elim claim_slot [
                | inl (a, b) ↦ inr (inl (ground (arith, e, v.read_le), a, b))
                | inr (a, b) ↦ inr (inr (ground (arith, e, v.read_le), a, b))
              ])
      ]

  take_read_slot :
      r < w
      → ((ltb_ℤ (ref_at p.frames (r % p.count)) (pos 1) ≡ true)
          × (take_slot p (some (r % p.count)) ≡ (null, p)))
        ⊎ ((ltb_ℤ (ref_at p.frames (r % p.count)) (pos 1) ≡ false)
            × (take_slot p (some (r % p.count))
                ≡ (got (r % p.count), record p { read_idx = pos (r + 1) })))
  unfolding take_slot
  take_read_slot h =
      let (f, e) = get_elem?_lt p.frames (r % p.count) read_slot_lt in
      let e' = ref_at-get_elem? p.frames (r % p.count) f e in
      let next = read_next h in
      elim (Bool-cases (ltb_ℤ f.refcount (pos 1))) [
        | inl y ↦ inl (rw e' y, rw (e, take_slot) (rw (y, take_slot) refl))
        | inr n ↦ inr (rw e' n, rw (e, take_slot) (rw (n, take_slot) (rw next refl)))
      ]

  -- On a well-formed ring `bb_pool_sp_dequeue` answers NULL and changes nothing when every
  -- committed frame is taken, or when the oldest one has no reference; otherwise it hands out
  -- frame `read_idx % count` and advances `read_idx` by one, without a wrap.
  pub sp_dequeue_lem : Dequeues p w r (sp_dequeue p)
  unfolding sp_dequeue
  sp_dequeue_lem =
      let at = read_slot in
      elim (Bool-cases (leb_ℤ p.write_idx p.read_idx)) [
        | inl y ↦ inl (read_all y, rw (y, sp_dequeue) refl)
        | inr n ↦
            rw (n, at)
              (elim (take_read_slot (read_some n)) [
                | inl (a, b) ↦ inr (inl (read_some n, a, b))
                | inr (a, b) ↦ inr (inr (read_some n, a, b))
              ])
      ]

-- When the `INT_MAX`th frame is committed and any frame was taken before, the next
-- `bb_pool_sp_acquire` subtracts past the range of `int`: its behaviour is undefined from there on.
pub sp_acquire_overflow :
    (p : Pool) (r : ℕ)
    → p.write_idx ≡ pos int_max
    → p.read_idx ≡ pos r
    → 0 < r
    → (sp_acquire (sp_commit p)).0 ≡ fault
unfolding sp_acquire sp_commit
sp_acquire_overflow p r ew er h =
    let e : fetch_inc p.write_idx -ℤ p.read_idx ≡ negsuc (int_max + r) =
      ap₂ ◌-ℤ◌ (ap fetch_inc ew ∙ fetch_inc_max) er ∙ sub_neg int_max r in
    let f : fits_int (fetch_inc p.write_idx -ℤ p.read_idx) ≡ false = ap fits_int e ∙ ground arith in
    rw f refl
