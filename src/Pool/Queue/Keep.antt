-- ===== src/Pool/Queue/Keep.antt =====
-- The calls of the producer on the ring of libbb/bb_pool.c: acquire, fill and commit.
use nxp_imx95_building_block.Common.{
  ℕ, ◌+◌, ◌-◌, ◌%◌, ◌≤◌, ◌<◌, ◌≡◌, sym, ap, subst, ◌∙◌, inl, inr, true, none, some, List, [], ◌∷◌,
  ◌++◌, append_assoc, arith, ltb, ltb→lt, Bool-cases, length, Bytes, pos, ltb_ℤ, int_max, fetch_inc,
  fetch_inc_lt,
}
use native.Mathlib.Nat.{mod-lt}
use nxp_imx95_building_block.Pool.{Pool, Frame, got, null, store_ref, sp_acquire, sp_commit}
use nxp_imx95_building_block.Pool.Find.{
  ref_at, ref_at-store_self, ref_at-store_ne, length-store_ref,
}
use nxp_imx95_building_block.Pool.Slots.{mod-ne}
use nxp_imx95_building_block.Pool.Spsc.{IsRing, claimed, sp_acquire_lem}
use nxp_imx95_building_block.Pool.Queue.Content.{
  bytes_at, fill, pending, length-fill, ref_at-fill, bytes_at-fill_ne, bytes_at-store_ref,
  pending-snoc, pending_ext,
}
use nxp_imx95_building_block.Pool.Queue.{Stream, acquired, filled, committed, IsStream, Valid}

pub IsRing-frames :
    {p : Pool} {w r : ℕ} (gs : List Frame)
    → IsRing p w r
    → length gs ≡ length p.frames
    → IsRing (record p { frames = gs }) w r
IsRing-frames gs v e = record {
  has_write = v.has_write;
  has_read = v.has_read;
  read_le = v.read_le;
  within = v.within;
  small = v.small;
  nonempty = v.nonempty;
  full_length = e ∙ v.full_length;
}

module _ (s : Stream) (w r : ℕ) (v : IsStream s w r) where
  write_lt : w % s.pool.count < length s.pool.frames
  write_lt = omega (arith, mod-lt w {m = s.pool.count} v.ring.nonempty, v.ring.full_length)

  keep_unchanged : s.producer ≡ none → Valid (acquired s (null, s.pool))
  keep_unchanged e = (
    w,
    r,
    record {
      ring = v.ring;
      queued = v.queued;
      filling = λ i h. cc;
      draining = v.draining;
      apart = λ i h. cc;
      order = v.order;
    },
  )

  keep_claimed :
      w < r + s.pool.count
      → ref_at s.pool.frames (w % s.pool.count) ≡ pos 0
      → Valid (acquired s (got (w % s.pool.count), claimed s.pool (w % s.pool.count)))
  keep_claimed room free = (
    w,
    r,
    record {
      ring = IsRing-frames _ v.ring (length-store_ref s.pool.frames (w % s.pool.count) (pos 1));
      queued = λ k a b.
          ref_at-store_ne s.pool.frames (w % s.pool.count) (k % s.pool.count) (pos 1)
            (λ e. mod-ne s.pool.count k w b (omega arith) (sym e))
          ∙ v.queued k a b;
      filling = λ i h. (
        ground arith,
        subst (λ i. ref_at (store_ref s.pool.frames (w % s.pool.count) (pos 1)) i ≡ pos 1)
            (ground arith) (ref_at-store_self s.pool.frames (w % s.pool.count) (pos 1) write_lt),
        room,
      );
      draining = λ j h.
          let (a, b, d) = v.draining j h in
          (
            a,
            ref_at-store_ne s.pool.frames (w % s.pool.count) j (pos 1)
                  (λ e. cc (ap (ref_at s.pool.frames) e))
                ∙ b,
            d,
          );
      apart = λ i h g. let (a, b, d) = v.draining i g in cc;
      order =
          v.order
          ∙ ap (◌++◌ s.received) (
              sym (
                pending_ext s.pool.frames _ s.pool.count r (w - r) (λ k a b.
                  bytes_at-store_ref s.pool.frames (w % s.pool.count) (k % s.pool.count) (pos 1))));
    },
  )

  pub keep_acquire : s.producer ≡ none → Valid (acquired s (sp_acquire s.pool))
  keep_acquire e = elim (sp_acquire_lem s.pool w r v.ring) [
    | inl (a, e') ↦ subst (λ x. Valid (acquired s x)) (sym e') (keep_unchanged e)
    | inr (inl (a, b, e')) ↦ subst (λ x. Valid (acquired s x)) (sym e') (keep_unchanged e)
    | inr (inr (a, b, e')) ↦ subst (λ x. Valid (acquired s x)) (sym e') (keep_claimed a b)
  ]

  pub keep_write : (i : ℕ) (b : Bytes) → s.producer ≡ some i → Valid (filled s i b)
  keep_write i b e = (
    w,
    r,
    record {
      ring = IsRing-frames _ v.ring (length-fill s.pool.frames i b);
      queued = λ k a l. ref_at-fill s.pool.frames i (k % s.pool.count) b ∙ v.queued k a l;
      filling = λ j h. let (x, y, z) = v.filling j h in (x, ref_at-fill s.pool.frames i j b ∙ y, z);
      draining =
          λ j h. let (x, y, z) = v.draining j h in (x, ref_at-fill s.pool.frames i j b ∙ y, z);
      apart = v.apart;
      order =
          v.order
          ∙ ap (◌++◌ s.received) (sym (pending_ext s.pool.frames _ s.pool.count r (w - r) other));
    },
  )
    where
      other :
          (k : ℕ)
          → r ≤ k
          → k < r + (w - r)
          → bytes_at (fill s.pool.frames i b) (k % s.pool.count)
            ≡ bytes_at s.pool.frames (k % s.pool.count)
      other k a l =
          let (x, y, z) = v.filling i e in
          bytes_at-fill_ne s.pool.frames i (k % s.pool.count) b
            (λ g. mod-ne s.pool.count k w (omega (arith, v.ring.read_le)) (omega arith) (sym g ∙ x))

  next_write :
      ltb_ℤ s.pool.write_idx (pos int_max) ≡ true
      → (w < int_max) × (fetch_inc s.pool.write_idx ≡ pos (w + 1))
  next_write h =
      let l : w < int_max = ground (arith, v.ring.has_write) in
      (l, ap fetch_inc v.ring.has_write ∙ fetch_inc_lt w l)

  pub keep_commit :
      (i : ℕ)
      → s.producer ≡ some i
      → ltb_ℤ s.pool.write_idx (pos int_max) ≡ true
      → Valid (committed s i)
  unfolding sp_commit
  keep_commit i e h =
      let (l, n) = next_write h in
      let (x, y, z) = v.filling i e in
      (
        w + 1,
        r,
        record {
          ring = record {
            has_write = n;
            has_read = v.ring.has_read;
            read_le = omega (arith, v.ring.read_le);
            within = omega arith;
            small = omega arith;
            nonempty = v.ring.nonempty;
            full_length = v.ring.full_length;
          };
          queued = λ k a b. elim (Bool-cases (ltb k w)) [
            | inl t ↦ v.queued k a (ltb→lt k w t)
            | inr f ↦
                ap (ref_at s.pool.frames) (ap (λ t. t % s.pool.count) (ground arith) ∙ sym x) ∙ y
          ];
          filling = λ j h. cc;
          draining = λ j h.
              let (a, b, d) = v.draining j h in
              (
                a,
                b,
                λ k f g. elim (Bool-cases (ltb k w)) [
                  | inl t ↦ d k f (ltb→lt k w t)
                  | inr t ↦ λ m.
                      v.apart i e
                        (h ∙ ap some (sym m ∙ ap (λ t. t % s.pool.count) (ground arith) ∙ sym x))
                ],
              );
          apart = λ j h. cc;
          order = extended x;
        },
      )
    where
      extended :
          i ≡ w % s.pool.count
          → s.sent ++ bytes_at s.pool.frames i ∷ []
            ≡ s.received ++ pending s.pool.frames s.pool.count r (w + 1 - r)
      extended x =
          ap (λ l. l ++ bytes_at s.pool.frames i ∷ []) v.order
          ∙ append_assoc s.received _ _
          ∙ ap (◌++◌ s.received) (
              ap
                (λ t. pending s.pool.frames s.pool.count r (w - r) ++ bytes_at s.pool.frames t ∷ [])
                (x ∙ ap (λ t. t % s.pool.count) (omega (arith, v.ring.read_le)))
              ∙ sym (pending-snoc s.pool.frames s.pool.count r (w - r))
              ∙ ap (pending s.pool.frames s.pool.count r) (omega (arith, v.ring.read_le)))
