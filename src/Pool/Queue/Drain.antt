-- ===== src/Pool/Queue/Drain.antt =====
-- The calls that give a frame of the ring of libbb/bb_pool.c back or take one out.
use nxp_imx95_building_block.Common.{
  ℕ, suc, ◌+◌, ◌-◌, ◌%◌, ◌≤◌, ◌<◌, ◌≡◌, refl, sym, ap, subst, ◌∙◌, ◌≢◌, inl, inr, none, some, [],
  ◌∷◌, ◌++◌, append-nil, append_assoc, arith, pos,
}
use native.Mathlib.Nat.{mod-lt}
use nxp_imx95_building_block.Pool.{got, null, store_ref, sp_dequeue, sp_release}
use nxp_imx95_building_block.Pool.Find.{ref_at, ref_at-store_ne, length-store_ref}
use nxp_imx95_building_block.Pool.Slots.{mod-ne}
use nxp_imx95_building_block.Pool.Spsc.{sp_dequeue_lem}
use nxp_imx95_building_block.Pool.Queue.Content.{bytes_at, pending, bytes_at-store_ref, pending_ext}
use nxp_imx95_building_block.Pool.Queue.{Stream, dropped, dequeued, released, IsStream, Valid}
use nxp_imx95_building_block.Pool.Queue.Keep.{IsRing-frames}

module _ (s : Stream) (w r : ℕ) (v : IsStream s w r) where
  -- Clearing the count of a frame that is neither queued nor the other thread's.
  cleared_queued :
      (j : ℕ)
      → ((k : ℕ) → r ≤ k → k < w → k % s.pool.count ≢ j)
      → (k : ℕ) → r ≤ k
      → k < w
      → ref_at (store_ref s.pool.frames j (pos 0)) (k % s.pool.count) ≡ pos 1
  cleared_queued j ne k a b =
      ref_at-store_ne s.pool.frames j (k % s.pool.count) (pos 0) (λ e. ne k a b (sym e))
      ∙ v.queued k a b

  cleared_order :
      (j : ℕ)
      → s.sent ≡ s.received ++ pending (store_ref s.pool.frames j (pos 0)) s.pool.count r (w - r)
  cleared_order j =
      v.order
      ∙ ap (◌++◌ s.received) (
          sym (
            pending_ext s.pool.frames _ s.pool.count r (w - r)
              (λ k a b. bytes_at-store_ref s.pool.frames j (k % s.pool.count) (pos 0))))

  pub keep_drop : (i : ℕ) → s.producer ≡ some i → Valid (dropped s i)
  unfolding sp_release
  keep_drop i e =
      let (x, y, z) = v.filling i e in
      (
        w,
        r,
        record {
          ring = IsRing-frames _ v.ring (length-store_ref s.pool.frames i (pos 0));
          queued = cleared_queued i (λ k a b g. mod-ne s.pool.count k w b (omega arith) (g ∙ x));
          filling = λ j h. cc;
          draining = λ j h.
              let (a, b, d) = v.draining j h in
              (
                a,
                ref_at-store_ne s.pool.frames i j (pos 0) (λ g. v.apart i e (h ∙ ap some (sym g)))
                    ∙ b,
                d,
              );
          apart = λ j h. cc;
          order = cleared_order i;
        },
      )

  pub keep_release : (j : ℕ) → s.consumer ≡ some j → Valid (released s j)
  unfolding sp_release
  keep_release j e =
      let (x, y, z) = v.draining j e in
      (
        w,
        r,
        record {
          ring = IsRing-frames _ v.ring (length-store_ref s.pool.frames j (pos 0));
          queued = cleared_queued j z;
          filling = λ i h.
              let (a, b, d) = v.filling i h in
              (
                a,
                ref_at-store_ne s.pool.frames j i (pos 0) (λ g. v.apart i h (e ∙ ap some g)) ∙ b,
                d,
              );
          draining = λ i h. cc;
          apart = λ i h g. cc;
          order = cleared_order j;
        },
      )

  keep_waiting : s.consumer ≡ none → Valid (dequeued s (null, s.pool))
  keep_waiting e = (
    w,
    r,
    record {
      ring = v.ring;
      queued = v.queued;
      filling = v.filling;
      draining = λ i h. cc;
      apart = λ i h g. cc;
      order =
          v.order
          ∙ ap (λ l. l ++ pending s.pool.frames s.pool.count r (w - r))
              (sym (append-nil s.received));
    },
  )

  taken_order :
      r < w
      → s.sent
        ≡ (s.received ++ bytes_at s.pool.frames (r % s.pool.count) ∷ [])
          ++ pending s.pool.frames s.pool.count (r + 1) (w - (r + 1))
  unfolding pending
  taken_order h =
      v.order
      ∙ ap (λ n. s.received ++ pending s.pool.frames s.pool.count r n)
          (let e : w - r ≡ suc (w - (r + 1)) = omega arith in e)
      ∙ sym (append_assoc s.received _ _)

  keep_taken :
      r < w → Valid (dequeued s (got (r % s.pool.count), record s.pool { read_idx = pos (r + 1) }))
  keep_taken h = (
    w,
    r + 1,
    record {
      ring = record {
        has_write = v.ring.has_write;
        has_read = refl;
        read_le = omega arith;
        within = omega (arith, v.ring.within);
        small = v.ring.small;
        nonempty = v.ring.nonempty;
        full_length = v.ring.full_length;
      };
      queued = λ k a b. v.queued k (omega arith) b;
      filling = λ i g. let (a, b, d) = v.filling i g in (a, b, omega arith);
      draining = λ j g. (
        subst (λ j. j < s.pool.count) (ground arith) (mod-lt r {m = s.pool.count} v.ring.nonempty),
        subst (λ j. ref_at s.pool.frames j ≡ pos 1) (ground arith) (v.queued r (omega arith) h),
        λ k a b m.
            mod-ne s.pool.count r k (omega arith) (omega (arith, v.ring.within)) (ground arith),
      );
      apart = λ i g m. let (a, b, d) = v.filling i g in mod-ne s.pool.count r w h d (ground arith);
      order = taken_order h;
    },
  )

  pub keep_dequeue : s.consumer ≡ none → Valid (dequeued s (sp_dequeue s.pool))
  keep_dequeue e = elim (sp_dequeue_lem s.pool w r v.ring) [
    | inl (a, e') ↦ subst (λ x. Valid (dequeued s x)) (sym e') (keep_waiting e)
    | inr (inl (a, b, e')) ↦ subst (λ x. Valid (dequeued s x)) (sym e') (keep_waiting e)
    | inr (inr (a, b, e')) ↦ subst (λ x. Valid (dequeued s x)) (sym e') (keep_taken a)
  ]
