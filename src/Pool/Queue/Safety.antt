-- ===== src/Pool/Queue/Safety.antt =====
-- What the ring of libbb/bb_pool.c promises its two threads, whatever the order of their calls.
use nxp_imx95_building_block.Common.{ℕ, ◌-◌, ◌≤◌, ◌≡◌, ◌≢◌, some, List, ◌++◌, arith, length, Bytes}
use nxp_imx95_building_block.Pool.{fault, sp_acquire, sp_dequeue}
use nxp_imx95_building_block.Pool.Spsc.{sp_acquire_lem, sp_dequeue_lem}
use nxp_imx95_building_block.Pool.Queue.Content.{pending, length-pending}
use nxp_imx95_building_block.Pool.Queue.{Stream, Step, Reach, here, next, Valid}
use nxp_imx95_building_block.Pool.Queue.Keep.{keep_acquire, keep_write, keep_commit}
use nxp_imx95_building_block.Pool.Queue.Drain.{keep_drop, keep_dequeue, keep_release}

-- Every call of either thread keeps the invariant.
pub Step-Valid : {s t : Stream} → Step s t → Valid s → Valid t
Step-Valid (Step.acquire s e) (w, r, v) = keep_acquire s w r v e
Step-Valid (Step.write s i b e) (w, r, v) = keep_write s w r v i b e
Step-Valid (Step.commit s i e h) (w, r, v) = keep_commit s w r v i e h
Step-Valid (Step.drop_frame s i e) (w, r, v) = keep_drop s w r v i e
Step-Valid (Step.dequeue s e) (w, r, v) = keep_dequeue s w r v e
Step-Valid (Step.release s j e) (w, r, v) = keep_release s w r v j e

pub Reach-Valid : {s t : Stream} → Valid s → Reach s t → Valid t
Reach-Valid v here = v
Reach-Valid v (next q st) = Step-Valid st (Reach-Valid v q)

-- In every state that calls of the two threads reach from a valid one, each commit with `write_idx`
-- below INT_MAX, the producer and the consumer never hold the same frame.
pub never_shared :
    {s t : Stream} → Valid s → Reach s t → (i : ℕ) → t.producer ≡ some i → t.consumer ≢ some i
never_shared v q i = let (w, r, u) = Reach-Valid v q in u.apart i

-- In every state that calls of the two threads reach from a valid one, each commit with `write_idx`
-- below INT_MAX, the blocks received are the blocks committed, in order and unchanged, up to those
-- still in the ring; of these there are at most `count`.
pub received_in_order :
    {s t : Stream}
    → Valid s
    → Reach s t
    → (rest : List Bytes) × (t.sent ≡ t.received ++ rest) × (length rest ≤ t.pool.count)
received_in_order {t = t} v q =
    let (w, r, u) = Reach-Valid v q in
    (
      pending t.pool.frames t.pool.count r (w - r),
      u.order,
      omega (arith, length-pending t.pool.frames t.pool.count r (w - r), u.ring.within),
    )

-- In every state that calls of the two threads reach from a valid one, each commit with `write_idx`
-- below INT_MAX, `bb_pool_sp_acquire` and `bb_pool_sp_dequeue` stay inside the array of frames and the
-- range of `int`: they hand out a frame or answer NULL. A commit at INT_MAX, which the code does not
-- prevent, is not covered.
pub never_faults :
    {s t : Stream}
    → Valid s
    → Reach s t
    → ((sp_acquire t.pool).0 ≢ fault) × ((sp_dequeue t.pool).0 ≢ fault)
never_faults {t = t} v q =
    let (w, r, u) = Reach-Valid v q in
    let a = sp_acquire_lem t.pool w r u.ring in
    let b = sp_dequeue_lem t.pool w r u.ring in (λ e. ground arith, λ e. ground arith)
