-- ===== src/Pool/Serve.antt =====
-- The mutex-protected queue of libbb/bb_pool.c under calls in any order: several producers claim and
-- queue frames, one consumer takes and returns them.
use nxp_imx95_building_block.Common.{ℕ, ◌+◌, ◌-◌, ◌<◌, ◌≡◌, Option, none, some, pos, int_max}
use nxp_imx95_building_block.Pool.{Pool, mp_acquire, mp_enqueue, mp_dequeue, mp_release}
use nxp_imx95_building_block.Pool.Find.{ref_at}
use nxp_imx95_building_block.Pool.Mpsc.{IsBalanced}
use nxp_imx95_building_block.Pool.Balance.{
  taken, mp_acquire-IsBalanced, mp_enqueue-IsBalanced, mp_dequeue-IsBalanced, mp_release-IsBalanced,
}

-- What a pool can become, with the frame that the consumer holds and the number of frames that wait:
-- a producer queues a frame that it has claimed, and the consumer takes one when it holds none.
pub data Serve (q : Pool) : Pool → Option ℕ → ℕ → Type 0 where
  begin : Serve q q none 0
  acquire :
      (p : Pool) (held : Option ℕ) (n : ℕ) → Serve q p held n → Serve q (mp_acquire p).1 held n
  enqueue :
      (p : Pool) (held : Option ℕ) (n i : ℕ)
      → Serve q p held n
      → i < p.count
      → ref_at p.frames i ≡ pos 1
      → n + 1 < int_max
      → Serve q (mp_enqueue p i) held (n + 1)
  dequeue :
      (p : Pool) (n : ℕ)
      → Serve q p none n
      → Serve q (mp_dequeue p).1 (taken (mp_dequeue p).0) (n - 1)
  release : (p : Pool) (n i : ℕ) → Serve q p (some i) n → Serve q (mp_release p i) none n

-- After any calls in which a producer queues only a frame of the pool with the reference count 1, the
-- consumer takes a frame only while it holds none, and returns only the frame that it holds,
-- `mp_pending` is the number of frames that wait, and the frames with a reference count above 1 are as
-- many, and one more while the consumer holds a frame, which is one of them; when no frame is queued at
-- first and fewer than INT_MAX frames wait at a time. A consumer that takes a frame before it has
-- returned the last one is not covered.
pub Serve-IsBalanced :
    (q p : Pool) (held : Option ℕ) (n : ℕ)
    → IsBalanced q none 0
    → Serve q p held n
    → IsBalanced p held n
Serve-IsBalanced q p held n b begin = b
Serve-IsBalanced q p held n b (acquire o h m r) =
    mp_acquire-IsBalanced o h m (Serve-IsBalanced q o h m b r)
Serve-IsBalanced q p held n b (enqueue o h m i r l one room) =
    mp_enqueue-IsBalanced o h m i (Serve-IsBalanced q o h m b r) l one room
Serve-IsBalanced q p held n b (dequeue o m r) =
    mp_dequeue-IsBalanced o m (Serve-IsBalanced q o none m b r)
Serve-IsBalanced q p held n b (release o m i r) =
    mp_release-IsBalanced o m i (Serve-IsBalanced q o (some i) m b r)
