-- ===== src/Pool.antt =====
-- libbb/bb_pool.c and libbb/bb_pool.h: the frame pool with its single-producer ring and its
-- mutex-protected multi-producer queue. A pointer to a frame is the frame's index in `frames`.
-- Every function below is one step on the pool; a function that hands out a frame replies first.
pub mod Find
pub mod Slots
pub mod Spsc
pub mod Queue
pub mod Mpsc
pub mod Balance
pub mod Serve
pub mod Order
pub mod Alloc
mod Tests
use nxp_imx95_building_block.Common.{
  ℕ, zero, suc, ◌+◌, ◌%◌, Bool, true, false, Option, none, some, List, [], ◌∷◌, ◌++◌, Bytes, ℤ, pos,
  negsuc, get_elem?, set, replicate, leb_ℤ, ltb_ℤ, eq_ℤ, ◌-ℤ◌, fetch_inc, fetch_dec, if◌then◌else◌,
  leb, int_max, ◌==◌,
}

-- What a frame's `data` points to.
pub data Memory : Type 0 where
  null_block heap_block mapped map_failed : Memory

-- `bb_frame_t`; `bytes` is what the block holds.
pub record Frame : Type 0 where
  pub block : Memory
  pub bytes : Bytes
  pub size : ℕ
  pub fd : ℤ
  pub refcount : ℤ
  pub pts : ℕ
  pub frame_num : ℕ
  pub fourcc : ℤ

-- `bb_frame_pool_t`. The mutex and the condition variable serialise the functions, each of which is
-- one step here; `has_frames` is `frames != NULL`.
pub record Pool : Type 0 where
  pub has_frames : Bool
  pub frames : List Frame
  pub count : ℕ
  pub write_idx : ℤ
  pub read_idx : ℤ
  pub mp_pending : ℤ

-- What a function that returns `bb_frame_t *` does: a frame, NULL, an access outside `frames`, or a
-- wait on the condition variable.
pub data Reply : Type 0 where
  got : ℕ → Reply
  null fault blocked : Reply

-- A frame as `calloc` leaves it.
abbrev pub zero_frame : Frame
zero_frame = record {
  block = null_block;
  bytes = [];
  size = 0;
  fd = pos 0;
  refcount = pos 0;
  pts = 0;
  frame_num = 0;
  fourcc = pos 0;
}

abbrev pub zero_pool : Pool
zero_pool = record {
  has_frames = false;
  frames = [];
  count = 0;
  write_idx = pos 0;
  read_idx = pos 0;
  mp_pending = pos 0;
}

-- What `mmap` and `malloc` return for a request that the system grants or refuses.
unfoldable pub request : Bool → Bool → Memory
request true granted = if granted then mapped else map_failed
request false granted = if granted then heap_block else null_block

-- `!f->data`
abbrev pub is_null : Memory → Bool
is_null null_block = true
is_null heap_block = false
is_null mapped = false
is_null map_failed = false

-- The loop of `bb_pool_init` from frame `i` on, with `n` rounds left: the frames, and whether every
-- round was run. `grants i` says whether the system grants the block of frame `i`.
unfoldable pub init_frames : (ℕ → Bool) → ℕ → Bool → ℕ → ℕ → List Frame × Bool
unfolding request
init_frames grants frame_size use_dmabuf i zero = ([], true)
init_frames grants frame_size use_dmabuf i (suc n) =
    let block = request use_dmabuf (grants i) in
    let frame = record zero_frame { block = block; size = frame_size; fd = negsuc 0 } in
    let rest = init_frames grants frame_size use_dmabuf (i + 1) n in
    if is_null block then (frame ∷ replicate n zero_frame, false) else (frame ∷ rest.0, rest.1)

-- The calls that `bb_pool_destroy` makes to give memory back.
pub data Free : Type 0 where
  unmap_and_close free_block : ℕ → Free
  free_frames : Free

-- The loop of `bb_pool_destroy` from frame `i` on.
unfoldable pub destroy_frames : ℕ → List Frame → List Free
destroy_frames i [] = []
destroy_frames i (f ∷ fs) =
    let rest = destroy_frames (i + 1) fs in
    if is_null f.block
    then rest
    else if leb_ℤ (pos 0) f.fd
    then unmap_and_close i ∷ rest
    else free_block i ∷ rest

-- `bb_pool_destroy`: the pool is cleared, and the blocks are given back.
unfoldable pub destroy : Pool → Pool × List Free
unfolding destroy_frames
destroy p =
    if p.has_frames then (zero_pool, destroy_frames 0 p.frames ++ (free_frames ∷ [])) else (p, [])

-- `bb_pool_init`: its result, the pool and the blocks that it gave back. `calloc_ok` says whether
-- the array of frames was allocated.
unfoldable pub init : Bool → (ℕ → Bool) → ℕ → ℕ → Bool → ℤ × Pool × List Free
unfolding init_frames destroy
init calloc_ok grants count frame_size use_dmabuf =
    let made = init_frames grants frame_size use_dmabuf 0 count in
    let p = record zero_pool { has_frames = true; frames = made.0; count = count } in
    let cleared = destroy p in
    if calloc_ok
    then (if made.1 then (pos 0, p, []) else (negsuc 0, cleared.0, cleared.1))
    else (negsuc 0, zero_pool, [])

-- `&p->frames[x % p->count]` for an `int` x: C's remainder takes the sign of x, so a negative x
-- points before the array unless `count` divides it. `none` is an access that C does not define.
unfoldable pub slot : ℤ → ℕ → Option ℕ
slot (pos n) count = if count == 0 then none else some (n % count)
slot (negsuc n) count = if count == 0 then none else if suc n % count == 0 then some 0 else none

-- Store through `&p->frames[i].refcount`.
abbrev pub store_ref : List Frame → ℕ → ℤ → List Frame
store_ref [] i v = []
store_ref (f ∷ fs) zero v = record f { refcount = v } ∷ fs
store_ref (f ∷ fs) (suc i) v = f ∷ store_ref fs i v

-- `atomic_compare_exchange_strong(&f->refcount, 0, 1)` on the frame at a computed index.
unfoldable pub claim : Pool → Option ℕ → Reply × Pool
claim p none = (fault, p)
claim p (some i) = elim (get_elem? p.frames i) [
  | none ↦ (fault, p)
  | some f ↦
      if eq_ℤ f.refcount (pos 0)
      then (got i, record p { frames = store_ref p.frames i (pos 1) })
      else (null, p)
]

-- Whether a result lies in the range of `int`; C does not define a subtraction that leaves it.
abbrev pub fits_int : ℤ → Bool
fits_int (pos n) = leb n int_max
fits_int (negsuc n) = leb n int_max

-- `bb_pool_sp_acquire`
unfoldable pub sp_acquire : Pool → Reply × Pool
unfolding claim slot
sp_acquire p =
    if fits_int (p.write_idx -ℤ p.read_idx)
    then if leb_ℤ (pos p.count) (p.write_idx -ℤ p.read_idx)
      then (null, p)
      else claim p (slot p.write_idx p.count)
    else (fault, p)

-- `bb_pool_sp_commit`
unfoldable pub sp_commit : Pool → Pool
sp_commit p = record p { write_idx = fetch_inc p.write_idx }

-- The second half of `bb_pool_sp_dequeue`, at a computed index.
unfoldable pub take_slot : Pool → Option ℕ → Reply × Pool
take_slot p none = (fault, p)
take_slot p (some i) = elim (get_elem? p.frames i) [
  | none ↦ (fault, p)
  | some f ↦
      if ltb_ℤ f.refcount (pos 1)
      then (null, p)
      else (got i, record p { read_idx = fetch_inc p.read_idx })
]

-- `bb_pool_sp_dequeue`
unfoldable pub sp_dequeue : Pool → Reply × Pool
unfolding take_slot slot
sp_dequeue p =
    if leb_ℤ p.write_idx p.read_idx then (null, p) else take_slot p (slot p.read_idx p.count)

-- `bb_pool_sp_release`
unfoldable pub sp_release : Pool → ℕ → Pool
sp_release p i = record p { frames = store_ref p.frames i (pos 0) }

-- The loops of `bb_pool_mp_acquire` and `bb_pool_mp_dequeue`: the first frame from index `i` on,
-- within `n` rounds, whose reference count passes the test.
unfoldable pub find : (ℤ → Bool) → List Frame → ℕ → ℕ → Reply
find test frames zero i = null
find test frames (suc n) i =
    let rest = find test frames n (i + 1) in
    elim (get_elem? frames i) [ none ↦ fault | some f ↦ if test f.refcount then got i else rest ]

abbrev pub is_free : ℤ → Bool
is_free r = eq_ℤ r (pos 0)

abbrev pub is_queued : ℤ → Bool
is_queued r = leb_ℤ (pos 2) r

-- `bb_pool_mp_acquire`
unfoldable pub mp_acquire : Pool → Reply × Pool
mp_acquire p = elim (find is_free p.frames p.count 0) [
  | got i ↦ (got i, record p { frames = store_ref p.frames i (pos 1) })
  | r ↦ (r, p)
]

-- `atomic_fetch_add(&f->refcount, 1)` and `atomic_fetch_sub(&f->refcount, 1)`: `bb_frame_ref` and
-- `bb_frame_unref`, which `bb_pool_mp_enqueue` also makes.
unfoldable pub add_ref : (ℤ → ℤ) → List Frame → ℕ → List Frame
add_ref f [] i = []
add_ref f (x ∷ xs) zero = record x { refcount = f x.refcount } ∷ xs
add_ref f (x ∷ xs) (suc i) = x ∷ add_ref f xs i

unfoldable pub frame_ref : Pool → ℕ → Pool
unfolding add_ref
frame_ref p i = record p { frames = add_ref fetch_inc p.frames i }

unfoldable pub frame_unref : Pool → ℕ → Pool
unfolding add_ref
frame_unref p i = record p { frames = add_ref fetch_dec p.frames i }

-- `bb_pool_mp_enqueue`
unfoldable pub mp_enqueue : Pool → ℕ → Pool
unfolding frame_ref
mp_enqueue p i = record (frame_ref p i) { mp_pending = fetch_inc p.mp_pending }

-- `bb_pool_mp_dequeue`: it waits while `mp_pending` is 0.
unfoldable pub mp_dequeue : Pool → Reply × Pool
mp_dequeue p =
    if eq_ℤ p.mp_pending (pos 0)
    then (blocked, p)
    else (find is_queued p.frames p.count 0, record p { mp_pending = fetch_dec p.mp_pending })

-- `bb_pool_mp_release`
unfoldable pub mp_release : Pool → ℕ → Pool
mp_release p i = record p { frames = store_ref p.frames i (pos 0) }
