-- ===== src/Pool/Alloc.antt =====
-- `bb_pool_init` and `bb_pool_destroy` of libbb/bb_pool.c: which blocks are taken and given back.
use nxp_imx95_building_block.Common.{
  ℕ, zero, suc, ◌+◌, ◌<◌, ◌≡◌, refl, sym, ap, subst, ◌∙◌, ◌≢◌, inl, inr, Bool, true, false, none,
  List, [], ◌∷◌, ◌++◌, arith, ◌==◌, if◌then◌else◌, ==_iff, Bool-cases, length, replicate,
  length-replicate, pos, negsuc,
}
use nxp_imx95_building_block.Pool.{
  Pool, Frame, Memory, heap_block, zero_frame, zero_pool, init_frames, destroy_frames, Free,
  free_block, free_frames, init, destroy,
}
use nxp_imx95_building_block.Pool.Mpsc.{IsBalanced, queued_count}
use nxp_imx95_building_block.Pool.Queue.{Stream, Valid, pending}

-- A frame as the loop of `bb_pool_init` leaves it.
abbrev pub ready : Memory → ℕ → Frame
ready block size = record zero_frame { block = block; size = size; fd = negsuc 0 }

abbrev pub ready_pool : ℕ → ℕ → Pool
ready_pool count size = record zero_pool {
  has_frames = true;
  frames = replicate count (ready heap_block size);
  count = count;
}

-- How many requests in a row are granted, from the `i`th on, among `n`.
unfoldable pub granted : (ℕ → Bool) → ℕ → ℕ → ℕ
granted grants i zero = 0
granted grants i (suc n) = if grants i then suc (granted grants (i + 1) n) else 0

-- `free` of the blocks of `n` frames from `i` on.
unfoldable pub frees : ℕ → ℕ → List Free
frees i zero = []
frees i (suc n) = free_block i ∷ frees (i + 1) n

destroy_frames-zero : (i n : ℕ) → destroy_frames i (replicate n zero_frame) ≡ []
unfolding destroy_frames
destroy_frames-zero i zero = refl
destroy_frames-zero i (suc n) = destroy_frames-zero (i + 1) n

module _ (grants : ℕ → Bool) (size : ℕ) where
  made : ℕ → ℕ → List Frame × Bool
  made i n = init_frames grants size false i n

  made_all :
      (i n : ℕ) → granted grants i n ≡ n → made i n ≡ (replicate n (ready heap_block size), true)
  unfolding made init_frames granted
  made_all i zero h = refl
  made_all i (suc n) h = elim (Bool-cases (grants i)) [
    | inl y ↦ rw (y, init_frames) (rw (made_all (i + 1) n (ground (arith, y))) refl)
    | inr f ↦ absurd (ground (arith, f))
  ]

  made_some :
      (i n : ℕ)
      → granted grants i n ≢ n
      → ((made i n).1 ≡ false) × (destroy_frames i (made i n).0 ≡ frees i (granted grants i n))
  unfolding made init_frames granted destroy_frames frees
  made_some i zero h = absurd (h refl)
  made_some i (suc n) h = elim (Bool-cases (grants i)) [
    | inl y ↦
        let (a, b) = made_some (i + 1) n (λ e. h (rw y (ap suc e))) in
        rw (y, init_frames) (a, ap (◌∷◌ (free_block i)) b)
    | inr f ↦ rw (f, init_frames) (refl, destroy_frames-zero (i + 1) n)
  ]

  -- With `malloc`ed blocks `bb_pool_init` answers 0 exactly when the array and every block are
  -- granted, and leaves `count` unreferenced frames; when a block is refused it answers -1 with a
  -- cleared pool, and has given back every block granted before, and the array; when the array is
  -- refused it answers -1 with a cleared pool.
  pub init_heap :
      (calloc_ok : Bool) (count : ℕ)
      → init calloc_ok grants count size false ≡ (
          if calloc_ok
          then if granted grants 0 count == count
            then (pos 0, ready_pool count size, [])
            else (negsuc 0, zero_pool, frees 0 (granted grants 0 count) ++ free_frames ∷ [])
          else (negsuc 0, zero_pool, []))
  unfolding init destroy made
  init_heap false count = refl
  init_heap true count = elim (Bool-cases (granted grants 0 count == count)) [
    | inl y ↦ rw (y, made_all 0 count ((==_iff _ _).0 y)) refl
    | inr f ↦ let (a, b) = made_some 0 count (λ e. ground arith) in rw (f, a, b) refl
  ]

  mapped_frames :
      (i n : ℕ)
      → ((init_frames grants size true i n).1 ≡ true)
        × (length (init_frames grants size true i n).0 ≡ n)
        × (destroy_frames i (init_frames grants size true i n).0 ≡ frees i n)
  unfolding init_frames destroy_frames frees
  mapped_frames i zero = (refl, refl, refl)
  mapped_frames i (suc n) =
      let (a, b, c) = mapped_frames (i + 1) n in
      elim (Bool-cases (grants i)) [
        | inl y ↦ rw (y, init_frames) (a, ap suc b, ap (◌∷◌ (free_block i)) c)
        | inr f ↦ rw (f, init_frames) (a, ap suc b, ap (◌∷◌ (free_block i)) c)
      ]

  -- With `mmap`ed blocks, and when `calloc` gives the array of frames, the result does not depend on
  -- which calls of `mmap` the system grants: `bb_pool_init` answers 0 with `count` frames also when
  -- blocks are refused, since it tests for NULL and `mmap` refuses with MAP_FAILED; and
  -- `bb_pool_destroy` then calls `free`, and never `munmap`, on each.
  pub init_mapped_total :
      (count : ℕ)
      → let made = init true grants count size true in
        (made.0 ≡ pos 0)
        × (length made.1.frames ≡ count)
        × ((destroy made.1).1 ≡ frees 0 count ++ free_frames ∷ [])
  unfolding init destroy
  init_mapped_total count = let (a, b, c) = mapped_frames 0 count in rw (a) (refl, b, rw c refl)

-- A pool of `count` ready frames, with nothing sent: the start of a stream.
abbrev pub fresh_stream : Pool → Stream
fresh_stream p = record { pool = p; producer = none; consumer = none; sent = []; received = [] }

queued_count-ready : (n size : ℕ) → queued_count (replicate n (ready heap_block size)) ≡ 0
queued_count-ready zero size = refl
queued_count-ready (suc n) size = omega (arith, queued_count-ready n size)

ready-Valid :
    (count size : ℕ)
    → 0 < count
    → Valid (fresh_stream (ready_pool count size)) × IsBalanced (ready_pool count size) none 0
unfolding pending
ready-Valid count size h =
    let l = length-replicate count (ready heap_block size) in
    (
      (
        0,
        0,
        record {
          ring = record {
            has_write = refl;
            has_read = refl;
            read_le = omega arith;
            within = omega arith;
            small = omega arith;
            nonempty = h;
            full_length = l;
          };
          queued = λ k a b. absurd (omega arith);
          filling = λ i e. cc;
          draining = λ i e. cc;
          apart = λ i e f. cc;
          order = refl;
        },
      ),
      record {
        full_length = l;
        has_pending = refl;
        small = omega arith;
        none_held = λ e. queued_count-ready count size;
        one_held = λ i e. cc;
      },
    )

-- What `bb_pool_init` leaves when it succeeds with at least one frame is a valid stream with nothing
-- sent, and a balanced queue with nothing pending.
pub init-Valid :
    (grants : ℕ → Bool) (count size : ℕ)
    → 0 < count
    → (init true grants count size false).0 ≡ pos 0
    → let p = (init true grants count size false).1 in Valid (fresh_stream p) × IsBalanced p none 0
unfolding init
init-Valid grants count size h e = elim (Bool-cases (granted grants 0 count == count)) [
  | inl y ↦
      let e' : init true grants count size false ≡ (pos 0, ready_pool count size, []) =
        init_heap grants size true count ∙ (rw y refl) in
      subst (λ x. Valid (fresh_stream x.1) × IsBalanced x.1 none 0) (sym e')
        (ready-Valid count size h)
  | inr f ↦
      let e' : (init true grants count size false).0 ≡ negsuc 0 =
        ap (λ x. x.0) (init_heap grants size true count) ∙ (rw f refl) in
      cc
]
