-- ===== src/Pool/Queue.antt =====
-- The ring of libbb/bb_pool.c in use: the calls of one producer thread and one consumer thread in
-- any order, with the frame that each holds, as middleware/bb_audio_stream.c makes them.
mod Content
mod Keep
mod Drain
pub mod Safety
use native.Mathlib.Nat.{mod-lt}
use nxp_imx95_building_block.Common.{
  ℕ, zero, suc, ◌+◌, ◌-◌, ◌*◌, ◌/◌, ◌%◌, ◌^◌, ◌≤◌, ◌<◌, min, ◌≡◌, refl, sym, ap, ap₂, subst, ◌∙◌,
  ◌≢◌, ◌↔◌, ◌⊎◌, inl, inr, Bool, true, false, not, ◌&&◌, ◌||◌, Option, none, some, List, [], ◌∷◌,
  ◌++◌, map, append-nil, append_assoc, arith, ltb, leb, ◌==◌, if◌then◌else◌, ltb→lt, lt→ltb,
  le→not_ltb, leb→le, le→leb, ==_iff, ==_self, ==_ne, tests, Bool-cases, Option-cases, length,
  get_elem?, get_or, set, take, drop, replicate, length-append, length-set, get_elem?-set_self,
  get_elem?-set_ne, get_elem?_lt, get_elem?_ge, lt_of_get_elem?, take-append-drop, length-take,
  length-drop, take_all, drop_all, take-append_length, drop-append_length, length-replicate,
  length-map, Bytes, codes, str_eq, starts_with, str_eq_refl, str_eq→eq, str_eq_ne,
  starts_with-append, all, ℤ, pos, negsuc, pos_part, neg_part, ltb_ℤ, leb_ℤ, eq_ℤ, sub_ℕ, ◌+ℤ◌,
  ◌-ℤ◌, int_max, fetch_inc, fetch_dec, fetch_inc_lt, fetch_dec_pos,
}
use nxp_imx95_building_block.Pool.{
  Pool, Frame, Reply, got, null, fault, blocked, store_ref, sp_acquire, sp_commit, sp_dequeue,
  sp_release,
}
use nxp_imx95_building_block.Pool.Find.{ref_at}
use nxp_imx95_building_block.Pool.Spsc.{IsRing}
unfoldable pub use Content.*

-- The pool, the frame that the producer fills and the one that the consumer reads, and the blocks
-- committed and received so far.
pub record Stream : Type 0 where
  pub pool : Pool
  pub producer : Option ℕ
  pub consumer : Option ℕ
  pub sent : List Bytes
  pub received : List Bytes

-- The frame that a reply hands out.
abbrev pub held : Reply → Option ℕ
held (got i) = some i
held null = none
held fault = none
held blocked = none

abbrev pub received_bytes : List Frame → Reply → List Bytes
received_bytes fs (got i) = bytes_at fs i ∷ []
received_bytes fs null = []
received_bytes fs fault = []
received_bytes fs blocked = []

abbrev pub acquired : Stream → Reply × Pool → Stream
acquired s a = record s { pool = a.1; producer = held a.0 }

abbrev pub filled : Stream → ℕ → Bytes → Stream
filled s i b = record s { pool = record s.pool { frames = fill s.pool.frames i b } }

abbrev pub committed : Stream → ℕ → Stream
committed s i = record s {
  pool = sp_commit s.pool;
  producer = none;
  sent = s.sent ++ bytes_at s.pool.frames i ∷ [];
}

abbrev pub dropped : Stream → ℕ → Stream
dropped s i = record s { pool = sp_release s.pool i; producer = none }

abbrev pub dequeued : Stream → Reply × Pool → Stream
dequeued s a = record s {
  pool = a.1;
  consumer = held a.0;
  received = s.received ++ received_bytes s.pool.frames a.0;
}

abbrev pub released : Stream → ℕ → Stream
released s j = record s { pool = sp_release s.pool j; consumer = none }

-- One call of a thread. A commit is a step only while `write_idx` is below INT_MAX.
pub data Step : Stream → Stream → Type 0 where
  acquire : (s : Stream) → s.producer ≡ none → Step s (acquired s (sp_acquire s.pool))
  write : (s : Stream) (i : ℕ) (b : Bytes) → s.producer ≡ some i → Step s (filled s i b)
  commit :
      (s : Stream) (i : ℕ)
      → s.producer ≡ some i
      → ltb_ℤ s.pool.write_idx (pos int_max) ≡ true
      → Step s (committed s i)
  drop_frame : (s : Stream) (i : ℕ) → s.producer ≡ some i → Step s (dropped s i)
  dequeue : (s : Stream) → s.consumer ≡ none → Step s (dequeued s (sp_dequeue s.pool))
  release : (s : Stream) (j : ℕ) → s.consumer ≡ some j → Step s (released s j)

pub data Reach (s : Stream) : Stream → Type 0 where
  here : Reach s s
  next : {t u : Stream} → Reach s t → Step t u → Reach s u

-- What holds between any two calls, with `w` frames committed and `r` taken.
pub record IsStream (s : Stream) (w r : ℕ) : Type 0 where
  pub ring : IsRing s.pool w r
  pub queued : (k : ℕ) → r ≤ k → k < w → ref_at s.pool.frames (k % s.pool.count) ≡ pos 1
  pub filling :
      (i : ℕ)
      → s.producer ≡ some i
      → (i ≡ w % s.pool.count) × (ref_at s.pool.frames i ≡ pos 1) × (w < r + s.pool.count)
  pub draining :
      (j : ℕ)
      → s.consumer ≡ some j
      → (j < s.pool.count)
        × (ref_at s.pool.frames j ≡ pos 1)
        × ((k : ℕ) → r ≤ k → k < w → k % s.pool.count ≢ j)
  pub apart : (i : ℕ) → s.producer ≡ some i → s.consumer ≢ some i
  pub order : s.sent ≡ s.received ++ pending s.pool.frames s.pool.count r (w - r)

-- A stream that some counters describe.
abbrev pub Valid : Stream → Type 0
Valid s = (w : ℕ) × (r : ℕ) × IsStream s w r
