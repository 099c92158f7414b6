-- ===== src/Pool/Mpsc.antt =====
-- The mutex-protected queue of libbb/bb_pool.c: `mp_pending` against the frames that are queued.
use nxp_imx95_building_block.Common.{
  ℕ, zero, suc, ◌+◌, ◌<◌, ◌≡◌, refl, ◌⊎◌, inl, inr, true, false, Option, none, some, List, [], ◌∷◌,
  arith, if◌then◌else◌, Bool-cases, length, ℤ, pos, eq_ℤ, int_max, fetch_dec,
}
use nxp_imx95_building_block.Pool.{
  Pool, Frame, Reply, got, null, fault, blocked, store_ref, find, is_free, is_queued, mp_acquire,
  mp_dequeue,
}
use nxp_imx95_building_block.Pool.Find.{ref_at, Scanned, find-Scanned}

-- 1 for a frame that waits in the queue or is held by the consumer.
abbrev pub weight : ℤ → ℕ
weight x = if is_queued x then 1 else 0

-- The number of frames with two references or more.
abbrev pub queued_count : List Frame → ℕ
queued_count [] = 0
queued_count (f ∷ fs) = weight f.refcount + queued_count fs

pub queued_count-store :
    (fs : List Frame) (i : ℕ) (v : ℤ)
    → i < length fs
    → queued_count (store_ref fs i v) + weight (ref_at fs i) ≡ queued_count fs + weight v
queued_count-store [] i v h = elim h [ ]
queued_count-store (f ∷ fs) zero v h = omega arith
queued_count-store (f ∷ fs) (suc i) v h = omega (arith, queued_count-store fs i v (omega arith))

pub queued_count_zero :
    (fs : List Frame)
    → ((k : ℕ) → k < length fs → is_queued (ref_at fs k) ≡ false)
    → queued_count fs ≡ 0
queued_count_zero [] h = refl
queued_count_zero (f ∷ fs) h =
    let e = h 0 (omega arith) in
    ground (arith, e, queued_count_zero fs (λ k l. h (suc k) (omega arith)))

-- Between `bb_pool_init` and the overflow of `mp_pending`: it counts the queued frames, less the one
-- that the consumer holds.
pub record IsBalanced (p : Pool) (held : Option ℕ) (n : ℕ) : Type 0 where
  pub full_length : length p.frames ≡ p.count
  pub has_pending : p.mp_pending ≡ pos n
  pub small : n < int_max
  pub none_held : held ≡ none → queued_count p.frames ≡ n
  pub one_held :
      (i : ℕ)
      → held ≡ some i
      → (queued_count p.frames ≡ n + 1) × (i < p.count) × (is_queued (ref_at p.frames i) ≡ true)

-- The pool after a claim of frame `i`.
abbrev stored : Pool → ℕ → ℤ → Pool
stored p i v = record p { frames = store_ref p.frames i v }

-- The two ways in which `bb_pool_mp_acquire` ends.
abbrev pub Claims : Pool → Reply × Pool → Type 0
Claims p a =
    (((k : ℕ) → k < p.count → is_free (ref_at p.frames k) ≡ false) × (a ≡ (null, p)))
    ⊎ ((i : ℕ) × (i < p.count)
        × (is_free (ref_at p.frames i) ≡ true)
        × ((k : ℕ) → k < i → is_free (ref_at p.frames k) ≡ false)
        × (a ≡ (got i, record p { frames = store_ref p.frames i (pos 1) })))

Claims-from :
    (p : Pool) (x : Reply)
    → Scanned is_free p.frames p.count 0 x
    → x ≡ find is_free p.frames p.count 0
    → Claims p (mp_acquire p)
unfolding mp_acquire
Claims-from p (got i) s e =
    inr (i, omega (arith, s.1), s.2, λ k l. s.3 k (omega arith) l, rw (← e, mp_acquire) refl)
Claims-from p null s e = inl (λ k l. s k (omega arith) (omega arith), rw (← e, mp_acquire) refl)
Claims-from p fault s e = absurd s
Claims-from p blocked s e = absurd s

-- When every frame of the array is there, `bb_pool_mp_acquire` answers NULL and changes nothing
-- exactly when no frame is free; otherwise it hands out the first free frame, whose count becomes 1.
pub mp_acquire_lem : (p : Pool) → length p.frames ≡ p.count → Claims p (mp_acquire p)
mp_acquire_lem p h = Claims-from p _ (find-Scanned is_free p.frames p.count 0 (omega arith)) refl

-- The two ways in which `bb_pool_mp_dequeue` goes on when it need not wait.
abbrev pub Takes : Pool → Reply × Pool → Type 0
Takes p a =
    (i : ℕ) × (i < p.count)
    × (is_queued (ref_at p.frames i) ≡ true)
    × ((k : ℕ) → k < i → is_queued (ref_at p.frames k) ≡ false)
    × (a ≡ (got i, record p { mp_pending = fetch_dec p.mp_pending }))

Takes-from :
    (p : Pool) (x : Reply)
    → eq_ℤ p.mp_pending (pos 0) ≡ false
    → 0 < queued_count p.frames
    → length p.frames ≡ p.count
    → Scanned is_queued p.frames p.count 0 x
    → x ≡ find is_queued p.frames p.count 0
    → Takes p (mp_dequeue p)
unfolding mp_dequeue
Takes-from p (got i) n c l s e =
    (i, omega (arith, s.1), s.2, λ k l. s.3 k (omega arith) l, rw (n, ← e) refl)
Takes-from p null n c l s e =
    absurd (omega (arith, queued_count_zero p.frames (λ k h. s k (omega arith) (omega arith))))
Takes-from p fault n c l s e = absurd s
Takes-from p blocked n c l s e = absurd s

-- While the consumer holds no frame, `bb_pool_mp_dequeue` waits exactly when no frame is queued, and
-- otherwise hands out the queued frame of lowest index, never NULL.
pub mp_dequeue_lem :
    (p : Pool) (n : ℕ)
    → IsBalanced p none n
    → ((queued_count p.frames ≡ 0) × (mp_dequeue p ≡ (blocked, p)))
      ⊎ ((0 < queued_count p.frames) × Takes p (mp_dequeue p))
unfolding mp_dequeue
mp_dequeue_lem p n v =
    let e = v.none_held refl in
    elim (Bool-cases (eq_ℤ p.mp_pending (pos 0))) [
      | inl y ↦ inl (ground (arith, e, v.has_pending), rw (y, mp_dequeue) refl)
      | inr f ↦
          let q : 0 < queued_count p.frames = ground (arith, e, v.has_pending) in
          inr (
            q,
            Takes-from p _ f q v.full_length
                (find-Scanned is_queued p.frames p.count 0 (omega (arith, v.full_length))) refl,
          )
    ]
