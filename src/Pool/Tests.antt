-- ===== src/Pool/Tests.antt =====
-- Tests of the model of libbb/bb_pool.c, and its theorems at concrete pools.
use nxp_imx95_building_block.Common.{
  ℕ, ◌+◌, ◌-◌, ◌≤◌, ◌<◌, ◌≡◌, refl, subst, ◌≢◌, Bool, true, false, Option, none, some, List, [],
  ◌∷◌, ◌++◌, arith, ltb, length, Bytes, pos, negsuc, ◌-ℤ◌, int_max, fetch_inc,
}
use nxp_imx95_building_block.Pool.{
  Pool, got, fault, zero_pool, init, destroy, free_block, free_frames, sp_acquire, sp_commit,
  sp_dequeue, mp_enqueue, mp_dequeue, store_ref, is_queued,
}
use nxp_imx95_building_block.Pool.Find.{ref_at}
use nxp_imx95_building_block.Pool.Spsc.{IsRing}
use nxp_imx95_building_block.Pool.Queue.{Step, Reach, here, next, Valid, acquired}
use nxp_imx95_building_block.Pool.Queue.Safety.{never_shared, received_in_order, never_faults}
use nxp_imx95_building_block.Pool.Mpsc.{IsBalanced, queued_count}
use nxp_imx95_building_block.Pool.Balance.{taken}
use nxp_imx95_building_block.Pool.Serve.{Serve, begin, enqueue, dequeue, Serve-IsBalanced}
use nxp_imx95_building_block.Pool.Order.{mp_dequeue_overtakes}
use nxp_imx95_building_block.Pool.Alloc.{
  ready_pool, granted, frees, fresh_stream, init_heap, init_mapped_total, init-Valid,
}

abbrev always : ℕ → Bool
always i = true

abbrev two_granted : ℕ → Bool
two_granted i = ltb i 2

-- Three frames of eight bytes.
abbrev three : Pool
three = ready_pool 3 8

-- The same with frames 0 and 2 held by producers.
abbrev held_pool : Pool
held_pool = record three { frames = store_ref (store_ref three.frames 0 (pos 1)) 2 (pos 1) }

-- Frame 1 is queued.
abbrev queued_pool : Pool
queued_pool = record three { frames = store_ref three.frames 1 (pos 2); mp_pending = pos 1 }

-- Frame 1 is queued, and the consumer holds frame 2.
abbrev draining_pool : Pool
draining_pool = record queued_pool { frames = store_ref queued_pool.frames 2 (pos 2) }

abbrev twice_pool : Pool
twice_pool = record draining_pool { mp_pending = pos 2 }

three-IsRing : IsRing three 0 0
three-IsRing = record {
  has_write = refl;
  has_read = refl;
  read_le = omega arith;
  within = omega arith;
  small = omega arith;
  nonempty = omega arith;
  full_length = refl;
}

balanced :
    (p : Pool) (n : ℕ)
    → length p.frames ≡ p.count
    → p.mp_pending ≡ pos n
    → n < int_max
    → queued_count p.frames ≡ n
    → IsBalanced p none n
balanced p n a b c d = record {
  full_length = a;
  has_pending = b;
  small = c;
  none_held = λ e. d;
  one_held = λ i e. cc;
}

held-IsBalanced : IsBalanced held_pool none 0
held-IsBalanced = balanced held_pool 0 refl refl (omega arith) refl

queued-IsBalanced : IsBalanced queued_pool none 1
queued-IsBalanced = balanced queued_pool 1 refl refl (omega arith) refl

twice-IsBalanced : IsBalanced twice_pool none 2
twice-IsBalanced = balanced twice_pool 2 refl refl (omega arith) refl

draining-IsBalanced : IsBalanced draining_pool (some 2) 1
draining-IsBalanced = record {
  full_length = refl;
  has_pending = refl;
  small = omega arith;
  none_held = λ e. cc;
  one_held = λ i e.
      let g : ◌≡◌ {A = ℕ} 2 i = ground arith in
      (refl, omega arith, subst (λ i. is_queued (ref_at draining_pool.frames i) ≡ true) g refl);
}

init-three : init true always 3 8 false ≡ (pos 0, three, [])
unfolding init
init-three = refl

init_refused :
    init true two_granted 3 8 false
    ≡ (negsuc 0, zero_pool, free_block 0 ∷ free_block 1 ∷ free_frames ∷ [])
unfolding init
init_refused = refl

acquire_then_dequeue : (sp_dequeue (sp_commit (sp_acquire three).1)).0 ≡ got 0
unfolding sp_acquire sp_commit sp_dequeue fetch_inc ◌-ℤ◌
acquire_then_dequeue = refl

three-Valid : Valid (fresh_stream three)
unfolding init
three-Valid = (init-Valid always 3 8 (omega arith) refl).0

-- The producer has acquired frame 0.
one_step : Reach (fresh_stream three) (acquired (fresh_stream three) (sp_acquire three))
one_step = next here (Step.acquire (fresh_stream three) refl)

received_in_order_example :
    (rest : List Bytes) × (◌≡◌ {A = List Bytes} [] ([] ++ rest)) × (length rest ≤ 3)
unfolding sp_acquire ◌-ℤ◌
received_in_order_example = received_in_order three-Valid one_step

never_shared_example : ◌≢◌ {A = Option ℕ} none (some 0)
unfolding sp_acquire ◌-ℤ◌
never_shared_example = never_shared three-Valid one_step 0 refl

never_faults_example :
    ((sp_acquire (sp_acquire three).1).0 ≢ fault) × ((sp_dequeue (sp_acquire three).1).0 ≢ fault)
never_faults_example = never_faults three-Valid one_step

-- Frame 2 is queued and taken.
served :
    Serve held_pool
      (mp_dequeue (mp_enqueue held_pool 2)).1
      (taken (mp_dequeue (mp_enqueue held_pool 2)).0)
      (0 + 1 - 1)
served =
    dequeue (mp_enqueue held_pool 2) 1
      (enqueue held_pool none 0 2 begin (omega arith) refl (omega arith))

Serve-IsBalanced_example :
    IsBalanced
      (mp_dequeue (mp_enqueue held_pool 2)).1
      (taken (mp_dequeue (mp_enqueue held_pool 2)).0)
      (0 + 1 - 1)
Serve-IsBalanced_example =
    Serve-IsBalanced held_pool (mp_dequeue (mp_enqueue held_pool 2)).1
      (taken (mp_dequeue (mp_enqueue held_pool 2)).0) (0 + 1 - 1) held-IsBalanced served

mp_dequeue_overtakes_example : (mp_dequeue (mp_enqueue (mp_enqueue held_pool 2) 0)).0 ≡ got 0
mp_dequeue_overtakes_example =
    mp_dequeue_overtakes held_pool 0 2 held-IsBalanced (omega arith) (omega arith) refl refl

init_heap_example :
    init true two_granted 3 8 false
    ≡ (negsuc 0, zero_pool, free_block 0 ∷ free_block 1 ∷ free_frames ∷ [])
unfolding granted frees
init_heap_example = init_heap two_granted 8 true 3

init_mapped_total_example :
    let made = init true two_granted 3 8 true in
    (made.0 ≡ pos 0)
    × (length made.1.frames ≡ 3)
    × ((destroy made.1).1 ≡ frees 0 3 ++ free_frames ∷ [])
init_mapped_total_example = init_mapped_total two_granted 8 3
