-- ===== src/Block/Led/Blink.antt =====
-- blocks/bb-led/main.c: the thread that blinks.

use nxp_imx95_building_block.Block.Led.{BlinkState, Checks, LedBlock, turn_on, turn_off, blink_loop}
use nxp_imx95_building_block.Block.Driver.{LedAct}
use nxp_imx95_building_block.Common.{
  ℕ, zero, suc, ◌+◌, ◌<◌, ◌≡◌, refl, sym, ap, ◌∙◌, true, false, ◌||◌, some, List, [], ◌∷◌, ◌++◌,
  arith, length, All, pos, ltb_ℤ, eq_ℤ,
}

-- So many times on and off.
abbrev pub repeat_blinks : LedBlock → BlinkState → ℕ → List LedAct
repeat_blinks b st zero = []
repeat_blinks b st (suc n) = turn_on b st ++ (turn_off b st ++ repeat_blinks b st n)

abbrev IsUndisturbed : Checks → Type 0
IsUndisturbed k = (k.at_start ≡ true) × (k.after_on ≡ true) × (k.after_off ≡ true)

blinks_from :
    (b : LedBlock) (st : BlinkState) (n done : ℕ) (ks : List Checks)
    → st.blink_count ≡ pos (done + n)
    → 0 < done + n
    → All IsUndisturbed ks
    → n < length ks
    → blink_loop b st done ks ≡ (repeat_blinks b st n, some (done + n))
unfolding blink_loop
blinks_from b st n done [] e p h k = absurd (omega arith)
blinks_from b st zero done (c ∷ ks) e p h k =
    let f : (eq_ℤ st.blink_count (pos 0) || ltb_ℤ (pos done) st.blink_count) ≡ false =
      rw e (ground arith) in
    let s : done + 0 ≡ done = omega arith in rw (h.0.0, f, s) refl
blinks_from b st (suc n) done (c ∷ ks) e p h k =
    let f : (eq_ℤ st.blink_count (pos 0) || ltb_ℤ (pos done) st.blink_count) ≡ true =
      rw e (ground arith) in
    let s : done + suc n ≡ done + 1 + n = omega arith in
    rw
      (
        h.0.0,
        f,
        h.0.1,
        h.0.2,
        blinks_from b st n (done + 1) ks (e ∙ ap pos s) (omega arith) h.1 (omega arith),
        s,
      )
      refl

-- With a count above 0 and no command in between, the thread turns the LED on and off exactly that
-- many times, in turns, and ends with that number of cycles.
pub blink_loop_lem :
    (b : LedBlock) (st : BlinkState) (n : ℕ) (ks : List Checks)
    → st.blink_count ≡ pos n
    → 0 < n
    → All IsUndisturbed ks
    → n < length ks
    → blink_loop b st 0 ks ≡ (repeat_blinks b st n, some n)
blink_loop_lem b st n ks e p h k =
    let z : 0 + n ≡ n = omega arith in
    blinks_from b st n 0 ks (e ∙ ap pos (sym z)) (omega arith) h k
    ∙ ap (λ m. (repeat_blinks b st n, some m)) z
