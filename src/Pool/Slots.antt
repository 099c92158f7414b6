-- ===== src/Pool/Slots.antt =====
-- The ring arithmetic of libbb/bb_pool.c: which frames the counters of the ring name.
use native.Mathlib.Nat.{mod-add-mod, mod-eq_of_lt, mod-eq-sub-mod, mod-lt}
use native.Mathlib.Decide.{dec_lt}
use nxp_imx95_building_block.Common.{
  ℕ, zero, suc, ◌+◌, ◌-◌, ◌%◌, ◌≤◌, ◌<◌, ◌≡◌, ◌≢◌, some, arith, pos, ◌-ℤ◌, sym, ◌∙◌, ap, List, [],
  ◌∷◌, ◌++◌,
}
use nxp_imx95_building_block.Pool.{slot}

pub slot_pos : (n count : ℕ) → 0 < count → slot (pos n) count ≡ some (n % count)
unfolding slot
slot_pos n count h = ground arith

pub sub_pos : (w r : ℕ) → r ≤ w → pos w -ℤ pos r ≡ pos (w - r)
unfolding ◌-ℤ◌
sub_pos w r h = ground arith

-- Fewer than `c` steps round a ring of `c` frames do not come back to the start.
step-ne : (c m d : ℕ) → m < c → 0 < d → d < c → (m + d) % c ≢ m
step-ne c m d hm hd h = elim (dec_lt (m + d) c) [
  | yes p ↦ omega (arith, mod-eq_of_lt p)
  | no p ↦ omega (
    arith,
    mod-eq-sub-mod {n = m + d} {m = c} (omega arith),
    mod-eq_of_lt {n = m + d - c} {m = c} (omega arith),
  )
]

-- Two counters less than `c` apart name different frames.
pub mod-ne : (c a b : ℕ) → a < b → b < a + c → a % c ≢ b % c
mod-ne c a b h k e =
    step-ne c (a % c) (b - a) (mod-lt a {m = c} (omega arith)) (omega arith) (omega arith) back
  where
    back : (a % c + (b - a)) % c ≡ a % c
    back = rw mod-add-mod (ap (λ t. t % c) (omega arith) ∙ sym e)

-- The frames that the counters from `r` on name, `n` of them.
unfoldable pub window : ℕ → ℕ → ℕ → List ℕ
window c r zero = []
window c r (suc n) = (r % c) ∷ window c (r + 1) n

pub window-snoc : (c r n : ℕ) → window c r (suc n) ≡ window c r n ++ ((r + n) % c) ∷ []
unfolding window
window-snoc c r zero = ap (λ t. (t % c) ∷ []) (omega arith)
window-snoc c r (suc n) =
    ap (◌∷◌ (r % c))
      (window-snoc c (r + 1) n ∙ ap (λ t. window c (r + 1) n ++ (t % c) ∷ []) (omega arith))
