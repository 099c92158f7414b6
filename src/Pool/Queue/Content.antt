-- ===== src/Pool/Queue/Content.antt =====
-- What the blocks of the frames of libbb/bb_pool.c hold, and which calls change it.
use nxp_imx95_building_block.Common.{
  ℕ, zero, suc, ◌+◌, ◌%◌, ◌≤◌, ◌<◌, ◌≡◌, refl, ap, ap₂, ◌∙◌, ◌≢◌, List, [], ◌∷◌, ◌++◌, arith,
  length, Bytes, ℤ,
}
use nxp_imx95_building_block.Pool.{Frame, store_ref}
use nxp_imx95_building_block.Pool.Find.{ref_at}

-- What the block of frame `i` holds.
abbrev pub bytes_at : List Frame → ℕ → Bytes
bytes_at [] i = []
bytes_at (f ∷ fs) zero = f.bytes
bytes_at (f ∷ fs) (suc i) = bytes_at fs i

-- A write through `frames[i].data`.
abbrev pub fill : List Frame → ℕ → Bytes → List Frame
fill [] i b = []
fill (f ∷ fs) zero b = record f { bytes = b } ∷ fs
fill (f ∷ fs) (suc i) b = f ∷ fill fs i b

-- What the frames that the counters from `r` on name hold, `n` of them.
unfoldable pub pending : List Frame → ℕ → ℕ → ℕ → List Bytes
pending fs c r zero = []
pending fs c r (suc n) = bytes_at fs (r % c) ∷ pending fs c (r + 1) n

pub length-fill : (fs : List Frame) (i : ℕ) (b : Bytes) → length (fill fs i b) ≡ length fs
length-fill [] i b = refl
length-fill (f ∷ fs) zero b = refl
length-fill (f ∷ fs) (suc i) b = ap suc (length-fill fs i b)

pub ref_at-fill : (fs : List Frame) (i j : ℕ) (b : Bytes) → ref_at (fill fs i b) j ≡ ref_at fs j
ref_at-fill [] i j b = refl
ref_at-fill (f ∷ fs) zero zero b = refl
ref_at-fill (f ∷ fs) zero (suc j) b = refl
ref_at-fill (f ∷ fs) (suc i) zero b = refl
ref_at-fill (f ∷ fs) (suc i) (suc j) b = ref_at-fill fs i j b

pub bytes_at-fill_ne :
    (fs : List Frame) (i j : ℕ) (b : Bytes) → i ≢ j → bytes_at (fill fs i b) j ≡ bytes_at fs j
bytes_at-fill_ne [] i j b h = refl
bytes_at-fill_ne (f ∷ fs) zero zero b h = absurd (h refl)
bytes_at-fill_ne (f ∷ fs) zero (suc j) b h = refl
bytes_at-fill_ne (f ∷ fs) (suc i) zero b h = refl
bytes_at-fill_ne (f ∷ fs) (suc i) (suc j) b h = bytes_at-fill_ne fs i j b (λ e. h (ap suc e))

pub bytes_at-store_ref :
    (fs : List Frame) (i j : ℕ) (v : ℤ) → bytes_at (store_ref fs i v) j ≡ bytes_at fs j
bytes_at-store_ref [] i j v = refl
bytes_at-store_ref (f ∷ fs) zero zero v = refl
bytes_at-store_ref (f ∷ fs) zero (suc j) v = refl
bytes_at-store_ref (f ∷ fs) (suc i) zero v = refl
bytes_at-store_ref (f ∷ fs) (suc i) (suc j) v = bytes_at-store_ref fs i j v

pub pending-snoc :
    (fs : List Frame) (c r n : ℕ)
    → pending fs c r (suc n) ≡ pending fs c r n ++ bytes_at fs ((r + n) % c) ∷ []
unfolding pending
pending-snoc fs c r zero = ap (λ t. bytes_at fs (t % c) ∷ []) (omega arith)
pending-snoc fs c r (suc n) = ap (◌∷◌ (bytes_at fs (r % c))) (
    pending-snoc fs c (r + 1) n
    ∙ ap (λ t. pending fs c (r + 1) n ++ bytes_at fs (t % c) ∷ []) (omega arith))

-- Frames that agree where the counters point hold the same.
pub pending_ext :
    (fs gs : List Frame) (c r n : ℕ)
    → ((k : ℕ) → r ≤ k → k < r + n → bytes_at gs (k % c) ≡ bytes_at fs (k % c))
    → pending gs c r n ≡ pending fs c r n
unfolding pending
pending_ext fs gs c r zero h = refl
pending_ext fs gs c r (suc n) h =
    ap₂ ◌∷◌ (h r (omega arith) (omega arith))
      (pending_ext fs gs c (r + 1) n (λ k a b. h k (omega arith) (omega arith)))

pub length-pending : (fs : List Frame) (c r n : ℕ) → length (pending fs c r n) ≡ n
unfolding pending
length-pending fs c r zero = refl
length-pending fs c r (suc n) = ap suc (length-pending fs c (r + 1) n)
