-- ===== src/Pool/Find.antt =====
-- The scans of libbb/bb_pool.c over the reference counts, and what a store to one of them changes.
use nxp_imx95_building_block.Common.{
  ℕ, zero, suc, ◌+◌, ◌≤◌, ◌<◌, ◌≡◌, refl, ◌≢◌, Bool, true, false, some, List, [], ◌∷◌, arith, ℤ,
  pos, length, get_elem?, get_elem?_lt, Bool-cases, leb, leb→le, inl, inr, ap, subst,
}
use nxp_imx95_building_block.Pool.{
  Frame, Reply, got, null, fault, blocked, store_ref, add_ref, find,
}

-- The reference count of frame `i`.
abbrev pub ref_at : List Frame → ℕ → ℤ
ref_at [] i = pos 0
ref_at (f ∷ fs) zero = f.refcount
ref_at (f ∷ fs) (suc i) = ref_at fs i

pub ref_at-get_elem? :
    (fs : List Frame) (i : ℕ) (f : Frame) → get_elem? fs i ≡ some f → ref_at fs i ≡ f.refcount
ref_at-get_elem? [] i f e = cc
ref_at-get_elem? (x ∷ fs) zero f e = ground arith
ref_at-get_elem? (x ∷ fs) (suc i) f e = ref_at-get_elem? fs i f e

pub length-store_ref : (fs : List Frame) (i : ℕ) (v : ℤ) → length (store_ref fs i v) ≡ length fs
length-store_ref [] i v = refl
length-store_ref (f ∷ fs) zero v = refl
length-store_ref (f ∷ fs) (suc i) v = ap suc (length-store_ref fs i v)

pub ref_at-store_self :
    (fs : List Frame) (i : ℕ) (v : ℤ) → i < length fs → ref_at (store_ref fs i v) i ≡ v
ref_at-store_self [] i v h = elim h [ ]
ref_at-store_self (f ∷ fs) zero v h = refl
ref_at-store_self (f ∷ fs) (suc i) v h = ref_at-store_self fs i v (omega arith)

pub ref_at-store_ne :
    (fs : List Frame) (i j : ℕ) (v : ℤ) → i ≢ j → ref_at (store_ref fs i v) j ≡ ref_at fs j
ref_at-store_ne [] i j v h = refl
ref_at-store_ne (f ∷ fs) zero zero v h = absurd (h refl)
ref_at-store_ne (f ∷ fs) zero (suc j) v h = refl
ref_at-store_ne (f ∷ fs) (suc i) zero v h = refl
ref_at-store_ne (f ∷ fs) (suc i) (suc j) v h = ref_at-store_ne fs i j v (λ e. h (ap suc e))

-- Adding to a count is storing the sum.
pub add_ref-store :
    (g : ℤ → ℤ) (fs : List Frame) (i : ℕ) → add_ref g fs i ≡ store_ref fs i (g (ref_at fs i))
unfolding add_ref
add_ref-store g [] i = refl
add_ref-store g (f ∷ fs) zero = refl
add_ref-store g (f ∷ fs) (suc i) = ap (◌∷◌ f) (add_ref-store g fs i)

-- What a scan from `i` over `n` frames answers: the first frame that passes, or that none does.
abbrev pub Scanned : (ℤ → Bool) → List Frame → ℕ → ℕ → Reply → Type 0
Scanned test fs n i (got j) =
    (i ≤ j)
    × (j < i + n)
    × (test (ref_at fs j) ≡ true)
    × ((k : ℕ) → i ≤ k → k < j → test (ref_at fs k) ≡ false)
Scanned test fs n i null = (k : ℕ) → i ≤ k → k < i + n → test (ref_at fs k) ≡ false
Scanned test fs n i fault = ⊥
Scanned test fs n i blocked = ⊥

from_next : (P : ℕ → Type 0) (i k : ℕ) → P i → (suc i ≤ k → P k) → i ≤ k → P k
from_next P i k here later h = elim (Bool-cases (leb (suc i) k)) [
  | inl l ↦ later (omega (arith, leb→le (suc i) k l))
  | inr g ↦ subst P (ground arith) here
]

Scanned-step :
    (test : ℤ → Bool) (fs : List Frame) (n i : ℕ) (r : Reply)
    → test (ref_at fs i) ≡ false
    → Scanned test fs n (i + 1) r
    → Scanned test fs (suc n) i r
Scanned-step test fs n i (got j) miss s = (
  omega (arith, s.0),
  omega (arith, s.1),
  s.2,
  λ k h l. from_next (λ k. test (ref_at fs k) ≡ false) i k miss (λ b. s.3 k (omega arith) l) h,
)
Scanned-step test fs n i null miss s = λ k h l.
    from_next (λ k. test (ref_at fs k) ≡ false) i k miss (λ b. s k (omega arith) (omega arith)) h
Scanned-step test fs n i fault miss s = s
Scanned-step test fs n i blocked miss s = s

pub find-Scanned :
    (test : ℤ → Bool) (fs : List Frame) (n i : ℕ)
    → i + n ≤ length fs
    → Scanned test fs n i (find test fs n i)
unfolding find
find-Scanned test fs zero i h = λ k a b. absurd (omega arith)
find-Scanned test fs (suc n) i h =
    let (f, e) = get_elem?_lt fs i (omega arith) in
    elim (Bool-cases (test f.refcount)) [
      | inl hit ↦
          rw (e, find)
            (rw (hit, find)
              (
                omega arith,
                omega arith,
                rw (ref_at-get_elem? fs i f e) hit,
                λ k a b. absurd (omega arith),
              ))
      | inr miss ↦
          rw (e, find)
            (rw (miss, find)
              (Scanned-step test fs n i _ (rw (ref_at-get_elem? fs i f e) miss)
                (find-Scanned test fs n (i + 1) (omega arith))))
    ]
