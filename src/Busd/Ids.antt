-- ===== src/Busd/Ids.antt =====
-- The subscriber arrays of services/bb-busd.c: how often a descriptor stands in one, and how the
-- exchange with the last entry changes that.
use nxp_imx95_building_block.Common.{
  ℕ, zero, suc, ◌+◌, ◌-◌, ◌≤◌, ◌≡◌, refl, ap, ◌∙◌, inl, inr, not, ◌&&◌, List, [], ◌∷◌, ◌++◌, arith,
  ltb, ◌==◌, if◌then◌else◌, Bool-cases, length, length-append,
}
use nxp_imx95_building_block.Busd.{
  contains, put_second, bring_last, remove_first, remove_all, add_client, max_clients,
}

-- How often `c` stands in the array.
unfoldable pub count : ℕ → List ℕ → ℕ
count c [] = 0
count c (x ∷ xs) = (if x == c then 1 else 0) + count c xs

pub count_nil : (c : ℕ) → count c [] ≡ 0
unfolding count
count_nil c = refl

pub contains-count : (c : ℕ) (xs : List ℕ) → contains c xs ≡ ltb 0 (count c xs)
unfolding contains count
contains-count c [] = refl
contains-count c (x ∷ xs) = ground (arith, contains-count c xs)

pub count-append : (c : ℕ) (xs ys : List ℕ) → count c (xs ++ ys) ≡ count c xs + count c ys
unfolding count
count-append c [] ys = omega arith
count-append c (x ∷ xs) ys = omega (arith, count-append c xs ys)

count-put_second :
    (c x : ℕ) (l : List ℕ) → count c (put_second x l) ≡ (if x == c then 1 else 0) + count c l
unfolding count
count-put_second c x [] = refl
count-put_second c x (y ∷ l) = omega arith

pub count-bring_last : (c : ℕ) (xs : List ℕ) → count c (bring_last xs) ≡ count c xs
unfolding bring_last count
count-bring_last c [] = refl
count-bring_last c (x ∷ []) = refl
count-bring_last c (x ∷ y ∷ ys) =
    count-put_second c x (bring_last (y ∷ ys))
    ∙ ap (λ n. (if x == c then 1 else 0) + n) (count-bring_last c (y ∷ ys))

length-put_second : (x : ℕ) (l : List ℕ) → length (put_second x l) ≡ suc (length l)
length-put_second x [] = refl
length-put_second x (y ∷ l) = refl

pub length-bring_last : (xs : List ℕ) → length (bring_last xs) ≡ length xs
unfolding bring_last
length-bring_last [] = refl
length-bring_last (x ∷ []) = refl
length-bring_last (x ∷ y ∷ ys) =
    length-put_second x (bring_last (y ∷ ys)) ∙ ap suc (length-bring_last (y ∷ ys))

-- `unsubscribe` removes one occurrence.
pub count-remove_first :
    (c fd : ℕ) (xs : List ℕ)
    → count c (remove_first fd xs) ≡ (if c == fd then count c xs - 1 else count c xs)
unfolding remove_first count
count-remove_first c fd [] = ground arith
count-remove_first c fd (x ∷ xs) = elim (Bool-cases (x == fd)) [
  | inl y ↦ rw y (ground (arith, y, count-bring_last c xs))
  | inr n ↦ rw n (ground (arith, n, count-remove_first c fd xs))
]

pub length-remove_first : (fd : ℕ) (xs : List ℕ) → length (remove_first fd xs) ≤ length xs
unfolding remove_first
length-remove_first fd [] = omega arith
length-remove_first fd (x ∷ xs) = ground (arith, length-bring_last xs, length-remove_first fd xs)

-- With its length as fuel the loop of `remove_client` ends, removes every occurrence of the
-- descriptor, and keeps each other descriptor as often as it was there.
pub count-remove_all :
    (n c fd : ℕ) (xs : List ℕ)
    → length xs ≤ n
    → count c (remove_all n fd xs) ≡ (if c == fd then 0 else count c xs)
unfolding remove_all count
count-remove_all zero c fd [] h = ground arith
count-remove_all zero c fd (x ∷ xs) h = absurd (omega arith)
count-remove_all (suc n) c fd [] h = ground arith
count-remove_all (suc n) c fd (x ∷ xs) h = elim (Bool-cases (x == fd)) [
  | inl y ↦ rw y (
      ground (
        arith,
        y,
        count-bring_last c xs,
        count-remove_all n c fd (bring_last xs) (omega (arith, length-bring_last xs)),
      ))
  | inr k ↦ rw k (ground (arith, k, count-remove_all n c fd xs (omega arith)))
]

pub length-remove_all : (n fd : ℕ) (xs : List ℕ) → length (remove_all n fd xs) ≤ length xs
unfolding remove_all
length-remove_all zero fd xs = omega arith
length-remove_all (suc n) fd [] = omega arith
length-remove_all (suc n) fd (x ∷ xs) =
    ground (
      arith,
      length-bring_last xs,
      length-remove_all n fd (bring_last xs),
      length-remove_all n fd xs,
    )

count_one : (c fd : ℕ) → count c (fd ∷ []) ≡ (if c == fd then 1 else 0)
unfolding count
count_one c fd = ground arith

-- The SUB branch adds a descriptor that is not there, up to the bound, and no other.
pub count-add_client :
    (c fd : ℕ) (ids : List ℕ)
    → count c (add_client fd ids) ≡ (
        if (c == fd) && (not (contains fd ids) && ltb (length ids) max_clients)
        then 1
        else count c ids)
unfolding add_client
count-add_client c fd ids = ground (
  arith,
  contains-count fd ids,
  contains-count c ids,
  count-append c ids (fd ∷ []),
  count_one c fd,
)

pub length-add_client :
    (fd : ℕ) (ids : List ℕ) → length ids ≤ max_clients → length (add_client fd ids) ≤ max_clients
unfolding add_client
length-add_client fd ids h = ground (arith, length-append ids (fd ∷ []))
