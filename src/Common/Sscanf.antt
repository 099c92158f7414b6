-- ===== src/Common/Sscanf.antt =====
-- The numbers and characters that `sscanf` reads.
use nxp_imx95_building_block.Common.Tests.{◌==◌, ltb, if◌then◌else◌, Bool-cases}
use nxp_imx95_building_block.Common.Text.{Bytes}
use nxp_imx95_building_block.Common.Int.{ℤ, pos, negsuc, pos_part, neg_part}
use nxp_imx95_building_block.Common.Scan.{is_space, skip_space}
use nxp_imx95_building_block.Common.Number.{
  is_digit, pow10, digits, decimal, print_int, scan_digits, no_digit, scan_digits-decimal,
  scan_digits-stop,
}
use Prim.Native.Nat.{ℕ, zero, suc, ◌+◌, ◌-◌, ◌/◌, ◌%◌, ◌^◌, ◌<◌, min}
use mathlib.Core.Bool.{true, false}
use mathlib.Core.List.{[], ◌∷◌, ◌++◌}
use mathlib.Core.Logic.{inl, inr}
use mathlib.Core.Option.{Option, none, some}
use mathlib.Core.Path.{◌≡◌, refl, ap, ◌∙◌}
use native.Mathlib.Omega.{arith}

abbrev plus_at : Bytes → Option (ℤ × Bytes)
plus_at s = if no_digit s then none else some (pos (scan_digits 0 s).0, (scan_digits 0 s).1)

abbrev minus_of : ℕ → ℤ
minus_of n = if n == 0 then pos 0 else negsuc (n - 1)

abbrev minus_at : Bytes → Option (ℤ × Bytes)
minus_at s = if no_digit s then none else some (minus_of (scan_digits 0 s).0, (scan_digits 0 s).1)

abbrev sign_at : Bytes → Option (ℤ × Bytes)
sign_at [] = none
sign_at (c ∷ s) = if c == 45 then minus_at s else if c == 43 then plus_at s else plus_at (c ∷ s)

-- A number behind white space with its sign, of any size, and the text behind it; none without a
-- digit. `%d` gives it where it fits an `int`, elsewhere C does not define the value.
unfoldable pub scan_number : Bytes → Option (ℤ × Bytes)
unfolding scan_digits
scan_number s = sign_at (skip_space s)

-- `strtoull`: a minus sign gives the difference to 2^64, more than 64 bits the largest number.
abbrev pub unsigned_of : ℤ → ℕ
unsigned_of (pos n) = min n (2 ^ 64 - 1)
unsigned_of (negsuc n) = if ltb n (2 ^ 64 - 1) then 2 ^ 64 - 1 - n else 2 ^ 64 - 1

abbrev unsigned_at : Option (ℤ × Bytes) → Option (ℕ × Bytes)
unsigned_at none = none
unsigned_at (some (v, s)) = some (unsigned_of v, s)

-- `%llu`
unfoldable pub scan_u64 : Bytes → Option (ℕ × Bytes)
unfolding scan_number
scan_u64 s = unsigned_at (scan_number s)

abbrev low_at : Option (ℕ × Bytes) → Option (ℕ × Bytes)
low_at none = none
low_at (some (n, s)) = some (n % 2 ^ 32, s)

-- `%u`: the low 32 bits.
unfoldable pub scan_u32 : Bytes → Option (ℕ × Bytes)
unfolding scan_u64
scan_u32 s = low_at (scan_u64 s)

abbrev first_at : Bytes → Option (ℕ × Bytes)
first_at [] = none
first_at (c ∷ s) = some (c, s)

-- ` %c`
unfoldable pub scan_char : Bytes → Option (ℕ × Bytes)
scan_char s = first_at (skip_space s)

-- A printed number begins with a digit.
digits-head : (f n : ℕ) → (d : ℕ) × (s : Bytes) × (digits (suc f) n ≡ d ∷ s) × (is_digit d ≡ true)
unfolding digits
digits-head zero n = elim (Bool-cases (ltb n 10)) [
  | inl e ↦ (48 + n, [], rw e refl, ground (arith, e))
  | inr e ↦ (48 + n % 10, [], rw e refl, ground arith)
]
digits-head (suc f) n = elim (Bool-cases (ltb n 10)) [
  | inl e ↦ (48 + n, [], rw e refl, ground (arith, e))
  | inr e ↦
      let (d, s, q, h) = digits-head f (n / 10) in
      (d, s ++ (48 + n % 10) ∷ [], rw e (ap (λ t. t ++ (48 + n % 10) ∷ []) q), h)
]

scan_number-digit :
    (t r : Bytes) (d : ℕ) (s : Bytes)
    → t ≡ d ∷ s
    → is_digit d ≡ true
    → scan_number (t ++ r) ≡ some (pos (scan_digits 0 (t ++ r)).0, (scan_digits 0 (t ++ r)).1)
unfolding scan_number skip_space
scan_number-digit t r d s e h =
    let w : is_space d ≡ false = ground arith in
    let m : (d == 45) ≡ false = ground arith in
    let p : (d == 43) ≡ false = ground arith in rw e (rw (w, m, p, h) refl)

scan_number-minus :
    (t r : Bytes) (d : ℕ) (s : Bytes)
    → t ≡ d ∷ s
    → is_digit d ≡ true
    → scan_number (45 ∷ t ++ r)
      ≡ some (minus_of (scan_digits 0 (t ++ r)).0, (scan_digits 0 (t ++ r)).1)
unfolding scan_number skip_space
scan_number-minus t r d s e h = rw e (rw h refl)

-- What was printed is read back, with what stands behind it.
pub scan_number-decimal :
    (n : ℕ) (rest : Bytes)
    → n < pow10 20
    → no_digit rest ≡ true
    → scan_number (decimal n ++ rest) ≡ some (pos n, rest)
unfolding decimal
scan_number-decimal n rest h k =
    let (d, s, e, g) = digits-head 19 n in
    let found = scan_digits-decimal n rest h ∙ scan_digits-stop n rest k in
    scan_number-digit (decimal n) rest d s e g ∙ ap (λ f. some (pos f.0, f.1)) found

pub scan_u64-decimal :
    (n : ℕ) (rest : Bytes)
    → n < 2 ^ 64
    → no_digit rest ≡ true
    → scan_u64 (decimal n ++ rest) ≡ some (n, rest)
unfolding scan_u64
scan_u64-decimal n rest h k =
    let m : min n (2 ^ 64 - 1) ≡ n = omega arith in
    rw (scan_number-decimal n rest (omega arith) k) (rw m refl)

pub scan_u32-decimal :
    (n : ℕ) (rest : Bytes)
    → n < 2 ^ 32
    → no_digit rest ≡ true
    → scan_u32 (decimal n ++ rest) ≡ some (n, rest)
unfolding scan_u32
scan_u32-decimal n rest h k =
    let m : n % 2 ^ 32 ≡ n = omega arith in rw (scan_u64-decimal n rest (omega arith) k) (rw m refl)

pub scan_number-print_int :
    (v : ℤ) (rest : Bytes)
    → pos_part v + neg_part v < pow10 20
    → no_digit rest ≡ true
    → scan_number (print_int v ++ rest) ≡ some (v, rest)
unfolding print_int
scan_number-print_int (pos n) rest h k = scan_number-decimal n rest (omega arith) k
scan_number-print_int (negsuc n) rest h k =
    let (d, s, e, g) = digits-head 19 (n + 1) in
    let z : (n + 1 == 0) ≡ false = ground arith in
    let o : n + 1 - 1 ≡ n = omega arith in
    let found = scan_digits-decimal (n + 1) rest (omega arith) ∙ scan_digits-stop (n + 1) rest k in
    scan_number-minus (decimal (n + 1)) rest d s e g
    ∙ ap (λ f. some (minus_of f.0, f.1)) found
    ∙ rw z (ap (λ m. some (negsuc m, rest)) o)

-- Blanks in front are skipped.
pub scan_number-space : (s : Bytes) → scan_number (32 ∷ s) ≡ scan_number s
unfolding scan_number skip_space
scan_number-space s = refl
