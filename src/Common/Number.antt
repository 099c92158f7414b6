-- ===== src/Common/Number.antt =====
-- Numbers as text: what the program uses of `printf` and of `atoi`, `strtol` and `strtoull`.
use nxp_imx95_building_block.Common.Tests.{◌==◌, ltb, leb, if◌then◌else◌, Bool-cases}
use nxp_imx95_building_block.Common.Text.{Bytes}
use nxp_imx95_building_block.Common.Int.{ℤ, pos, negsuc}
use nxp_imx95_building_block.Common.Scan.{skip_space}
use nxp_imx95_building_block.Common.Lists.{length, length-append}
use Prim.Native.Nat.{ℕ, zero, suc, ◌+◌, ◌-◌, ◌*◌, ◌/◌, ◌%◌, ◌^◌, ◌<◌, ◌≤◌, min}
use mathlib.Core.Bool.{Bool, true, false, ◌&&◌}
use mathlib.Core.List.{[], ◌∷◌, ◌++◌, append_assoc}
use mathlib.Core.Logic.{inl, inr}
use mathlib.Core.Path.{◌≡◌, refl, ap, ◌∙◌}
use native.Mathlib.Omega.{arith}

abbrev pub is_digit : ℕ → Bool
is_digit c = leb 48 c && leb c 57

abbrev pub pow10 : ℕ → ℕ
pow10 zero = 1
pow10 (suc n) = 10 * pow10 n

-- The last `n` decimal digits at most.
unfoldable pub digits : ℕ → ℕ → Bytes
digits zero n = []
digits (suc f) n =
    let more = digits f (n / 10) in if ltb n 10 then (48 + n) ∷ [] else more ++ (48 + n % 10) ∷ []

-- `%u`, `%lu`, `%zu`, `%llu`: 64 bits have at most 20 digits.
unfoldable pub decimal : ℕ → Bytes
unfolding digits
decimal n = digits 20 n

-- `%d`, `%ld`, `%lld`
unfoldable pub print_int : ℤ → Bytes
unfolding decimal
print_int (pos n) = decimal n
print_int (negsuc n) = 45 ∷ decimal (n + 1)

-- The number that the digits at the front continue, and the text behind them.
unfoldable pub scan_digits : ℕ → Bytes → ℕ × Bytes
scan_digits v [] = (v, [])
scan_digits v (c ∷ s) =
    let more = scan_digits (v * 10 + (c - 48)) s in if is_digit c then more else (v, c ∷ s)

-- The text does not go on with a digit.
abbrev pub no_digit : Bytes → Bool
no_digit [] = true
no_digit (c ∷ s) = if is_digit c then false else true

scan_digits-digits :
    (f n : ℕ) (rest : Bytes) → n < pow10 f → scan_digits 0 (digits f n ++ rest) ≡ scan_digits n rest
unfolding digits scan_digits
scan_digits-digits zero n rest h = let z : n ≡ 0 = omega arith in rw z refl
scan_digits-digits (suc f) n rest h = elim (Bool-cases (ltb n 10)) [
  | inl e ↦
      let d : is_digit (48 + n) ≡ true = ground (arith, e) in
      rw e (rw d (ap (λ v. scan_digits v rest) (omega arith)))
  | inr e ↦
      let d : is_digit (48 + n % 10) ≡ true = ground arith in
      rw e (
        ap (scan_digits 0) (append_assoc (digits f (n / 10)) ((48 + n % 10) ∷ []) rest)
        ∙ scan_digits-digits f (n / 10) ((48 + n % 10) ∷ rest) (omega arith)
        ∙ rw d (ap (λ v. scan_digits v rest) (omega arith)))
]

-- What is printed is read back, with what stands behind it.
pub scan_digits-decimal :
    (n : ℕ) (rest : Bytes) → n < pow10 20 → scan_digits 0 (decimal n ++ rest) ≡ scan_digits n rest
unfolding decimal
scan_digits-decimal n rest h = scan_digits-digits 20 n rest h

pub scan_digits-stop :
    (n : ℕ) (rest : Bytes) → no_digit rest ≡ true → scan_digits n rest ≡ (n, rest)
unfolding scan_digits
scan_digits-stop n [] h = refl
scan_digits-stop n (c ∷ s) h = let d : is_digit c ≡ false = ground arith in rw d refl

-- The sign and the digits behind white space, as an integer of any size.
unfoldable pub signed_value : Bytes → ℤ
unfolding scan_digits
signed_value [] = pos 0
signed_value (c ∷ s) =
    let minus = (scan_digits 0 s).0 in
    if c == 45
    then (if minus == 0 then pos 0 else negsuc (minus - 1))
    else if c == 43
    then pos minus
    else pos (scan_digits 0 (c ∷ s)).0

-- The nearest number of 64 bits.
abbrev long_of : ℤ → ℤ
long_of (pos n) = pos (min n (2 ^ 63 - 1))
long_of (negsuc n) = negsuc (min n (2 ^ 63 - 1))

-- The low 32 bits of a `long`, as an `int`.
abbrev int_of : ℤ → ℤ
int_of (pos n) =
    let low = n % 2 ^ 32 in if ltb low (2 ^ 31) then pos low else negsuc (2 ^ 32 - 1 - low)
int_of (negsuc n) =
    let low = n % 2 ^ 32 in if ltb low (2 ^ 31) then negsuc low else pos (2 ^ 32 - 1 - low)

-- `atol`, which is `strtol` for the base 10: beyond 64 bits it gives the nearest number.
unfoldable pub scan_long : Bytes → ℤ
unfolding signed_value
scan_long s = long_of (signed_value (skip_space s))

-- `atoi`, which is `(int) strtol` in the C library of the board.
unfoldable pub scan_int : Bytes → ℤ
unfolding scan_long
scan_int s = int_of (scan_long s)

pub length-digits : (f n : ℕ) → length (digits f n) ≤ f
unfolding digits
length-digits zero n = omega arith
length-digits (suc f) n =
    ground (arith, length-digits f (n / 10), length-append (digits f (n / 10)) ((48 + n % 10) ∷ []))

pub length-print_int : (v : ℤ) → length (print_int v) ≤ 21
unfolding print_int decimal
length-print_int (pos n) = omega (arith, length-digits 20 n)
length-print_int (negsuc n) = omega (arith, length-digits 20 (n + 1))
