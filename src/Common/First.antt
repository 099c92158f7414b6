-- ===== src/Common/First.antt =====
-- Where a pattern first stands in a text that is put together from parts.
use nxp_imx95_building_block.Common.Tests.{◌==◌, ==_self, ltb, Bool-cases}
use nxp_imx95_building_block.Common.Text.{Bytes, starts_with, all, all-append}
use nxp_imx95_building_block.Common.Scan.{before_char, after_char}
use nxp_imx95_building_block.Common.Number.{is_digit, digits, decimal}
use nxp_imx95_building_block.Common.Search.{after_match, IsFirst}
use Prim.Native.Nat.{ℕ, zero, suc, ◌+◌, ◌/◌, ◌%◌}
use mathlib.Core.Bool.{Bool, true, false, not, ◌&&◌}
use mathlib.Core.Option.{some}
use mathlib.Core.List.{[], ◌∷◌, ◌++◌, append_assoc}
use mathlib.Core.Logic.{inl, inr}
use mathlib.Core.Path.{◌≡◌, refl, ap, ◌∙◌}
use native.Mathlib.Omega.{arith}

-- The pattern does not begin with a byte of the text.
abbrev pub lacks : ℕ → Bytes → Bool
lacks x s = all (λ c. not (x == c)) s

pub IsFirst-lacks : (x : ℕ) (p pre s : Bytes) → lacks x pre ≡ true → IsFirst (x ∷ p) pre s
unfolding all starts_with
IsFirst-lacks x p [] s h = tt
IsFirst-lacks x p (c ∷ pre) s h =
    let n : (x == c) ≡ false = ground arith in
    let e : lacks x pre ≡ true = ground arith in (rw n refl, IsFirst-lacks x p pre s e)

pub IsFirst-append : (p a b s : Bytes) → IsFirst p a (b ++ s) → IsFirst p b s → IsFirst p (a ++ b) s
IsFirst-append p [] b s h k = k
IsFirst-append p (c ∷ a) b s h k =
    (ap (λ t. starts_with p (c ∷ t)) (append_assoc a b s) ∙ h.0, IsFirst-append p a b s h.1 k)

-- A test for the same.
abbrev pub is_first : Bytes → Bytes → Bytes → Bool
is_first p [] s = true
is_first p (c ∷ pre) s = not (starts_with p (c ∷ pre ++ s)) && is_first p pre s

pub IsFirst-test : (p pre s : Bytes) → is_first p pre s ≡ true → IsFirst p pre s
IsFirst-test p [] s h = tt
IsFirst-test p (c ∷ pre) s h = (ground (arith), IsFirst-test p pre s (ground arith))

pub digits-lacks : (x f n : ℕ) → is_digit x ≡ false → lacks x (digits f n) ≡ true
unfolding digits all
digits-lacks x zero n h = refl
digits-lacks x (suc f) n h = elim (Bool-cases (ltb n 10)) [
  | inl e ↦ let d : (x == 48 + n) ≡ false = ground (arith, e) in rw e (rw d refl)
  | inr e ↦
      let d : (x == 48 + n % 10) ≡ false = ground arith in
      rw e (
        all-append (λ c. not (x == c)) (digits f (n / 10)) ((48 + n % 10) ∷ [])
        ∙ rw (d, digits-lacks x f (n / 10) h) refl)
]

pub decimal-lacks : (x n : ℕ) → is_digit x ≡ false → lacks x (decimal n) ≡ true
unfolding decimal
decimal-lacks x n h = digits-lacks x 20 n h

-- The search goes on behind a text in which the pattern does not begin.
pub after_match-append :
    (p pre s : Bytes) → IsFirst p pre s → after_match p (pre ++ s) ≡ after_match p s
unfolding after_match
after_match-append p [] s h = refl
after_match-append p (c ∷ pre) s h = rw h.0 (after_match-append p pre s h.1)

-- What `strchr` gives of a text that begins with bytes other than the one looked for.
pub before_char-lacks :
    (x : ℕ) (s rest : Bytes) → lacks x s ≡ true → before_char x (s ++ x ∷ rest) ≡ s
unfolding before_char all
before_char-lacks x [] rest h = rw (==_self x) refl
before_char-lacks x (c ∷ s) rest h =
    let n : (c == x) ≡ false = ground arith in
    let e : lacks x s ≡ true = ground arith in rw n (ap (◌∷◌ c) (before_char-lacks x s rest e))

pub after_char-lacks :
    (x : ℕ) (s rest : Bytes) → lacks x s ≡ true → after_char x (s ++ x ∷ rest) ≡ some rest
unfolding after_char all
after_char-lacks x [] rest h = rw (==_self x) refl
after_char-lacks x (c ∷ s) rest h =
    let n : (c == x) ≡ false = ground arith in
    let e : lacks x s ≡ true = ground arith in rw n (after_char-lacks x s rest e)
