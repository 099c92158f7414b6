-- ===== src/Common/Scan.antt =====
-- What the program uses of `sscanf` and of the scanning functions of string.h.

use nxp_imx95_building_block.Common.Tests.{◌==◌, leb, if◌then◌else◌}
use nxp_imx95_building_block.Common.Text.{Bytes}
use Prim.Native.Nat.{ℕ, zero, suc}
use mathlib.Core.Bool.{Bool, ◌&&◌, ◌||◌}
use mathlib.Core.List.{[], ◌∷◌}
use mathlib.Core.Option.{Option, none, some}

-- `isspace` in the C locale.
abbrev pub is_space : ℕ → Bool
is_space c = c == 32 || leb 9 c && leb c 13

-- White space in a format skips any white space of the input.
unfoldable pub skip_space : Bytes → Bytes
skip_space [] = []
skip_space (c ∷ s) = if is_space c then skip_space s else c ∷ s

-- `%<n>s` after its leading white space: the bytes read and the rest.
unfoldable pub token : ℕ → Bytes → Bytes × Bytes
token zero s = ([], s)
token (suc n) [] = ([], [])
token (suc n) (c ∷ s) =
    let more = token n s in if is_space c then ([], c ∷ s) else (c ∷ more.0, more.1)

-- The text behind the first `c`: `strchr(s, c) + 1`.
unfoldable pub after_char : ℕ → Bytes → Option Bytes
after_char c [] = none
after_char c (x ∷ s) = if x == c then some s else after_char c s

-- The text before the first `c`, or all of it.
unfoldable pub before_char : ℕ → Bytes → Bytes
before_char c [] = []
before_char c (x ∷ s) = let more = before_char c s in if x == c then [] else x ∷ more

-- `strrchr(s, c) != NULL`, with the text from the last `c` on.
unfoldable pub from_last : ℕ → Bytes → Option Bytes
from_last c [] = none
from_last c (x ∷ s) = elim (from_last c s) [
  | some t ↦ some t
  | none ↦ if x == c then some (x ∷ s) else none
]
