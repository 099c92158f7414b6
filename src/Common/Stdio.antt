-- ===== src/Common/Stdio.antt =====
-- Files and the functions of stdio.h that the program calls on them: `fopen`, `fgets`, `rename`.
use nxp_imx95_building_block.Common.Tests.{◌==◌, leb, if◌then◌else◌}
use nxp_imx95_building_block.Common.Text.{Bytes, str_eq, str_eq_refl, str_eq_ne}
use Prim.Native.Nat.{ℕ, ◌-◌}
use mathlib.Core.Bool.{◌||◌}
use mathlib.Core.List.{List, [], ◌∷◌}
use mathlib.Core.Logic.{◌≢◌}
use mathlib.Core.Option.{Option, none, some}
use mathlib.Core.Path.{◌≡◌, refl}

-- What each path holds; `none` where there is no file.
abbrev pub Files : Type 0
Files = Bytes → Option Bytes

unfoldable pub write_file : Bytes → Bytes → Files → Files
write_file path content files q = if str_eq q path then some content else files q

unfoldable pub delete_file : Bytes → Files → Files
delete_file path files q = if str_eq q path then none else files q

-- `rename(from, to)`; nothing where both are one path or there is no such file.
unfoldable pub rename_file : Bytes → Bytes → Files → Files
rename_file from to files = if str_eq from to then files else elim (files from) [
  | none ↦ files
  | some content ↦ write_file to content (delete_file from files)
]

-- A byte in front of the line that the rest of a file goes on with.
unfoldable pub extend_line : ℕ → List Bytes → List Bytes
extend_line c [] = (c ∷ []) ∷ []
extend_line c (l ∷ ls) = (c ∷ l) ∷ ls

-- `while (fgets(line, size, f))`: what each call reads, up to and with a line end or until the
-- buffer is full. The first number is size - 1, the second how many bytes of it are free.
unfoldable pub read_lines : ℕ → ℕ → Bytes → List Bytes
unfolding extend_line
read_lines size room [] = []
read_lines size room (c ∷ s) =
    let full = (c == 10) || leb room 1 in
    let more = read_lines size (if full then size else room - 1) s in
    if full then (c ∷ []) ∷ more else extend_line c more

pub read-write :
    (path content : Bytes) (files : Files) → write_file path content files path ≡ some content
unfolding write_file
read-write path content files = rw (str_eq_refl path) refl

pub read-write_ne :
    (path content : Bytes) (files : Files) {q : Bytes}
    → q ≢ path
    → write_file path content files q ≡ files q
unfolding write_file
read-write_ne path content files {q = q} h = rw (str_eq_ne q path h) refl

pub read-rename :
    (from to content : Bytes) (files : Files)
    → from ≢ to
    → files from ≡ some content
    → rename_file from to files to ≡ some content
unfolding rename_file
read-rename from to content files h e =
    rw (str_eq_ne from to h, e) (read-write to content (delete_file from files))

pub read-rename_ne :
    (from to content : Bytes) (files : Files) {q : Bytes}
    → from ≢ to
    → files from ≡ some content
    → q ≢ from
    → q ≢ to
    → rename_file from to files q ≡ files q
unfolding rename_file write_file delete_file
read-rename_ne from to content files {q = q} h e f t =
    rw (str_eq_ne from to h, e) (rw (str_eq_ne q to t, str_eq_ne q from f) refl)
