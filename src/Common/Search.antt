-- ===== src/Common/Search.antt =====
-- Searching in texts: `strstr`, `memmem`, `strcasestr`, and `strtok_r`.
use nxp_imx95_building_block.Common.Tests.{◌==◌, leb, if◌then◌else◌}
use nxp_imx95_building_block.Common.Lists.{drop, length, drop-append_length}
use nxp_imx95_building_block.Common.Text.{Bytes, starts_with, starts_with-append}
use Prim.Native.Nat.{ℕ, ◌+◌}
use mathlib.Core.Bool.{Bool, true, false, ◌&&◌, ◌||◌}
use mathlib.Core.List.{List, [], ◌∷◌, ◌++◌, map}
use mathlib.Core.Option.{Option, none, some}
use mathlib.Core.Path.{◌≡◌, refl, ap}

-- The text behind the first place where a pattern stands: `strstr(s, p) + strlen(p)`.
unfoldable pub after_match : Bytes → Bytes → Option Bytes
after_match p [] = if starts_with p [] then some [] else none
after_match p (c ∷ s) =
    let rest = after_match p s in
    if starts_with p (c ∷ s) then some (drop (length p) (c ∷ s)) else rest

-- A pattern stands in the text behind the prefix and nowhere earlier.
abbrev pub IsFirst : Bytes → Bytes → Bytes → Type 0
IsFirst p [] s = Unit
IsFirst p (c ∷ pre) s = (starts_with p (c ∷ pre ++ s) ≡ false) × IsFirst p pre s

pub after_match-first :
    (p pre s : Bytes) → IsFirst p pre (p ++ s) → after_match p (pre ++ (p ++ s)) ≡ some s
unfolding after_match starts_with
after_match-first [] [] [] h = refl
after_match-first [] [] (c ∷ s) h = refl
after_match-first (a ∷ p) [] s h =
    rw (starts_with-append (a ∷ p) s) (ap some (drop-append_length (a ∷ p) s))
after_match-first p (c ∷ pre) s h = rw h.0 (after_match-first p pre s h.1)

-- `strstr(s, p) != NULL`
unfoldable pub occurs : Bytes → Bytes → Bool
occurs p [] = starts_with p []
occurs p (c ∷ s) = starts_with p (c ∷ s) || occurs p s

-- `tolower` in the C locale.
abbrev pub lower : ℕ → ℕ
lower c = if leb 65 c && leb c 90 then c + 32 else c

-- `strcasestr(s, p) + strlen(p)`
unfoldable pub after_match_case : Bytes → Bytes → Option Bytes
after_match_case p [] = if starts_with (map lower p) [] then some [] else none
after_match_case p (c ∷ s) =
    let rest = after_match_case p s in
    if starts_with (map lower p) (map lower (c ∷ s)) then some (drop (length p) (c ∷ s)) else rest

-- A byte in front of the token that the rest of a text begins with.
unfoldable pub push_token : ℕ → Bool × List Bytes → Bool × List Bytes
push_token c (inside, []) = (true, (c ∷ []) ∷ [])
push_token c (true, t ∷ ts) = (true, (c ∷ t) ∷ ts)
push_token c (false, t ∷ ts) = (true, (c ∷ []) ∷ t ∷ ts)

-- The tokens of a text between separators, and whether the text begins inside the first.
unfoldable pub scan_tokens : ℕ → Bytes → Bool × List Bytes
unfolding push_token
scan_tokens sep [] = (false, [])
scan_tokens sep (c ∷ s) =
    let more = scan_tokens sep s in if c == sep then (false, more.1) else push_token c more

-- `strtok_r` to its end: the parts between separators that are not empty.
unfoldable pub tokens : ℕ → Bytes → List Bytes
unfolding scan_tokens
tokens sep s = (scan_tokens sep s).1
