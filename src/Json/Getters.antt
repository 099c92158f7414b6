-- ===== src/Json/Getters.antt =====
-- libbb/bb_json.c: what the getters find in a text that holds a key.
use nxp_imx95_building_block.Json.{skip_colon, find_key, copy_string, string_at, get_string}
use nxp_imx95_building_block.Common.{
  ℕ, zero, suc, ◌≤◌, ◌≡◌, refl, ap, Bool, true, false, not, ◌&&◌, some, [], ◌∷◌, ◌++◌, arith, ◌==◌,
  length, length-append, take_all, Bytes, all, IsFirst, after_match-first,
}

-- A byte that the writer's text and the getter agree on: not a quote, a backslash or NUL.
abbrev pub is_plain : ℕ → Bool
is_plain c = not (c == 34) && not (c == 92) && not (c == 0)

copy_string-plain :
    (val rest : Bytes) (n : ℕ)
    → all is_plain val ≡ true
    → length val ≤ n
    → copy_string n (val ++ 34 ∷ rest) ≡ val
unfolding copy_string all
copy_string-plain [] rest zero h k = refl
copy_string-plain [] [] (suc n) h k = refl
copy_string-plain [] (c ∷ rest) (suc n) h k = refl
copy_string-plain (c ∷ []) rest zero h k = absurd (omega arith)
copy_string-plain (c ∷ []) rest (suc n) h k =
    let q : (c == 34) ≡ false = ground arith in
    let b : (c == 92) ≡ false = ground arith in
    rw (q, b) (ap (◌∷◌ c) (copy_string-plain [] rest n refl (omega arith)))
copy_string-plain (c ∷ d ∷ val) rest zero h k = absurd (omega arith)
copy_string-plain (c ∷ d ∷ val) rest (suc n) h k =
    let q : (c == 34) ≡ false = ground arith in
    let b : (c == 92) ≡ false = ground arith in
    let e : all is_plain (d ∷ val) ≡ true = ground arith in
    rw (q, b) (ap (◌∷◌ c) (copy_string-plain (d ∷ val) rest n e (omega arith)))

-- A key as it stands in a text.
abbrev pub quoted : Bytes → Bytes
quoted key = 34 ∷ key ++ 34 ∷ []

-- A string that stands behind its key is read, when the quoted key is nowhere earlier in the text:
-- for keys of at most 125 bytes and strings of at most 255 without quote, backslash and NUL.
pub get_string_lem :
    (pre key val rest : Bytes)
    → length key ≤ 125
    → length val ≤ 255
    → all is_plain val ≡ true
    → IsFirst (quoted key) pre (quoted key ++ 58 ∷ 34 ∷ (val ++ 34 ∷ rest))
    → get_string (pre ++ (quoted key ++ 58 ∷ 34 ∷ (val ++ 34 ∷ rest))) key ≡ some val
unfolding get_string find_key skip_colon string_at
get_string_lem pre key val rest k n h first =
    rw
      (
        take_all 127 (quoted key) (omega (arith, k, length-append key (34 ∷ []))),
        after_match-first (quoted key) pre (58 ∷ 34 ∷ (val ++ 34 ∷ rest)) first,
      )
      (ap some (copy_string-plain val rest 255 h n))
