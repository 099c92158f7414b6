-- ===== src/Persist/Lines.antt =====
-- libbb/bb_persist.c: what the loops over a settings file read, when the file is made of lines.
use nxp_imx95_building_block.Persist.{
  line_max, value_of, strip_byte, strip_end, pick_value, find_value, setting, copy_line, copy_lines,
  finish,
}
use nxp_imx95_building_block.Framing.{join_lines, is_text}
use nxp_imx95_building_block.Common.{
  ℕ, ◌-◌, ◌≤◌, ◌<◌, ◌≡◌, refl, sym, ap, ap₂, ◌∙◌, inl, inr, Bool, true, false, Option, none, some,
  List, [], ◌∷◌, ◌++◌, map, append-nil, append_assoc, arith, leb, ◌==◌, if◌then◌else◌, Bool-cases,
  length, All, Bytes, all, before_char, read_lines,
}

-- A line that fits into the buffer with its line end.
abbrev pub IsLine : Bytes → Type 0
IsLine l = (all is_text l ≡ true) × (length l ≤ 510)

abbrev pub end_line : Bytes → Bytes
end_line l = l ++ 10 ∷ []

pub read_line :
    (size : ℕ) (l s : Bytes) (room : ℕ)
    → all is_text l ≡ true
    → length l < room
    → read_lines size room (l ++ 10 ∷ s) ≡ end_line l ∷ read_lines size size s
unfolding read_lines all
read_line size [] s room h k = refl
read_line size (c ∷ l) s room h k =
    let n : (c == 10) ≡ false = ground arith in
    let r : leb room 1 ≡ false = ground arith in
    let e : all is_text l ≡ true = ground arith in
    rw (n, r) (rw (read_line size l s (room - 1) e (omega arith)) refl)

pub read_lines-join :
    (ls : List Bytes)
    → All IsLine ls
    → read_lines line_max line_max (join_lines ls) ≡ map end_line ls
unfolding read_lines join_lines
read_lines-join [] h = refl
read_lines-join (l ∷ ls) h =
    read_line line_max l (join_lines ls) line_max h.0.0 (omega (arith, h.0.1))
    ∙ ap (◌∷◌ (end_line l)) (read_lines-join ls h.1)

pub before_char-end : (l : Bytes) → all is_text l ≡ true → before_char 0 (end_line l) ≡ end_line l
unfolding before_char all
before_char-end [] h = refl
before_char-end (c ∷ l) h =
    let n : (c == 0) ≡ false = ground arith in
    let e : all is_text l ≡ true = ground arith in rw n (ap (◌∷◌ c) (before_char-end l e))

abbrev end_value : Option Bytes → Option Bytes
end_value none = none
end_value (some v) = some (end_line v)

value_of-end :
    (key l : Bytes)
    → all is_text key ≡ true
    → value_of key (end_line l) ≡ end_value (value_of key l)
unfolding value_of all
value_of-end [] [] h = refl
value_of-end [] (c ∷ l) h = elim (Bool-cases (c == 61)) [ inl e ↦ rw e refl | inr e ↦ rw e refl ]
value_of-end (k ∷ ks) [] h = let n : (k == 10) ≡ false = ground arith in rw n refl
value_of-end (k ∷ ks) (c ∷ l) h =
    let e : all is_text ks ≡ true = ground arith in
    elim (Bool-cases (k == c)) [ inl t ↦ rw t (value_of-end ks l e) | inr f ↦ rw f refl ]

value_of-line :
    (key l : Bytes)
    → all is_text key ≡ true
    → all is_text l ≡ true
    → value_of key (before_char 0 (end_line l)) ≡ end_value (value_of key l)
value_of-line key l k h = ap (value_of key) (before_char-end l h) ∙ value_of-end key l k

strip_end-end : (v : Bytes) → strip_end (end_line v) ≡ strip_end v
unfolding strip_end strip_byte
strip_end-end [] = refl
strip_end-end (c ∷ v) = ap (strip_byte c) (strip_end-end v)

-- Settings as lines: the first line of the key, without the carriage returns behind it.
unfoldable pub find_line : Bytes → List Bytes → Option Bytes
unfolding pick_value
find_line key [] = none
find_line key (l ∷ ls) = pick_value (value_of key l) (find_line key ls)

abbrev pub is_setting : Option Bytes → Bool → Bool
is_setting none b = b
is_setting (some v) b = true

unfoldable pub has_line : Bytes → List Bytes → Bool
has_line key [] = false
has_line key (l ∷ ls) = is_setting (value_of key l) (has_line key ls)

abbrev pub replaced : Option Bytes → Bytes → Bytes → Bytes
replaced none new l = l
replaced (some v) new l = new

-- Every line of the key becomes the new setting.
unfoldable pub replace_lines : Bytes → Bytes → List Bytes → List Bytes
replace_lines key value [] = []
replace_lines key value (l ∷ ls) =
    replaced (value_of key l) (setting key value) l ∷ replace_lines key value ls

-- Settings as lines: the lines of the key replaced, or one appended when there is none.
unfoldable pub update : Bytes → Bytes → List Bytes → List Bytes
unfolding replace_lines has_line
update key value ls =
    replace_lines key value ls ++ (if has_line key ls then [] else setting key value ∷ [])

pick_value-end : (o rest : Option Bytes) → pick_value (end_value o) rest ≡ pick_value o rest
unfolding pick_value
pick_value-end none rest = refl
pick_value-end (some v) rest = ap some (strip_end-end v)

pub find_value-map :
    (key : Bytes) (ls : List Bytes)
    → all is_text key ≡ true
    → All IsLine ls
    → find_value key (map end_line ls) ≡ find_line key ls
unfolding find_value find_line
find_value-map key [] k h = refl
find_value-map key (l ∷ ls) k h =
    ap₂ pick_value (value_of-line key l k h.0.0) (find_value-map key ls k h.1)
    ∙ pick_value-end (value_of key l) (find_line key ls)

copy_line-end :
    (new l : Bytes) (o : Option Bytes) (b : Bool) (ls : List Bytes)
    → copy_line new (end_line l) (end_value o) (b, join_lines ls)
      ≡ (is_setting o b, join_lines (replaced o new l ∷ ls))
unfolding copy_line join_lines
copy_line-end new l none b ls = ap (λ t. (b, t)) (append_assoc l (10 ∷ []) (join_lines ls))
copy_line-end new l (some v) b ls = refl

pub copy_lines-map :
    (key value : Bytes) (ls : List Bytes)
    → all is_text key ≡ true
    → All IsLine ls
    → copy_lines key value (map end_line ls)
      ≡ (has_line key ls, join_lines (replace_lines key value ls))
unfolding copy_lines has_line replace_lines join_lines
copy_lines-map key value [] k h = refl
copy_lines-map key value (l ∷ ls) k h =
    rw (copy_lines-map key value ls k h.1, value_of-line key l k h.0.0, before_char-end l h.0.0)
      (copy_line-end (setting key value) l (value_of key l) (has_line key ls)
        (replace_lines key value ls))

join_lines-append : (xs ys : List Bytes) → join_lines (xs ++ ys) ≡ join_lines xs ++ join_lines ys
unfolding join_lines
join_lines-append [] ys = refl
join_lines-append (x ∷ xs) ys =
    rw (join_lines-append xs ys) (sym (append_assoc x (10 ∷ join_lines xs) (join_lines ys)))

-- What is written is the updated settings.
pub finish-update :
    (key value : Bytes) (ls : List Bytes)
    → finish key value (has_line key ls, join_lines (replace_lines key value ls))
      ≡ join_lines (update key value ls)
unfolding finish update join_lines
finish-update key value ls = elim (Bool-cases (has_line key ls)) [
  | inl e ↦ rw e (ap join_lines (sym (append-nil (replace_lines key value ls))))
  | inr e ↦ rw e (sym (join_lines-append (replace_lines key value ls) (setting key value ∷ [])))
]
