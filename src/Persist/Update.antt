-- ===== src/Persist/Update.antt =====
-- libbb/bb_persist.c: what a setting reads as after `bb_persist_config_set`, in all its outcomes.
use nxp_imx95_building_block.Persist.{
  get_from, System, config_path, tmp_path, value_of, strip_end, pick_value, config_get, setting,
  copy_from, finish, config_set,
}
use nxp_imx95_building_block.Persist.Lines.{IsLine, find_line, has_line, replace_lines, update}
use nxp_imx95_building_block.Persist.Config.{
  Holds, IsWorking, config_get_lem, config_set_lem, config_path_ne_tmp, text_key,
}
use nxp_imx95_building_block.Framing.{is_text}
use nxp_imx95_building_block.Common.{
  ◌<◌, ◌≡◌, refl, sym, ap, ap₂, subst, ◌∙◌, ◌≢◌, inl, inr, Bool, true, false, not, ◌&&◌, none, some,
  List, [], ◌∷◌, ◌++◌, arith, ◌==◌, if◌then◌else◌, ==_self, Bool-cases, Option-cases, length, Bytes,
  all, pos, negsuc, Files, write_file, read-write_ne,
}

-- A key without `=`.
abbrev pub is_key : Bytes → Bool
is_key key = all (λ c. not (c == 61)) key

pub value_of-setting : (key value : Bytes) → value_of key (setting key value) ≡ some value
unfolding value_of
value_of-setting [] value = refl
value_of-setting (k ∷ ks) value = rw (==_self k) (value_of-setting ks value)

pub value_of-other :
    (j key value : Bytes)
    → is_key j ≡ true
    → is_key key ≡ true
    → j ≢ key
    → value_of j (setting key value) ≡ none
unfolding value_of all
value_of-other [] [] value a b h = absurd (h refl)
value_of-other [] (k ∷ ks) value a b h = ground arith
value_of-other (j ∷ js) [] value a b h = ground arith
value_of-other (j ∷ js) (k ∷ ks) value a b h = elim (Bool-cases (j == k)) [
  | inl e ↦ rw e (
      value_of-other js ks value (ground arith) (ground arith)
        (λ t. h (ap₂ ◌∷◌ (ground (arith, e)) t)))
  | inr e ↦ rw e refl
]

pub find_line-update_self :
    (key value : Bytes) (ls : List Bytes)
    → find_line key (update key value ls) ≡ some (strip_end value)
unfolding find_line update replace_lines has_line pick_value
find_line-update_self key value [] = rw (value_of-setting key value) refl
find_line-update_self key value (l ∷ ls) = elim (Option-cases (value_of key l)) [
  | inl e ↦ rw e (rw e (find_line-update_self key value ls))
  | inr (v, e) ↦ rw e (rw (value_of-setting key value) refl)
]

setting-value_of : (key l v : Bytes) → value_of key l ≡ some v → l ≡ setting key v
unfolding value_of
setting-value_of [] [] v h = cc
setting-value_of [] (c ∷ l) v h = ground arith
setting-value_of (k ∷ ks) [] v h = cc
setting-value_of (k ∷ ks) (c ∷ l) v h = elim (Bool-cases (k == c)) [
  | inl e ↦
      ap₂ ◌∷◌ (ground (arith, e))
        (setting-value_of ks l v (subst (λ b. (if b then value_of ks l else none) ≡ some v) e h))
  | inr e ↦ absurd (none≢some (subst (λ b. (if b then value_of ks l else none) ≡ some v) e h))
]
  where
    none≢some : none ≢ some v
    none≢some t = cc

module _ (j key value : Bytes) (a : is_key j ≡ true) (b : is_key key ≡ true) (h : j ≢ key) where
  find_line-replace :
      (ls tail : List Bytes)
      → find_line j tail ≡ none
      → find_line j (replace_lines key value ls ++ tail) ≡ find_line j ls
  unfolding find_line replace_lines pick_value
  find_line-replace [] tail t = t
  find_line-replace (l ∷ ls) tail t = elim (Option-cases (value_of key l)) [
    | inl e ↦ rw e (ap (pick_value (value_of j l)) (find_line-replace ls tail t))
    | inr (v, e) ↦
        let other : value_of j l ≡ none =
          ap (value_of j) (setting-value_of key l v e) ∙ value_of-other j key v a b h in
        rw (e, value_of-other j key value a b h, other) (find_line-replace ls tail t)
  ]

  find_line-added : (o : Bool) → find_line j (if o then [] else setting key value ∷ []) ≡ none
  unfolding find_line pick_value
  find_line-added true = refl
  find_line-added false = rw (value_of-other j key value a b h) refl

  pub find_line-update_ne : (ls : List Bytes) → find_line j (update key value ls) ≡ find_line j ls
  unfolding update
  find_line-update_ne ls =
      find_line-replace ls (if has_line key ls then [] else setting key value ∷ [])
        (find_line-added (has_line key ls))

-- A setting that was written is read back, when the files open, the disk takes the text and the file
-- is renamed: the file
-- before is missing or made of lines of at most 510 bytes without NUL, the new line is such a line,
-- the name of the settings is shorter than 234 bytes and the value does not end in a carriage return.
pub config_get-set :
    (sys : System) (files : Files) (ns key value : Bytes) (ls : List Bytes)
    → IsWorking sys
    → Holds (files (config_path ns)) ls
    → length ns < 234
    → IsLine (setting key value)
    → strip_end value ≡ value
    → config_get (config_set sys files ns key value).1 ns key ≡ some value
config_get-set sys files ns key value ls w h n s e =
    config_get_lem (config_set sys files ns key value).1 ns key (update key value ls)
      (config_set_lem sys files ns key value ls w h n s).1 (text_key key value s.0)
    ∙ find_line-update_self key value ls
    ∙ ap some e

-- Under the same conditions on the calls and the files, writing a setting does not change what any other key of
-- that file reads as, for keys that do not hold `=`.
pub config_get-set_ne :
    (sys : System) (files : Files) (ns j key value : Bytes) (ls : List Bytes)
    → IsWorking sys
    → Holds (files (config_path ns)) ls
    → length ns < 234
    → IsLine (setting key value)
    → all is_text j ≡ true
    → is_key j ≡ true
    → is_key key ≡ true
    → j ≢ key
    → config_get (config_set sys files ns key value).1 ns j ≡ config_get files ns j
config_get-set_ne sys files ns j key value ls w h n s t a b ne =
    config_get_lem (config_set sys files ns key value).1 ns j (update key value ls)
      (config_set_lem sys files ns key value ls w h n s).1 t
    ∙ find_line-update_ne j key value a b ne ls
    ∙ sym (config_get_lem files ns j ls h t)

-- When the temporary file does not open, -1 is returned; when it opens but is not renamed, 0 is
-- returned all the same. In both cases every setting of that file reads as before, for names shorter
-- than 234 bytes.
pub config_set_unwritten :
    (sys : System) (files : Files) (ns key value j : Bytes)
    → length ns < 234
    → (sys.opens_tmp && sys.renames) ≡ false
    → ((config_set sys files ns key value).0 ≡ (if sys.opens_tmp then pos 0 else negsuc 0))
      × (config_get (config_set sys files ns key value).1 ns j ≡ config_get files ns j)
unfolding config_set config_get
config_set_unwritten sys files ns key value j n f =
    let t = tmp_path (config_path ns) in
    let apart : config_path ns ≢ t = λ e. config_path_ne_tmp ns n (sym e) in
    let opens = write_file t [] files in
    let old = if sys.opens_old then files (config_path ns) else none in
    let body = sys.stored (finish key value (copy_from old (opens (config_path ns)) key value)) in
    let kept : write_file t body opens (config_path ns) ≡ files (config_path ns) =
      read-write_ne t body opens apart ∙ read-write_ne t [] files apart in
    elim (Bool-cases sys.opens_tmp) [
      | inr e ↦ rw e (refl, refl)
      | inl e ↦
          let r : sys.renames ≡ false = ground arith in
          rw (e, r) (refl, ap (λ c. get_from c j) kept)
    ]
