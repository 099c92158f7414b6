-- ===== src/Persist/Config.antt =====
-- libbb/bb_persist.c: `bb_persist_config_get` and `bb_persist_config_set` against settings as lines.
use nxp_imx95_building_block.Persist.{
  get_from, System, path_max, config_path, tmp_path, value_of, find_value, config_get, setting,
  copy_lines, copy_from, finish, config_set,
}
use nxp_imx95_building_block.Persist.Lines.{
  IsLine, read_lines-join, find_line, has_line, replace_lines, replaced, update, find_value-map,
  copy_lines-map, finish-update,
}
use nxp_imx95_building_block.Framing.{join_lines, is_text}
use nxp_imx95_building_block.Common.{
  ◌<◌, ◌≡◌, refl, sym, ap, subst, ◌∙◌, ◌≢◌, Bool, true, false, Option, none, some, List, [], ◌∷◌,
  ◌++◌, arith, if◌then◌else◌, length, take, length-append, length-take, All, All-append, Bytes,
  codes, all, all-append, pos, Files, write_file, rename_file, read-write, read-write_ne,
  read-rename, read-rename_ne,
}

-- What a settings file holds as lines; a file that is missing holds none.
abbrev pub Holds : Option Bytes → List Bytes → Type 0
Holds none ls = ls ≡ []
Holds (some content) ls = (content ≡ join_lines ls) × All IsLine ls

Holds-lines : (o : Option Bytes) (ls : List Bytes) → Holds o ls → All IsLine ls
Holds-lines none ls h = rw h tt
Holds-lines (some content) ls h = h.1

found :
    (o : Option Bytes) (ls : List Bytes) (key : Bytes)
    → Holds o ls
    → all is_text key ≡ true
    → get_from o key ≡ find_line key ls
unfolding find_line get_from
found none ls key h k = rw h refl
found (some content) ls key h k =
    rw h.0 (ap (find_value key) (read_lines-join ls h.1) ∙ find_value-map key ls k h.1)

-- Reading a setting gives the value of the first line that has its key, without the carriage
-- returns at its end, and NULL when no line has it or there is no file, provided the file is made
-- of lines of at most 510 bytes without NUL.
pub config_get_lem :
    (files : Files) (ns key : Bytes) (ls : List Bytes)
    → Holds (files (config_path ns)) ls
    → all is_text key ≡ true
    → config_get files ns key ≡ find_line key ls
unfolding config_get
config_get_lem files ns key ls h k = found (files (config_path ns)) ls key h k

pub config_path_ne_tmp : (ns : Bytes) → length ns < 234 → tmp_path (config_path ns) ≢ config_path ns
unfolding config_path tmp_path
config_path_ne_tmp ns h e =
    let whole = codes "/persist/config/" ++ (ns ++ codes ".conf") in
    omega (
      arith,
      ap length e,
      length-take path_max (take path_max whole ++ codes ".tmp"),
      length-append (take path_max whole) (codes ".tmp"),
      length-take path_max whole,
      length-append ns (codes ".conf"),
    )

copied :
    (o now : Option Bytes) (ls : List Bytes) (key value : Bytes)
    → Holds o ls
    → now ≡ o
    → all is_text key ≡ true
    → finish key value (copy_from o now key value) ≡ join_lines (update key value ls)
unfolding copy_from has_line join_lines replace_lines
copied o now ls key value h e k =
    subst (λ n. finish key value (copy_from o n key value) ≡ join_lines (update key value ls))
      (sym e) (go o h)
  where
    go :
        (o : Option Bytes)
        → Holds o ls
        → finish key value (copy_from o o key value) ≡ join_lines (update key value ls)
    go none h = rw h (finish-update key value [])
    go (some content) h = rw h.0 (
        ap (finish key value)
          (ap (copy_lines key value) (read_lines-join ls h.1) ∙ copy_lines-map key value ls k h.1)
        ∙ finish-update key value ls)

updated-IsLine :
    (key value : Bytes) (ls : List Bytes)
    → IsLine (setting key value)
    → All IsLine ls
    → All IsLine (update key value ls)
unfolding update replace_lines
updated-IsLine key value ls s h =
    All-append IsLine (replace_lines key value ls) _ (replaced_all ls h) (added (has_line key ls))
  where
    replaced_IsLine :
        (o : Option Bytes) (l : Bytes) → IsLine l → IsLine (replaced o (setting key value) l)
    replaced_IsLine none l h = h
    replaced_IsLine (some v) l h = s

    replaced_all : (ls : List Bytes) → All IsLine ls → All IsLine (replace_lines key value ls)
    replaced_all [] h = tt
    replaced_all (l ∷ ls) h = (replaced_IsLine (value_of key l) l h.0, replaced_all ls h.1)

    added : (b : Bool) → All IsLine (if b then [] else setting key value ∷ [])
    added true = tt
    added false = (s, tt)

-- Every call of the C library succeeds, and the disk takes all that is written.
pub record IsWorking (sys : System) : Type 0 where
  pub opens_old : sys.opens_old ≡ true
  pub opens_tmp : sys.opens_tmp ≡ true
  pub stored : (text : Bytes) → sys.stored text ≡ text
  pub renames : sys.renames ≡ true

module _ (sys : System) (files : Files) (ns key value : Bytes) where
  abbrev path : Bytes
  path = config_path ns

  abbrev tmp : Bytes
  tmp = tmp_path (config_path ns)

  abbrev opened : Files
  opened = write_file tmp [] files

  abbrev out : Bytes
  out = finish key value (copy_from (files path) (opened path) key value)

  config_set_done :
      IsWorking sys
      → config_set sys files ns key value
        ≡ (pos 0, rename_file tmp path (write_file tmp out opened))
  unfolding config_set
  config_set_done w =
      rw (w.opens_old, w.opens_tmp, w.renames)
        (ap (λ t. (pos 0, rename_file tmp path (write_file tmp t opened))) (w.stored out))

  out-update :
      (ls : List Bytes)
      → Holds (files path) ls
      → length ns < 234
      → all is_text key ≡ true
      → out ≡ join_lines (update key value ls)
  out-update ls h n k =
      copied (files path) (opened path) ls key value h
        (read-write_ne tmp [] files (λ e. config_path_ne_tmp ns n (sym e))) k

pub text_key : (key value : Bytes) → all is_text (setting key value) ≡ true → all is_text key ≡ true
text_key key value h = ground (arith, all-append is_text key (61 ∷ value))

-- Writing a setting, when the files open, the disk takes the text and the file is renamed, returns 0 and leaves a file of
-- lines in which every line of the key is replaced by key=value, or that line is appended when there
-- was none; it leaves every other file but the temporary one. The file before is missing or made of
-- lines of at most 510 bytes without NUL, the new line is such a line, and the name of the settings
-- is shorter than 234 bytes.
pub config_set_lem :
    (sys : System) (files : Files) (ns key value : Bytes) (ls : List Bytes)
    → IsWorking sys
    → Holds (files (config_path ns)) ls
    → length ns < 234
    → IsLine (setting key value)
    → ((config_set sys files ns key value).0 ≡ pos 0)
      × Holds ((config_set sys files ns key value).1 (config_path ns)) (update key value ls)
      × ((q : Bytes)
          → q ≢ config_path ns
          → q ≢ tmp_path (config_path ns)
          → (config_set sys files ns key value).1 q ≡ files q)
config_set_lem sys files ns key value ls w h n s =
    let done = config_set_done sys files ns key value w in
    let t = tmp_path (config_path ns) in
    let body = out sys files ns key value in
    let opens = opened sys files ns key value in
    let apart = config_path_ne_tmp ns n in
    let now = read-write t body opens in
    let new : rename_file t (config_path ns) (write_file t body opens) (config_path ns)
        ≡ some (join_lines (update key value ls)) =
      read-rename t (config_path ns) body (write_file t body opens) apart now
      ∙ ap some (out-update sys files ns key value ls h n (text_key key value s.0)) in
    rw done (
      refl,
      subst (λ c. Holds c (update key value ls)) (sym new)
          (refl, updated-IsLine key value ls s (Holds-lines (files (config_path ns)) ls h)),
      λ q p u.
          read-rename_ne t (config_path ns) body (write_file t body opens) apart now u p
          ∙ read-write_ne t body opens u
          ∙ read-write_ne t [] files u,
    )

-- The new file, from the old one alone.
pub written :
    (sys : System) (files : Files) (ns key value : Bytes)
    → IsWorking sys
    → length ns < 234
    → (config_set sys files ns key value).1 (config_path ns)
      ≡ some
          (finish key value (copy_from (files (config_path ns)) (files (config_path ns)) key value))
written sys files ns key value w n =
    let t = tmp_path (config_path ns) in
    let apart = config_path_ne_tmp ns n in
    let body = out sys files ns key value in
    let opens = opened sys files ns key value in
    rw (config_set_done sys files ns key value w) (
      read-rename t (config_path ns) body (write_file t body opens) apart (read-write t body opens)
      ∙ ap (λ now. some (finish key value (copy_from (files (config_path ns)) now key value)))
          (read-write_ne t [] files (λ e. apart (sym e))))
