-- ===== src/Persist.antt =====
-- libbb/bb_persist.c: the settings kept in /persist/config/<namespace>.conf.
pub mod Lines
pub mod Config
pub mod Update
mod Unended
pub mod Logs
pub mod Mfg
pub mod Mount
mod Tests
use nxp_imx95_building_block.Common.{
  ℕ, zero, suc, ◌+◌, ◌-◌, ◌*◌, ◌/◌, ◌%◌, ◌^◌, ◌≤◌, ◌<◌, min, ◌≡◌, refl, sym, ap, ap₂, subst, ◌∙◌,
  ◌≢◌, ◌↔◌, ◌⊎◌, inl, inr, Bool, true, false, not, ◌&&◌, ◌||◌, Option, none, some, List, [], ◌∷◌,
  ◌++◌, map, append-nil, append_assoc, arith, ltb, leb, ◌==◌, if◌then◌else◌, ltb→lt, lt→ltb,
  le→not_ltb, leb→le, le→leb, ==_iff, ==_self, ==_ne, tests, Bool-cases, Option-cases, length,
  get_elem?, get_or, set, take, drop, replicate, length-append, length-set, get_elem?-set_self,
  get_elem?-set_ne, get_elem?_lt, get_elem?_ge, lt_of_get_elem?, take-append-drop, length-take,
  length-drop, take_all, drop_all, take-append_length, drop-append_length, length-replicate,
  length-map, All, All-append, Bytes, codes, str_eq, starts_with, str_eq_refl, str_eq→eq, str_eq_ne,
  starts_with-append, all, all-append, ℤ, pos, negsuc, pos_part, neg_part, ltb_ℤ, leb_ℤ, eq_ℤ,
  sub_ℕ, ◌+ℤ◌, ◌-ℤ◌, int_max, fetch_inc, fetch_dec, fetch_inc_lt, fetch_dec_pos, is_space,
  skip_space, token, after_char, before_char, Files, write_file, delete_file, rename_file,
  extend_line, read_lines, read-write, read-write_ne, read-rename, read-rename_ne,
}

-- What the calls of the C library answer: whether a file that is there opens for reading, whether the
-- temporary file opens, what gets there of a text that is written (less than the text on a full
-- disk), and whether it is renamed.
pub record System : Type 0 where
  opens_old : Bool
  opens_tmp : Bool
  stored : Bytes → Bytes
  renames : Bool

-- `line[512]` holds 511 bytes and the NUL.
abbrev pub line_max : ℕ
line_max = 511

abbrev pub path_max : ℕ
path_max = 255

-- `snprintf(path, 256, PERSIST_ROOT "/config/%s.conf", ns)`
unfoldable pub config_path : Bytes → Bytes
config_path ns = take path_max (codes "/persist/config/" ++ (ns ++ codes ".conf"))

-- `snprintf(tmp, 256, "%s.tmp", path)`
unfoldable pub tmp_path : Bytes → Bytes
tmp_path path = take path_max (path ++ codes ".tmp")

-- `strncmp(line, key, klen) == 0 && line[klen] == '='`, with `line + klen + 1`
unfoldable pub value_of : Bytes → Bytes → Option Bytes
value_of [] [] = none
value_of [] (c ∷ s) = if c == 61 then some s else none
value_of (k ∷ ks) [] = none
value_of (k ∷ ks) (c ∷ s) = let rest = value_of ks s in if k == c then rest else none

-- One byte in front of a value whose line ends are cut off already.
unfoldable pub strip_byte : ℕ → Bytes → Bytes
strip_byte c [] = if (c == 10) || (c == 13) then [] else c ∷ []
strip_byte c (d ∷ s) = c ∷ d ∷ s

-- `while (vlen > 0 && (v[vlen-1] == '\n' || v[vlen-1] == '\r')) vlen--`
unfoldable pub strip_end : Bytes → Bytes
unfolding strip_byte
strip_end [] = []
strip_end (c ∷ s) = strip_byte c (strip_end s)

-- A match ends the search with its value, stripped.
unfoldable pub pick_value : Option Bytes → Option Bytes → Option Bytes
unfolding strip_end
pick_value none rest = rest
pick_value (some v) rest = some (strip_end v)

-- The loop of `bb_persist_config_get`.
unfoldable pub find_value : Bytes → List Bytes → Option Bytes
unfolding value_of pick_value
find_value key [] = none
find_value key (line ∷ ls) = pick_value (value_of key (before_char 0 line)) (find_value key ls)

-- What `bb_persist_config_get` finds in a file that it opened, or did not.
unfoldable pub get_from : Option Bytes → Bytes → Option Bytes
unfolding find_value
get_from none key = none
get_from (some content) key = find_value key (read_lines line_max line_max content)

-- `bb_persist_config_get`
unfoldable pub config_get : Files → Bytes → Bytes → Option Bytes
unfolding config_path get_from
config_get files ns key = get_from (files (config_path ns)) key

-- `fprintf(out, "%s=%s\n", key, value)`
abbrev pub setting : Bytes → Bytes → Bytes
setting key value = key ++ 61 ∷ value

-- A line is copied as it is, or the setting is written in its place.
unfoldable pub copy_line : Bytes → Bytes → Option Bytes → Bool × Bytes → Bool × Bytes
copy_line new line none rest = (rest.0, line ++ rest.1)
copy_line new line (some v) rest = (true, new ++ 10 ∷ rest.1)

-- The loop of `bb_persist_config_set`: `replaced`, and what is written.
unfoldable pub copy_lines : Bytes → Bytes → List Bytes → Bool × Bytes
unfolding value_of copy_line
copy_lines key value [] = (false, [])
copy_lines key value (line ∷ ls) =
    copy_line (setting key value) (before_char 0 line) (value_of key (before_char 0 line))
      (copy_lines key value ls)

-- The rest of the new file, from what the loop left.
unfoldable pub finish : Bytes → Bytes → Bool × Bytes → Bytes
finish key value (replaced, written) =
    if replaced then written else written ++ (setting key value ++ 10 ∷ [])

-- What `in` reads, when `in` was opened before `tmp` was truncated.
unfoldable pub copy_from : Option Bytes → Option Bytes → Bytes → Bytes → Bool × Bytes
unfolding copy_lines
copy_from none now key value = (false, [])
copy_from (some before) none key value = copy_lines key value (read_lines line_max line_max before)
copy_from (some before) (some now) key value =
    copy_lines key value (read_lines line_max line_max now)

-- `bb_persist_config_set`, with the value returned.
unfoldable pub config_set : System → Files → Bytes → Bytes → Bytes → ℤ × Files
unfolding config_path tmp_path copy_from finish
config_set sys files ns key value =
    let path = config_path ns in
    let tmp = tmp_path path in
    let old = if sys.opens_old then files path else none in
    let opened = write_file tmp [] files in
    let body = finish key value (copy_from old (opened path) key value) in
    let written = write_file tmp (sys.stored body) opened in
    if sys.opens_tmp
    then (pos 0, if sys.renames then rename_file tmp path written else written)
    else (negsuc 0, files)
