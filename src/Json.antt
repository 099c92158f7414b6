-- ===== src/Json.antt =====
-- libbb/bb_json.c: the JSON writer over a caller's buffer, and the getters that search a text.
pub mod Build
pub mod Object
pub mod Overrun
pub mod Getters
mod Tests
use nxp_imx95_building_block.Common.{
  ℕ, zero, suc, ◌+◌, ◌-◌, ◌*◌, ◌/◌, ◌%◌, ◌^◌, ◌≤◌, ◌<◌, min, ◌≡◌, refl, sym, ap, ap₂, subst, ◌∙◌,
  ◌≢◌, ◌↔◌, ◌⊎◌, inl, inr, Bool, true, false, not, ◌&&◌, ◌||◌, Option, none, some, List, [], ◌∷◌,
  ◌++◌, map, append-nil, append_assoc, arith, ltb, leb, ◌==◌, if◌then◌else◌, ltb→lt, lt→ltb,
  le→not_ltb, leb→le, le→leb, ==_iff, ==_self, ==_ne, tests, Bool-cases, Option-cases, length,
  get_elem?, get_or, set, take, drop, replicate, length-append, length-set, get_elem?-set_self,
  get_elem?-set_ne, get_elem?_lt, get_elem?_ge, lt_of_get_elem?, take-append-drop, length-take,
  length-drop, take_all, drop_all, take-append_length, drop-append_length, length-replicate,
  length-map, All, All-append, length-take_le, All-take, All-drop, All-set, All-get, Bytes, codes,
  str_eq, starts_with, str_eq_refl, str_eq→eq, str_eq_ne, starts_with-append, all, all-append, ℤ,
  pos, negsuc, pos_part, neg_part, ltb_ℤ, leb_ℤ, eq_ℤ, sub_ℕ, ◌+ℤ◌, ◌-ℤ◌, int_max, fetch_inc,
  fetch_dec, fetch_inc_lt, fetch_dec_pos, is_space, skip_space, token, after_char, before_char,
  from_last, Files, write_file, delete_file, rename_file, extend_line, read_lines, read-write,
  read-write_ne, read-rename, read-rename_ne, is_digit, pow10, digits, decimal, print_int,
  scan_digits, no_digit, scan_digits-decimal, scan_digits-stop, signed_value, scan_int,
  length-digits, length-print_int, after_match, IsFirst, after_match-first, occurs, lower,
  after_match_case, push_token, scan_tokens, tokens, scan_number, unsigned_of, scan_u64, scan_u32,
  scan_char, scan_number-decimal, scan_u64-decimal, scan_u32-decimal, scan_number-print_int,
  scan_number-space, lacks, IsFirst-lacks, IsFirst-append, is_first, IsFirst-test, digits-lacks,
  decimal-lacks, after_match-append, before_char-lacks, after_char-lacks,
}

-- `bb_json_writer_t`, with the cells of the buffer.
pub record Writer : Type 0 where
  pub buf : Bytes
  pub size : ℕ
  pub pos : ℕ

-- Bytes stored from a place on; what would lie behind the last cell is dropped.
unfoldable pub store : ℕ → Bytes → Bytes → Bytes
store n text [] = []
store zero [] (c ∷ cells) = c ∷ cells
store zero (d ∷ text) (c ∷ cells) = d ∷ store zero text cells
store (suc n) text (c ∷ cells) = c ∷ store n text cells

-- `bb_json_init`: the buffer is size cells long, and the first is written; none is a write outside it.
unfoldable pub json_init : Bytes → Option Writer
unfolding store
json_init [] = none
json_init (c ∷ cells) = some (record { buf = 0 ∷ cells; size = length (c ∷ cells); pos = 0 })

-- `w->buf[w->pos++] = c`, when it is inside
unfoldable pub put : ℕ → Writer → Writer
unfolding store
put c w =
    if ltb w.pos w.size then record w { buf = store w.pos (c ∷ []) w.buf; pos = w.pos + 1 } else w

-- `bb_json_start_object`
unfoldable pub start_object : Writer → Writer
unfolding put
start_object w = put 123 w

-- `snprintf(w->buf + w->pos, w->size - w->pos, ...)` and `w->pos += n`, of a text that is printed.
-- Behind the end of the buffer the room is a difference below 0, which is a large number: the text
-- is written outside the buffer, which is none.
unfoldable pub print : Bytes → Writer → Option Writer
unfolding store
print text w =
    if leb w.pos w.size
    then some (record w {
      buf =
          if w.pos == w.size
          then w.buf
          else store w.pos (take (w.size - w.pos - 1) text ++ 0 ∷ []) w.buf;
      pos = w.pos + length text;
    })
    else none

unfoldable pub then_print : Bytes → Option Writer → Option Writer
unfolding print
then_print text none = none
then_print text (some w) = print text w

-- `add_key`
unfoldable pub add_key : Bytes → Writer → Option Writer
unfolding print
add_key key w = print (34 ∷ key ++ codes "\":") w

-- `bb_json_add_string`; a NULL value is the empty string.
unfoldable pub add_string : Bytes → Option Bytes → Writer → Option Writer
unfolding then_print add_key
add_string key none w = then_print (codes "\"\",") (add_key key w)
add_string key (some val) w = then_print (34 ∷ val ++ codes "\",") (add_key key w)

-- `bb_json_add_int`
unfoldable pub add_int : Bytes → ℤ → Writer → Option Writer
unfolding then_print add_key
add_int key val w = then_print (print_int val ++ codes ",") (add_key key w)

-- `bb_json_add_bool`
unfoldable pub add_bool : Bytes → Bool → Writer → Option Writer
unfolding then_print add_key
add_bool key val w = then_print (if val then codes "true," else codes "false,") (add_key key w)

-- `if (w->pos > 1 && w->buf[w->pos - 1] == ',') w->pos--`; the byte is read outside the buffer when
-- the position is behind its end, which is none.
unfoldable pub drop_comma : Writer → Option Writer
drop_comma w =
    if ltb 1 w.pos
    then elim (get_elem? w.buf (w.pos - 1)) [
      | none ↦ none
      | some c ↦ some (if c == 44 then record w { pos = w.pos - 1 } else w)
    ]
    else some w

-- The rest of `bb_json_end_object`.
unfoldable pub close_object : Option Writer → Option Writer
unfolding put store
close_object none = none
close_object (some w) =
    let v = put 125 w in
    some (if ltb v.pos v.size then record v { buf = store v.pos (0 ∷ []) v.buf } else v)

-- `bb_json_end_object`
unfoldable pub end_object : Writer → Option Writer
unfolding drop_comma close_object
end_object w = close_object (drop_comma w)

-- `while (*p == ' ' || *p == ':') p++`
unfoldable pub skip_colon : Bytes → Bytes
skip_colon [] = []
skip_colon (c ∷ s) = let rest = skip_colon s in if (c == 32) || (c == 58) then rest else c ∷ s

abbrev skip_found : Option Bytes → Option Bytes
skip_found none = none
skip_found (some s) = some (skip_colon s)

-- `find_key`: the pattern is cut to 127 bytes.
unfoldable pub find_key : Bytes → Bytes → Option Bytes
unfolding after_match skip_colon
find_key json key = skip_found (after_match (take 127 (34 ∷ key ++ 34 ∷ [])) json)

unfoldable pub unescape : ℕ → ℕ
unescape c = if c == 110 then 10 else if c == 116 then 9 else c

-- The loop of `bb_json_get_string`, with the room that is left in its buffer.
unfoldable pub copy_string : ℕ → Bytes → Bytes
unfolding unescape
copy_string zero s = []
copy_string (suc n) [] = []
copy_string (suc n) (c ∷ []) = if c == 34 then [] else c ∷ []
copy_string (suc n) (c ∷ d ∷ s) =
    let more = copy_string n (if c == 92 then s else d ∷ s) in
    if c == 34 then [] else (if c == 92 then unescape d else c) ∷ more

unfoldable pub string_at : Option Bytes → Option Bytes
unfolding copy_string
string_at none = none
string_at (some []) = none
string_at (some (c ∷ s)) = if c == 34 then some (copy_string 255 s) else none

-- `bb_json_get_string`
unfoldable pub get_string : Bytes → Bytes → Option Bytes
unfolding find_key string_at
get_string json key = string_at (find_key json key)

unfoldable pub bool_at : Option Bytes → ℤ → ℤ
bool_at none default = default
bool_at (some s) default =
    if starts_with (codes "true") s
    then pos 1
    else if starts_with (codes "false") s
    then pos 0
    else default

-- `bb_json_get_bool`
unfoldable pub get_bool : Bytes → Bytes → ℤ → ℤ
unfolding find_key bool_at
get_bool json key default = bool_at (find_key json key) default

abbrev int_at : Option Bytes → ℤ → ℤ
int_at none default = default
int_at (some s) default = scan_int s

-- `bb_json_get_int`
unfoldable pub get_int : Bytes → Bytes → ℤ → ℤ
unfolding find_key scan_int
get_int json key default = int_at (find_key json key) default
