-- ===== src/Web/Builder.antt =====
-- services/bb-webd.c: the JSON builder (`jw_t`). The buffer is the text in it, which has its NUL
-- behind it; the position is the length of the text.
pub mod Writes
pub mod Bounds
pub mod Escape
pub mod Objects
use nxp_imx95_building_block.Common.{
  ℕ, zero, suc, ◌+◌, ◌-◌, ◌*◌, ◌/◌, ◌%◌, ◌^◌, ◌≤◌, ◌<◌, min, ◌≡◌, refl, sym, ap, ap₂, subst, ◌∙◌,
  ◌≢◌, ◌↔◌, ◌⊎◌, inl, inr, Bool, true, false, not, ◌&&◌, ◌||◌, Option, none, some, List, [], ◌∷◌,
  ◌++◌, map, append-nil, append_assoc, arith, ltb, leb, ◌==◌, if◌then◌else◌, ltb→lt, lt→ltb,
  le→not_ltb, leb→le, le→leb, ==_iff, ==_self, ==_ne, tests, Bool-cases, Option-cases, length,
  get_elem?, get_or, set, take, drop, replicate, length-append, length-set, get_elem?-set_self,
  get_elem?-set_ne, get_elem?_lt, get_elem?_ge, lt_of_get_elem?, take-append-drop, length-take,
  length-drop, take_all, drop_all, take-append_length, drop-append_length, length-replicate,
  length-map, All, All-append, Bytes, codes, str_eq, starts_with, str_eq_refl, str_eq→eq, str_eq_ne,
  starts_with-append, all, all-append, ℤ, pos, negsuc, pos_part, neg_part, ltb_ℤ, leb_ℤ, eq_ℤ,
  sub_ℕ, ◌+ℤ◌, ◌-ℤ◌, int_max, fetch_inc, fetch_dec, fetch_inc_lt, fetch_dec_pos, is_space,
  skip_space, token, after_char, before_char, Files, write_file, delete_file, rename_file,
  extend_line, read_lines, read-write, read-write_ne, read-rename, read-rename_ne, is_digit, pow10,
  digits, decimal, print_int, scan_digits, no_digit, scan_digits-decimal, scan_digits-stop,
  signed_value, scan_int, after_match, IsFirst, after_match-first, occurs, lower, after_match_case,
  push_token, scan_tokens, tokens,
}

-- `jw_t`
pub record Jw : Type 0 where
  pub text : Bytes
  pub cap : ℕ
  pub first : Bool

-- `jw_init`
abbrev pub jw_init : ℕ → Jw
jw_init cap = record { text = []; cap = cap; first = true }

-- `jw_raw`
unfoldable pub jw_raw : Bytes → Jw → Jw
jw_raw s j = if ltb (length j.text + length s) j.cap then record j { text = j.text ++ s } else j

unfoldable pub jw_obj_start : Jw → Jw
unfolding jw_raw
jw_obj_start j = record (jw_raw (codes "{") j) { first = true }

unfoldable pub jw_obj_end : Jw → Jw
unfolding jw_raw
jw_obj_end j = record (jw_raw (codes "}") j) { first = false }

unfoldable pub jw_arr_start : Jw → Jw
unfolding jw_raw
jw_arr_start j = record (jw_raw (codes "[") j) { first = true }

unfoldable pub jw_arr_end : Jw → Jw
unfolding jw_raw
jw_arr_end j = record (jw_raw (codes "]") j) { first = false }

unfoldable pub jw_comma : Jw → Jw
unfolding jw_raw
jw_comma j = record (if j.first then j else jw_raw (codes ",") j) { first = false }

-- The key, as the three functions that add a member write it.
abbrev jw_key : Bytes → Jw → Jw
jw_key k j = jw_raw k (jw_raw (codes "\"") (jw_comma j))

unfoldable pub jw_kv_str : Bytes → Bytes → Jw → Jw
unfolding jw_raw jw_comma
jw_kv_str k v j = jw_raw (codes "\"") (jw_raw v (jw_raw (codes "\":\"") (jw_key k j)))

unfoldable pub jw_kv_int : Bytes → ℤ → Jw → Jw
unfolding jw_raw jw_comma
jw_kv_int k v j = jw_raw (print_int v) (jw_raw (codes "\":") (jw_key k j))

-- The second argument is the number as `%.2f` prints it.
unfoldable pub jw_kv_double : Bytes → Bytes → Jw → Jw
unfolding jw_raw jw_comma
jw_kv_double k num j = jw_raw num (jw_raw (codes "\":") (jw_key k j))

-- The default case of `json_escape_str`.
unfoldable pub jw_push : ℕ → Jw → Jw
jw_push c j = if ltb (length j.text + 1) j.cap then record j { text = j.text ++ c ∷ [] } else j

-- The switch of `json_escape_str`.
unfoldable pub escape_byte : ℕ → Jw → Jw
unfolding jw_raw jw_push
escape_byte c j =
    if c == 34
    then jw_raw (92 ∷ 34 ∷ []) j
    else if c == 92
    then jw_raw (92 ∷ 92 ∷ []) j
    else if c == 10
    then jw_raw (92 ∷ 110 ∷ []) j
    else if c == 13
    then jw_raw (92 ∷ 114 ∷ []) j
    else if c == 9
    then jw_raw (92 ∷ 116 ∷ []) j
    else jw_push c j

-- The loop of `json_escape_str`.
unfoldable pub escape_bytes : Bytes → Jw → Jw
unfolding escape_byte
escape_bytes [] j = j
escape_bytes (c ∷ s) j = escape_bytes s (escape_byte c j)

-- `json_escape_str`
unfoldable pub json_escape_str : Bytes → Jw → Jw
unfolding escape_bytes jw_raw
json_escape_str s j = jw_raw (codes "\"") (escape_bytes s (jw_raw (codes "\"") j))

-- A call that adds a member; a number that `%.2f` prints comes as its text.
pub data Call : Type 0 where
  kv_str : Bytes → Bytes → Call
  kv_int : Bytes → ℤ → Call
  kv_double : Bytes → Bytes → Call

unfoldable pub run_call : Call → Jw → Jw
unfolding jw_kv_str jw_kv_int jw_kv_double
run_call (kv_str k v) j = jw_kv_str k v j
run_call (kv_int k v) j = jw_kv_int k v j
run_call (kv_double k num) j = jw_kv_double k num j

-- Calls in their order.
unfoldable pub run_calls : List Call → Jw → Jw
unfolding run_call
run_calls [] j = j
run_calls (c ∷ cs) j = run_calls cs (run_call c j)

-- `jw_obj_start`, the calls that add members, `jw_obj_end`.
unfoldable pub build_object : List Call → Jw → Jw
unfolding run_calls jw_obj_start jw_obj_end
build_object cs j = jw_obj_end (run_calls cs (jw_obj_start j))

-- The objects of an array, each behind a comma as `first` says.
unfoldable pub build_objects : List (List Call) → Jw → Jw
unfolding build_object jw_comma
build_objects [] j = j
build_objects (o ∷ os) j = build_objects os (build_object o (jw_comma j))

-- `jw_arr_start`, an object for each entry, `jw_arr_end`.
unfoldable pub build_array : List (List Call) → Jw → Jw
unfolding build_objects jw_arr_start jw_arr_end
build_array os j = jw_arr_end (build_objects os (jw_arr_start j))
