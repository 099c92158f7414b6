-- ===== src/Persist/Mfg.antt =====
-- libbb/bb_persist.c: the manufacturing data, read from its partition, checked and kept.
pub mod Checked
use nxp_imx95_building_block.Common.{
  ℕ, zero, suc, ◌+◌, ◌-◌, ◌*◌, ◌/◌, ◌%◌, ◌^◌, ◌≤◌, ◌<◌, min, ◌≡◌, refl, sym, ap, ap₂, subst, ◌∙◌,
  ◌≢◌, ◌↔◌, ◌⊎◌, inl, inr, Bool, true, false, not, ◌&&◌, ◌||◌, Option, none, some, List, [], ◌∷◌,
  ◌++◌, map, append-nil, append_assoc, arith, ltb, leb, ◌==◌, if◌then◌else◌, ltb→lt, lt→ltb,
  le→not_ltb, leb→le, le→leb, ==_iff, ==_self, ==_ne, tests, Bool-cases, Option-cases, length,
  get_elem?, get_or, set, take, drop, replicate, length-append, length-set, get_elem?-set_self,
  get_elem?-set_ne, get_elem?_lt, get_elem?_ge, lt_of_get_elem?, take-append-drop, length-take,
  length-drop, take_all, drop_all, take-append_length, drop-append_length, length-replicate,
  length-map, All, All-append, length-take_le, All-take, All-drop, All-set, All-get, Bytes, codes,
  str_eq, starts_with, str_eq_refl, str_eq→eq, str_eq_ne, starts_with-append, all, all-append, ℤ,
  pos, negsuc, pos_part, neg_part, ltb_ℤ, leb_ℤ, eq_ℤ, sub_ℕ, ◌+ℤ◌, ◌-ℤ◌, int_max, fetch_inc,
  fetch_dec, fetch_inc_lt, fetch_dec_pos, is_space, skip_space, token, after_char, before_char,
  from_last, Files, write_file, delete_file, rename_file, extend_line, read_lines, read-write,
  read-write_ne, read-rename, read-rename_ne, is_digit, pow10, digits, decimal, print_int,
  scan_digits, no_digit, scan_digits-decimal, scan_digits-stop, signed_value, scan_int,
  length-digits, length-print_int, after_match, IsFirst, after_match-first, occurs, lower,
  after_match_case, push_token, scan_tokens, tokens, scan_number, unsigned_of, scan_u64, scan_u32,
  scan_char, scan_number-decimal, scan_u64-decimal, scan_u32-decimal, scan_number-print_int,
  scan_number-space, lacks, IsFirst-lacks, IsFirst-append, is_first, IsFirst-test, digits-lacks,
  decimal-lacks, after_match-append, before_char-lacks, after_char-lacks,
}
use Prim.Native.Nat.{bit_xor}

-- `sizeof(bb_mfg_data_t)`, which is packed.
abbrev pub mfg_size : ℕ
mfg_size = 192

-- `g_mfg_loaded` and the bytes of `g_mfg`.
pub record Mfg : Type 0 where
  pub loaded : Bool
  pub g_mfg : Bytes

abbrev pub crc_step : ℕ → ℕ
crc_step crc = bit_xor (crc / 2) (if crc % 2 == 1 then 0xEDB88320 else 0)

-- `for (int j = 0; j < 8; j++)`
unfoldable pub crc_steps : ℕ → ℕ → ℕ
crc_steps zero crc = crc
crc_steps (suc n) crc = crc_steps n (crc_step crc)

-- The loop over the bytes in front of the checksum.
unfoldable pub crc_bytes : Bytes → ℕ → ℕ
unfolding crc_steps
crc_bytes [] crc = crc
crc_bytes (c ∷ s) crc = crc_bytes s (crc_steps 8 (bit_xor crc c))

-- A field of a `uint32_t`, the lowest byte first.
unfoldable pub little_endian : Bytes → ℕ
little_endian [] = 0
little_endian (c ∷ s) = c + 256 * little_endian s

-- `crc == out->crc32`
unfoldable pub crc_matches : Bytes → Bool
unfolding crc_bytes little_endian
crc_matches out = crc_bytes (take (mfg_size - 4) out) 0 == little_endian (drop (mfg_size - 4) out)

abbrev pub checked : Bytes → Mfg → ℤ × Bytes × Mfg
checked out m =
    if crc_matches out
    then (pos 0, out, record { loaded = true; g_mfg = out })
    else (negsuc 0, out, m)

-- What `read` stores into `out`.
abbrev pub overlay : Bytes → Bytes → Bytes
overlay got out = got ++ drop (length got) out

abbrev pub read_device : Option Bytes → Bytes → Mfg → ℤ × Bytes × Mfg
read_device none out m = (negsuc 0, out, m)
read_device (some content) out m =
    let got = take mfg_size content in
    if length got == mfg_size then checked (overlay got out) m else (negsuc 0, overlay got out, m)

-- `bb_mfg_read`: the value returned, what is left in `out`, and the state. The device opens with its
-- content or does not; a read that fails stores nothing, as an empty device.
unfoldable pub mfg_read : Option Bytes → Bytes → Mfg → ℤ × Bytes × Mfg
unfolding crc_matches
mfg_read device out m = if m.loaded then (pos 0, m.g_mfg, m) else read_device device out m

-- `if (!g_mfg_loaded) bb_mfg_read(&g_mfg)`: the caller's array is `g_mfg` itself.
unfoldable pub mfg_load : Option Bytes → Mfg → Mfg
unfolding mfg_read
mfg_load device m =
    let r = mfg_read device m.g_mfg m in
    if m.loaded then m else record { loaded = r.2.loaded; g_mfg = r.1 }

-- The string from a place in the struct on.
abbrev pub field_at : ℕ → Mfg → Bytes
field_at place m = before_char 0 (drop place m.g_mfg)

-- `bb_mfg_serial`
unfoldable pub mfg_serial : Option Bytes → Mfg → Bytes × Mfg
unfolding mfg_load
mfg_serial device m = let n = mfg_load device m in (field_at 0 n, n)

-- `bb_mfg_hw_revision`
unfoldable pub mfg_hw_revision : Option Bytes → Mfg → Bytes × Mfg
unfolding mfg_load
mfg_hw_revision device m = let n = mfg_load device m in (field_at 44 n, n)

-- `bb_mfg_part_number`
unfoldable pub mfg_part_number : Option Bytes → Mfg → Bytes × Mfg
unfolding mfg_load
mfg_part_number device m = let n = mfg_load device m in (field_at 92 n, n)
