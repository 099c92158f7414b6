-- ===== src/Persist/Logs.antt =====
-- libbb/bb_persist.c: the boot log and the update log, files to which a line is added for each entry.
pub mod Boot
pub mod Members
pub mod Update
use nxp_imx95_building_block.Common.{
  ℕ, zero, suc, ◌+◌, ◌-◌, ◌*◌, ◌/◌, ◌%◌, ◌^◌, ◌≤◌, ◌<◌, min, ◌≡◌, refl, sym, ap, ap₂, subst, ◌∙◌,
  ◌≢◌, ◌↔◌, ◌⊎◌, inl, inr, Bool, true, false, not, ◌&&◌, ◌||◌, Option, none, some, List, [], ◌∷◌,
  ◌++◌, map, append-nil, append_assoc, arith, ltb, leb, ◌==◌, if◌then◌else◌, ltb→lt, lt→ltb,
  le→not_ltb, leb→le, le→leb, ==_iff, ==_self, ==_ne, tests, Bool-cases, Option-cases, length,
  get_elem?, get_or, set, take, drop, replicate, length-append, length-set, get_elem?-set_self,
  get_elem?-set_ne, get_elem?_lt, get_elem?_ge, lt_of_get_elem?, take-append-drop, length-take,
  length-drop, take_all, drop_all, take-append_length, drop-append_length, length-replicate,
  length-map, All, All-append, length-take_le, All-take, All-drop, All-set, All-get, Bytes, codes,
  str_eq, starts_with, str_eq_refl, str_eq→eq, str_eq_ne, starts_with-append, all, all-append, ℤ,
  pos, negsuc, pos_part, neg_part, ltb_ℤ, leb_ℤ, eq_ℤ, sub_ℕ, ◌+ℤ◌, ◌-ℤ◌, int_max, fetch_inc,
  fetch_dec, fetch_inc_lt, fetch_dec_pos, is_space, skip_space, token, after_char, before_char,
  from_last, Files, write_file, delete_file, rename_file, extend_line, read_lines, read-write,
  read-write_ne, read-rename, read-rename_ne, is_digit, pow10, digits, decimal, print_int,
  scan_digits, no_digit, scan_digits-decimal, scan_digits-stop, signed_value, scan_int,
  length-digits, length-print_int, after_match, IsFirst, after_match-first, occurs, lower,
  after_match_case, push_token, scan_tokens, tokens, scan_number, unsigned_of, scan_u64, scan_u32,
  scan_char, scan_number-decimal, scan_u64-decimal, scan_u32-decimal, scan_number-print_int,
  scan_number-space, lacks, IsFirst-lacks, IsFirst-append, is_first, IsFirst-test, digits-lacks,
  decimal-lacks, after_match-append, before_char-lacks, after_char-lacks,
}

-- `bb_boot_entry_t`; a `char` is its byte.
pub record BootEntry : Type 0 where
  pub timestamp : ℕ
  pub slot : ℕ
  pub success : ℤ
  pub boot_time_ms : ℕ

-- `bb_update_entry_t`; a version is the string in its array.
pub record UpdateEntry : Type 0 where
  pub ts : ℕ
  pub from_version : Bytes
  pub to_version : Bytes
  pub target_slot : ℕ
  pub ok : ℤ

abbrev pub boot_log_path : Bytes
boot_log_path = codes "/persist/boot-count.log"

abbrev pub update_log_path : Bytes
update_log_path = codes "/persist/update-log.json"

abbrev pub text_of : Option Bytes → Bytes
text_of none = []
text_of (some content) = content

-- `fopen(path, "a")`, which opens or not, one `fprintf` and `fclose`, with the value returned.
unfoldable pub append_text : Bool → Bytes → Bytes → Files → ℤ × Files
append_text opens path text files =
    if opens
    then (pos 0, write_file path (text_of (files path) ++ text) files)
    else (negsuc 0, files)

-- `"%llu %c %d %u\n"`, without the line end.
unfoldable pub boot_line : BootEntry → Bytes
boot_line e =
    decimal e.timestamp ++ 32 ∷ e.slot ∷ 32 ∷ (print_int e.success ++ 32 ∷ decimal e.boot_time_ms)

-- `bb_persist_boot_log_add`
unfoldable pub boot_log_add : Bool → BootEntry → Files → ℤ × Files
unfolding append_text boot_line
boot_log_add opens e files = append_text opens boot_log_path (boot_line e ++ 10 ∷ []) files

abbrev boot_ms : ℕ → ℕ → ℤ → Option (ℕ × Bytes) → Option BootEntry
boot_ms ts slot success none = none
boot_ms ts slot success (some (ms, s)) =
    some (record { timestamp = ts; slot = slot; success = success; boot_time_ms = ms })

abbrev boot_success : ℕ → ℕ → Option (ℤ × Bytes) → Option BootEntry
boot_success ts slot none = none
boot_success ts slot (some (v, s)) = boot_ms ts slot v (scan_u32 s)

abbrev boot_slot : ℕ → Option (ℕ × Bytes) → Option BootEntry
boot_slot ts none = none
boot_slot ts (some (c, s)) = boot_success ts c (scan_number s)

abbrev boot_timestamp : Option (ℕ × Bytes) → Option BootEntry
boot_timestamp none = none
boot_timestamp (some (ts, s)) = boot_slot ts (scan_char s)

-- `sscanf(line, "%llu %c %d %u", ...) == 4`
unfoldable pub scan_boot : Bytes → Option BootEntry
unfolding scan_u64 scan_char scan_number scan_u32
scan_boot line = boot_timestamp (scan_u64 line)

-- The loop of `bb_persist_boot_log_read`: so many entries are free.
unfoldable pub read_boots : ℕ → List Bytes → List BootEntry
unfolding scan_boot
read_boots room [] = []
read_boots zero (line ∷ ls) = []
read_boots (suc room) (line ∷ ls) = elim (scan_boot (before_char 0 line)) [
  | none ↦ read_boots (suc room) ls
  | some e ↦ e ∷ read_boots room ls
]

-- `bb_persist_boot_log_read`: the entries that it stores, whose number it returns.
unfoldable pub boot_log_read : Files → ℤ → List BootEntry
unfolding read_boots
boot_log_read files max_entries =
    read_boots (pos_part max_entries) (read_lines 255 255 (text_of (files boot_log_path)))

-- The line of `bb_persist_update_log_add`, without the line end.
unfoldable pub update_line : UpdateEntry → Bytes
update_line e =
    codes "{\"ts\":"
    ++ (decimal e.ts
        ++ (codes ",\"from\":\""
            ++ (e.from_version
                ++ (codes "\",\"to\":\""
                    ++ (e.to_version
                        ++ (codes "\",\"slot\":\""
                            ++ e.target_slot
                              ∷ (codes "\",\"ok\":" ++ (print_int e.ok ++ codes "}"))))))))

-- `bb_persist_update_log_add`
unfoldable pub update_log_add : Bool → UpdateEntry → Files → ℤ × Files
unfolding append_text update_line
update_log_add opens e files = append_text opens update_log_path (update_line e ++ 10 ∷ []) files

abbrev number_from : Option (ℤ × Bytes) → ℕ
number_from none = 0
number_from (some (v, s)) = unsigned_of v

-- `strtoull(p + 5, NULL, 10)`, when the key was found.
unfoldable pub found_ts : Option Bytes → ℕ → ℕ
unfolding scan_number
found_ts none old = old
found_ts (some s) old = number_from (scan_number s)

-- `if (end && end - start < 32)`
abbrev version_at : Option Bytes → Bytes → Bytes → Bytes
version_at none v old = old
version_at (some more) v old = if ltb (length v) 32 then v else old

-- A version is copied up to the quote when there is one and it has less than 32 bytes.
unfoldable pub found_version : Option Bytes → Bytes → Bytes
found_version none old = old
found_version (some s) old = version_at (after_char 34 s) (before_char 34 s) old

-- `p[8]`: the byte behind the key, or the NUL.
abbrev pub byte_at : Bytes → ℕ
byte_at [] = 0
byte_at (c ∷ s) = c

unfoldable pub found_slot : Option Bytes → ℕ → ℕ
found_slot none old = old
found_slot (some s) old = byte_at s

unfoldable pub found_ok : Option Bytes → ℤ → ℤ
found_ok none old = old
found_ok (some s) old = if byte_at s == 116 then pos 1 else pos 0

-- The body of the loop of `bb_persist_update_log_read`: what a line leaves in an entry.
unfoldable pub scan_update : Bytes → UpdateEntry → UpdateEntry
unfolding found_ts found_version found_slot found_ok
scan_update line old = record {
  ts = found_ts (after_match (codes "\"ts\":") line) old.ts;
  from_version = found_version (after_match (codes "\"from\":\"") line) old.from_version;
  to_version = found_version (after_match (codes "\"to\":\"") line) old.to_version;
  target_slot = found_slot (after_match (codes "\"slot\":\"") line) old.target_slot;
  ok = found_ok (after_match (codes "\"ok\":") line) old.ok;
}

-- The loop, over the array of the caller: each line takes the next entry.
unfoldable pub read_updates : List UpdateEntry → List Bytes → List UpdateEntry
unfolding scan_update
read_updates [] ls = []
read_updates (old ∷ entries) [] = []
read_updates (old ∷ entries) (line ∷ ls) =
    scan_update (before_char 0 line) old ∷ read_updates entries ls

-- `bb_persist_update_log_read`: the entries that it fills, whose number it returns.
unfoldable pub update_log_read : Files → List UpdateEntry → List UpdateEntry
unfolding read_updates
update_log_read files entries =
    read_updates entries (read_lines 511 511 (text_of (files update_log_path)))

abbrev id_at : List Bytes → Bytes
id_at [] = codes "unknown"
id_at (line ∷ ls) = before_char 10 (before_char 0 line)

-- `bb_persist_machine_id`
unfoldable pub machine_id : Files → Bytes
machine_id files = id_at (read_lines 63 63 (text_of (files (codes "/persist/machine-id"))))
