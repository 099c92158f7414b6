-- ===== src/Persist/Logs/Boot.antt =====
-- libbb/bb_persist.c: the boot log is read back as it was written.
use nxp_imx95_building_block.Persist.Lines.{end_line, read_line, before_char-end}
use nxp_imx95_building_block.Persist.Logs.{
  BootEntry, boot_log_path, text_of, append_text, boot_line, boot_log_add, scan_boot, read_boots,
  boot_log_read,
}
use nxp_imx95_building_block.Framing.{is_text}
use nxp_imx95_building_block.Common.{
  ℕ, zero, suc, ◌+◌, ◌/◌, ◌%◌, ◌^◌, ◌≤◌, ◌<◌, ◌≡◌, refl, sym, ap, ◌∙◌, inl, inr, true, false, none,
  some, List, [], ◌∷◌, ◌++◌, append-nil, append_assoc, arith, ltb, ◌==◌, Bool-cases, length, take,
  length-append, All, Bytes, all, all-append, ℤ, pos, negsuc, pos_part, neg_part, is_space,
  skip_space, Files, write_file, read_lines, read-write, digits, decimal, print_int, length-digits,
  length-print_int, scan_number, scan_u64, scan_u32, scan_char, scan_u64-decimal, scan_u32-decimal,
  scan_number-print_int, scan_number-space,
}

-- What the fields of the struct hold, with a slot that is a visible character.
pub record IsBootEntry (e : BootEntry) : Type 0 where
  pub fits_timestamp : e.timestamp < 2 ^ 64
  pub visible : 32 < e.slot
  pub fits_success : pos_part e.success + neg_part e.success ≤ 2 ^ 31
  pub fits_ms : e.boot_time_ms < 2 ^ 32

digits-text : (f n : ℕ) → all is_text (digits f n) ≡ true
unfolding digits all
digits-text zero n = refl
digits-text (suc f) n = elim (Bool-cases (ltb n 10)) [
  | inl e ↦
      let z : (48 + n == 0) ≡ false = ground arith in
      let l : (48 + n == 10) ≡ false = ground (arith, e) in rw e (rw (z, l) refl)
  | inr e ↦
      let z : (48 + n % 10 == 0) ≡ false = ground arith in
      let l : (48 + n % 10 == 10) ≡ false = ground arith in
      rw e (
        all-append is_text (digits f (n / 10)) ((48 + n % 10) ∷ [])
        ∙ rw (digits-text f (n / 10), z, l) refl)
]

pub decimal-text : (n : ℕ) → all is_text (decimal n) ≡ true
unfolding decimal
decimal-text n = digits-text 20 n

pub print_int-text : (v : ℤ) → all is_text (print_int v) ≡ true
unfolding print_int all
print_int-text (pos n) = decimal-text n
print_int-text (negsuc n) = decimal-text (n + 1)

boot_line-text : (e : BootEntry) → 32 < e.slot → all is_text (boot_line e) ≡ true
unfolding boot_line all
boot_line-text e h =
    let z : (e.slot == 0) ≡ false = ground arith in
    let l : (e.slot == 10) ≡ false = ground arith in
    let rest = 32 ∷ decimal e.boot_time_ms in
    all-append is_text (decimal e.timestamp) (32 ∷ e.slot ∷ 32 ∷ (print_int e.success ++ rest))
    ∙ rw
        (
          decimal-text e.timestamp,
          z,
          l,
          all-append is_text (print_int e.success) rest,
          print_int-text e.success,
          decimal-text e.boot_time_ms,
        )
        refl

pub length-decimal : (n : ℕ) → length (decimal n) ≤ 20
unfolding decimal
length-decimal n = length-digits 20 n

length-boot_line : (e : BootEntry) → length (boot_line e) < 255
unfolding boot_line
length-boot_line e =
    let rest = 32 ∷ decimal e.boot_time_ms in
    omega (
      arith,
      length-append (decimal e.timestamp) (32 ∷ e.slot ∷ 32 ∷ (print_int e.success ++ rest)),
      length-append (print_int e.success) rest,
      length-decimal e.timestamp,
      length-print_int e.success,
      length-decimal e.boot_time_ms,
    )

scan_char-space : (c : ℕ) (s : Bytes) → 32 < c → scan_char (32 ∷ c ∷ s) ≡ some (c, s)
unfolding scan_char skip_space
scan_char-space c s h = let w : is_space c ≡ false = ground arith in rw w refl

scan_u32-space : (s : Bytes) → scan_u32 (32 ∷ s) ≡ scan_u32 s
unfolding scan_u32 scan_u64 scan_number skip_space
scan_u32-space s = refl

scan_boot-line : (e : BootEntry) → IsBootEntry e → scan_boot (end_line (boot_line e)) ≡ some e
unfolding scan_boot boot_line
scan_boot-line e h =
    let tail = decimal e.boot_time_ms ++ 10 ∷ [] in
    let text = 32 ∷ (print_int e.success ++ 32 ∷ tail) in
    let split : end_line (boot_line e) ≡ decimal e.timestamp ++ 32 ∷ e.slot ∷ text =
      append_assoc (decimal e.timestamp)
        (32 ∷ e.slot ∷ 32 ∷ (print_int e.success ++ 32 ∷ decimal e.boot_time_ms)) (10 ∷ [])
      ∙ ap (λ t. decimal e.timestamp ++ 32 ∷ e.slot ∷ 32 ∷ t)
          (append_assoc (print_int e.success) (32 ∷ decimal e.boot_time_ms) (10 ∷ [])) in
    ap scan_boot split
    ∙ rw
        (
          scan_u64-decimal e.timestamp (32 ∷ e.slot ∷ text) h.fits_timestamp refl,
          scan_char-space e.slot text h.visible,
          scan_number-space (print_int e.success ++ 32 ∷ tail),
          scan_number-print_int e.success (32 ∷ tail) (omega (arith, h.fits_success)) refl,
          scan_u32-space tail,
          scan_u32-decimal e.boot_time_ms (10 ∷ []) h.fits_ms refl,
        )
        refl

-- What is added to a log, one line for each entry.
unfoldable pub boot_text : List BootEntry → Bytes
boot_text [] = []
boot_text (e ∷ es) = boot_line e ++ 10 ∷ boot_text es

read_boots-text :
    (room : ℕ) (es : List BootEntry)
    → All IsBootEntry es
    → read_boots room (read_lines 255 255 (boot_text es)) ≡ take room es
unfolding read_boots boot_text read_lines
read_boots-text zero [] h = refl
read_boots-text (suc room) [] h = refl
read_boots-text zero (e ∷ es) h =
    rw
      (read_line 255 (boot_line e) (boot_text es) 255 (boot_line-text e h.0.visible)
        (length-boot_line e))
      refl
read_boots-text (suc room) (e ∷ es) h =
    let t = boot_line-text e h.0.visible in
    let found = ap scan_boot (before_char-end (boot_line e) t) ∙ scan_boot-line e h.0 in
    ap (read_boots (suc room))
      (read_line 255 (boot_line e) (boot_text es) 255 t (length-boot_line e))
    ∙ ap
        (λ o. elim o [
          | none ↦ read_boots (suc room) (read_lines 255 255 (boot_text es))
          | some f ↦ f ∷ read_boots room (read_lines 255 255 (boot_text es))
        ])
        found
    ∙ ap (◌∷◌ e) (read_boots-text room es h.1)

-- Entries added one after the other.
unfoldable pub add_boots : List BootEntry → Files → Files
add_boots [] files = files
add_boots (e ∷ es) files = add_boots es (boot_log_add true e files).1

add_boots-text :
    (es : List BootEntry) (files : Files)
    → text_of (add_boots es files boot_log_path) ≡ text_of (files boot_log_path) ++ boot_text es
unfolding add_boots boot_text boot_log_add append_text
add_boots-text [] files = sym (append-nil (text_of (files boot_log_path)))
add_boots-text (e ∷ es) files =
    let old = text_of (files boot_log_path) in
    let line = boot_line e ++ 10 ∷ [] in
    add_boots-text es (write_file boot_log_path (old ++ line) files)
    ∙ ap (λ o. text_of o ++ boot_text es) (read-write boot_log_path (old ++ line) files)
    ∙ append_assoc old line (boot_text es)
    ∙ ap (λ t. old ++ t) (append_assoc (boot_line e) (10 ∷ []) (boot_text es))

-- Entries that are added one after the other to a log that was not there are read back in their
-- order, as many as the caller has room for; for entries whose fields fit their types and whose
-- slot is a visible character.
pub boot_log_read-add :
    (es : List BootEntry) (files : Files) (max_entries : ℤ)
    → files boot_log_path ≡ none
    → All IsBootEntry es
    → boot_log_read (add_boots es files) max_entries ≡ take (pos_part max_entries) es
unfolding boot_log_read
boot_log_read-add es files max_entries e h =
    let whole = add_boots-text es files ∙ ap (λ o. text_of o ++ boot_text es) e in
    ap (λ t. read_boots (pos_part max_entries) (read_lines 255 255 t)) whole
    ∙ read_boots-text (pos_part max_entries) es h
