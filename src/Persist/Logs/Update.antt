-- ===== src/Persist/Logs/Update.antt =====
-- libbb/bb_persist.c: what is read back of the update log.
use nxp_imx95_building_block.Persist.Logs.Boot.{decimal-text, print_int-text, length-decimal}
use nxp_imx95_building_block.Framing.{is_text}
use nxp_imx95_building_block.Persist.Lines.{end_line, read_line, before_char-end}
use nxp_imx95_building_block.Persist.Logs.{
  UpdateEntry, update_line, found_ts, found_version, byte_at, found_slot, found_ok, scan_update,
  update_log_path, text_of, append_text, update_log_add, read_updates, update_log_read,
}
use nxp_imx95_building_block.Persist.Logs.Members.{
  IsVersion, IsUpdateEntry, from_from, whole-line, match_ts, match_from, match_to, match_slot,
  match_ok,
}
use nxp_imx95_building_block.Common.{
  ℕ, ◌+◌, ◌^◌, ◌<◌, ◌≡◌, refl, sym, ap, ap₂, ◌∙◌, true, false, not, none, some, List, [], ◌∷◌, ◌++◌,
  map, append-nil, append_assoc, arith, ltb, ◌==◌, length, take, length-append, All, Bytes, codes,
  all, all-append, ℤ, pos, negsuc, Files, write_file, read_lines, read-write, decimal, print_int,
  no_digit, length-print_int, scan_number-decimal, lacks, decimal-lacks, before_char-lacks,
  after_char-lacks,
}

-- An entry as it is read back: it did not succeed.
abbrev pub failed : UpdateEntry → UpdateEntry
failed e = record e { ok = pos 0 }

byte_at-lacks : (x : ℕ) (s : Bytes) → 0 < x → lacks x s ≡ true → (byte_at s == x) ≡ false
unfolding all
byte_at-lacks x [] p h = ground arith
byte_at-lacks x (c ∷ s) p h = ground arith

print_int-lacks : (v : ℤ) → lacks 116 (print_int v ++ codes "}\n") ≡ true
unfolding print_int all
print_int-lacks (pos n) =
    all-append (λ c. not (116 == c)) (decimal n) (codes "}\n") ∙ rw (decimal-lacks 116 n refl) refl
print_int-lacks (negsuc n) =
    all-append (λ c. not (116 == c)) (decimal (n + 1)) (codes "}\n")
    ∙ rw (decimal-lacks 116 (n + 1) refl) refl

found_version-value : (v old s : Bytes) → IsVersion v → found_version (some (v ++ 34 ∷ s)) old ≡ v
unfolding found_version
found_version-value v old s h =
    let l : ltb (length v) 32 ≡ true = ground (arith, h.2) in
    rw (after_char-lacks 34 v s h.0, before_char-lacks 34 v s h.0) (rw l refl)

found_ts-value :
    (n old : ℕ) (s : Bytes)
    → n < 2 ^ 64
    → no_digit s ≡ true
    → found_ts (some (decimal n ++ s)) old ≡ n
unfolding found_ts
found_ts-value n old s h k = rw (scan_number-decimal n s (omega arith) k) (omega arith)

found_ok-value : (v old : ℤ) → found_ok (some (print_int v ++ codes "}\n")) old ≡ pos 0
unfolding found_ok
found_ok-value v old =
    rw (byte_at-lacks 116 (print_int v ++ codes "}\n") (omega arith) (print_int-lacks v)) refl

scan_update-line :
    (e old : UpdateEntry) → IsUpdateEntry e → scan_update (end_line (update_line e)) old ≡ failed e
unfolding scan_update found_slot
scan_update-line e old h =
    ap (λ t. scan_update t old) (whole-line e)
    ∙ rw (match_ts e h, match_from e h, match_to e h, match_slot e h, match_ok e h)
        (rw
          (
            found_ts-value e.ts old.ts (from_from e) h.fits_ts refl,
            found_version-value e.from_version old.from_version _ h.from_version,
            found_version-value e.to_version old.to_version _ h.to_version,
            found_ok-value e.ok old.ok,
          )
          refl)

length-update_line : (e : UpdateEntry) → IsUpdateEntry e → length (update_line e) < 511
unfolding update_line
length-update_line e h =
    let ok = codes "\",\"ok\":" ++ (print_int e.ok ++ codes "}") in
    let slot = codes "\",\"slot\":\"" ++ e.target_slot ∷ ok in
    let to = codes "\",\"to\":\"" ++ (e.to_version ++ slot) in
    omega (
      arith,
      length-append (decimal e.ts) (codes ",\"from\":\"" ++ (e.from_version ++ to)),
      length-append e.from_version to,
      length-append e.to_version slot,
      length-append (print_int e.ok) (codes "}"),
      length-decimal e.ts,
      length-print_int e.ok,
      h.from_version.2,
      h.to_version.2,
    )

text-append :
    (a b : Bytes) → all is_text a ≡ true → all is_text b ≡ true → all is_text (a ++ b) ≡ true
text-append a b h k = all-append is_text a b ∙ rw (h, k) refl

update_line-text : (e : UpdateEntry) → IsUpdateEntry e → all is_text (update_line e) ≡ true
unfolding update_line all
update_line-text e h =
    let rest = codes "\",\"ok\":" ++ (print_int e.ok ++ codes "}") in
    let ok = text-append (print_int e.ok) (codes "}") (print_int-text e.ok) refl in
    let slot : all is_text (codes "\",\"slot\":\"" ++ e.target_slot ∷ rest) ≡ true =
      rw h.text_slot ok in
    let to = text-append e.to_version _ h.to_version.1 slot in
    let from = text-append e.from_version _ h.from_version.1 to in
    text-append (decimal e.ts) _ (decimal-text e.ts) from

-- What is added to a log, one line for each entry.
unfoldable pub update_text : List UpdateEntry → Bytes
update_text [] = []
update_text (e ∷ es) = update_line e ++ 10 ∷ update_text es

read_updates-text :
    (old es : List UpdateEntry)
    → All IsUpdateEntry es
    → read_updates old (read_lines 511 511 (update_text es)) ≡ map failed (take (length old) es)
unfolding read_updates update_text read_lines
read_updates-text [] [] h = refl
read_updates-text [] (e ∷ es) h = refl
read_updates-text (o ∷ old) [] h = refl
read_updates-text (o ∷ old) (e ∷ es) h =
    let t = update_line-text e h.0 in
    let line = before_char-end (update_line e) t in
    ap (read_updates (o ∷ old))
      (read_line 511 (update_line e) (update_text es) 511 t (length-update_line e h.0))
    ∙ ap₂ ◌∷◌ (ap (λ l. scan_update l o) line ∙ scan_update-line e o h.0)
        (read_updates-text old es h.1)

-- Entries added one after the other.
unfoldable pub add_updates : List UpdateEntry → Files → Files
add_updates [] files = files
add_updates (e ∷ es) files = add_updates es (update_log_add true e files).1

add_updates-text :
    (es : List UpdateEntry) (files : Files)
    → text_of (add_updates es files update_log_path)
      ≡ text_of (files update_log_path) ++ update_text es
unfolding add_updates update_text update_log_add append_text
add_updates-text [] files = sym (append-nil (text_of (files update_log_path)))
add_updates-text (e ∷ es) files =
    let old = text_of (files update_log_path) in
    let line = update_line e ++ 10 ∷ [] in
    add_updates-text es (write_file update_log_path (old ++ line) files)
    ∙ ap (λ o. text_of o ++ update_text es) (read-write update_log_path (old ++ line) files)
    ∙ append_assoc old line (update_text es)
    ∙ ap (λ t. old ++ t) (append_assoc (update_line e) (10 ∷ []) (update_text es))

-- Entries that are added one after the other to a log that was not there are read back in their
-- order, as many as the array of the caller has room for, but each as one that did not succeed,
-- whatever was added; for times below 2^64, versions of less than 32 bytes without quotes, line ends
-- and NUL, and slots that are neither a quote nor a line end nor NUL.
pub update_log_read-add :
    (es old : List UpdateEntry) (files : Files)
    → files update_log_path ≡ none
    → All IsUpdateEntry es
    → update_log_read (add_updates es files) old ≡ map failed (take (length old) es)
unfolding update_log_read
update_log_read-add es old files e h =
    let text = add_updates-text es files ∙ ap (λ o. text_of o ++ update_text es) e in
    ap (λ t. read_updates old (read_lines 511 511 t)) text ∙ read_updates-text old es h
