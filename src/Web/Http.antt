-- ===== src/Web/Http.antt =====
-- services/bb-webd.c: the responses, the types of files, and what is read of files.
pub mod Framed
use nxp_imx95_building_block.Common.{
  ℕ, zero, suc, ◌+◌, ◌-◌, ◌*◌, ◌/◌, ◌%◌, ◌^◌, ◌≤◌, ◌<◌, min, ◌≡◌, refl, sym, ap, ap₂, subst, ◌∙◌,
  ◌≢◌, ◌↔◌, ◌⊎◌, inl, inr, Bool, true, false, not, ◌&&◌, ◌||◌, Option, none, some, List, [], ◌∷◌,
  ◌++◌, map, append-nil, append_assoc, arith, ltb, leb, ◌==◌, if◌then◌else◌, ltb→lt, lt→ltb,
  le→not_ltb, leb→le, le→leb, ==_iff, ==_self, ==_ne, tests, Bool-cases, Option-cases, length,
  get_elem?, get_or, set, take, drop, replicate, length-append, length-set, get_elem?-set_self,
  get_elem?-set_ne, get_elem?_lt, get_elem?_ge, lt_of_get_elem?, take-append-drop, length-take,
  length-drop, take_all, drop_all, take-append_length, drop-append_length, length-replicate,
  length-map, All, All-append, length-take_le, All-take, All-drop, All-set, All-get, Bytes, codes,
  str_eq, starts_with, str_eq_refl, str_eq→eq, str_eq_ne, starts_with-append, all, all-append, ℤ,
  pos, negsuc, pos_part, neg_part, ltb_ℤ, leb_ℤ, eq_ℤ, sub_ℕ, ◌+ℤ◌, ◌-ℤ◌, int_max, fetch_inc,
  fetch_dec, fetch_inc_lt, fetch_dec_pos, is_space, skip_space, token, after_char, before_char,
  from_last, Files, write_file, delete_file, rename_file, extend_line, read_lines, read-write,
  read-write_ne, read-rename, read-rename_ne, is_digit, pow10, digits, decimal, print_int,
  scan_digits, no_digit, scan_digits-decimal, scan_digits-stop, signed_value, scan_long, scan_int,
  length-digits, length-print_int, after_match, IsFirst, after_match-first, occurs, lower,
  after_match_case, push_token, scan_tokens, tokens, scan_number, unsigned_of, scan_u64, scan_u32,
  scan_char, scan_number-decimal, scan_u64-decimal, scan_u32-decimal, scan_number-print_int,
  scan_number-space, lacks, IsFirst-lacks, IsFirst-append, is_first, IsFirst-test, digits-lacks,
  decimal-lacks, after_match-append, before_char-lacks, after_char-lacks,
}

-- `mime_by_ext`, from the extension on.
abbrev pub mime_of : Bytes → Bytes
mime_of ext =
    if str_eq ext (codes ".html")
    then codes "text/html; charset=utf-8"
    else if str_eq ext (codes ".css")
    then codes "text/css; charset=utf-8"
    else if str_eq ext (codes ".js")
    then codes "application/javascript; charset=utf-8"
    else if str_eq ext (codes ".json")
    then codes "application/json; charset=utf-8"
    else if str_eq ext (codes ".svg")
    then codes "image/svg+xml"
    else if str_eq ext (codes ".png")
    then codes "image/png"
    else if str_eq ext (codes ".ico")
    then codes "image/x-icon"
    else codes "text/plain; charset=utf-8"

abbrev pub mime_from : Option Bytes → Bytes
mime_from none = codes "application/octet-stream"
mime_from (some ext) = mime_of ext

unfoldable pub mime_by_ext : Bytes → Bytes
mime_by_ext path = mime_from (from_last 46 path)

-- `http_ok`
unfoldable pub http_ok : Bytes → Bytes
http_ok mime =
    codes "HTTP/1.1 200 OK\r\nContent-Type: " ++ (mime ++ codes "\r\nConnection: close\r\n")

-- `http_nocache`
unfoldable pub http_nocache : Bytes → Bytes
http_nocache mime =
    codes "HTTP/1.1 200 OK\r\nContent-Type: "
    ++ (mime ++ codes "\r\nCache-Control: no-cache\r\nConnection: close\r\n")

-- `dprintf(fd, "Content-Length: %zu\r\n\r\n%s", strlen(body), body)`
unfoldable pub content : Bytes → Bytes
content body = codes "Content-Length: " ++ (decimal (length body) ++ (codes "\r\n\r\n" ++ body))

-- A response without the lines of `http_ok`: status, type, length, and the connection closed.
unfoldable pub http_error : Bytes → Bytes → Bytes
http_error head body =
    head
    ++ (codes "Content-Length: "
        ++ (decimal (length body) ++ (codes "\r\nConnection: close\r\n\r\n" ++ body)))

unfoldable pub http_not_found : Bytes
unfolding http_error
http_not_found =
    http_error (codes "HTTP/1.1 404 Not Found\r\nContent-Type: application/json\r\n")
      (codes "{\"error\":\"not found\"}")

unfoldable pub http_method_not_allowed : Bytes
unfolding http_error
http_method_not_allowed =
    http_error (codes "HTTP/1.1 405 Method Not Allowed\r\nContent-Type: application/json\r\n")
      (codes "{\"error\":\"method not allowed\"}")

unfoldable pub http_server_error : Bytes → Bytes
unfolding http_error
http_server_error msg =
    http_error (codes "HTTP/1.1 500 Internal Server Error\r\nContent-Type: text/plain\r\n") msg

-- `read_file`, with what `malloc` answers for a size.
unfoldable pub read_file : (ℕ → Bool) → Files → Bytes → ℕ → Option Bytes
read_file malloc_ok files path max_size = elim (files path) [
  | none ↦ none
  | some content ↦
      if ltb max_size (length content)
      then none
      else if malloc_ok (length content + 1)
      then some content
      else none
]

-- The line in a buffer that was read, none when nothing was.
unfoldable pub first_line : Bytes → Option Bytes
first_line [] = none
first_line (c ∷ got) = some (before_char 10 (before_char 0 (c ∷ got)))

-- `read_proc_line`
unfoldable pub read_proc_line : Files → Bytes → ℕ → Option Bytes
unfolding first_line
read_proc_line files path size = elim (files path) [
  | none ↦ none
  | some content ↦ first_line (take (size - 1) content)
]
