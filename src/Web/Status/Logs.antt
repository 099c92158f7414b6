-- ===== src/Web/Status/Logs.antt =====
-- services/bb-webd.c: `handle_api_logs` drops no line of what it has read.

use nxp_imx95_building_block.Web.Status.Tables.{read_text, lines_of}
use nxp_imx95_building_block.Web.Status.{Board}
use nxp_imx95_building_block.Web.Status.Devices.{add_lines, log_file, tail_of, api_logs}
use nxp_imx95_building_block.Web.Builder.Objects.{separated}
use nxp_imx95_building_block.Web.Builder.Writes.{
  Writes, jw_of, Writes-then, comma, comma-Writes, arr_start-Writes, arr_end-Writes,
}
use nxp_imx95_building_block.Web.Builder.{
  jw_comma, json_escape_str, Jw, jw_init, jw_arr_start, jw_arr_end,
}
use nxp_imx95_building_block.Web.Builder.Escape.{piece, pieces, escape-Writes}
use nxp_imx95_building_block.Common.{
  ℕ, suc, ◌+◌, ◌-◌, ◌*◌, ◌≤◌, ◌<◌, ◌≡◌, refl, sym, ap, ◌∙◌, inl, inr, Bool, true, false, Option,
  none, some, List, [], ◌∷◌, ◌++◌, map, append-nil, append_assoc, arith, ltb, ◌==◌, Bool-cases,
  length, take, length-append, length-take, Bytes, codes, before_char, push_token, scan_tokens,
  tokens,
}

-- A line as a JSON string.
abbrev pub quoted_line : Bytes → Bytes
quoted_line line = (codes "\"" ++ pieces line) ++ codes "\""

-- Room for lines, each with an end.
abbrev room : List Bytes → ℕ
room [] = 0
room (t ∷ ts) = length t + 1 + room ts

abbrev behind : Bool → ℕ
behind true = 1
behind false = 0

behind_max : (b : Bool) → behind b ≤ 1
behind_max true = omega arith
behind_max false = omega arith

room-push :
    (c : ℕ) (m : Bool × List Bytes) (n : ℕ)
    → room m.1 ≤ n + behind m.0
    → room (push_token c m).1 ≤ suc n + behind (push_token c m).0
unfolding push_token
room-push c (true, []) n h = omega arith
room-push c (false, []) n h = omega arith
room-push c (true, t ∷ ts) n h = omega (arith, h)
room-push c (false, t ∷ ts) n h = omega (arith, h)

-- The tokens with their ends are not longer than the text with one end.
room-scan :
    (sep : ℕ) (s : Bytes) → room (scan_tokens sep s).1 ≤ length s + behind (scan_tokens sep s).0
unfolding scan_tokens
room-scan sep [] = omega arith
room-scan sep (c ∷ s) = elim (Bool-cases (c == sep)) [
  | inl e ↦ rw e (omega (arith, room-scan sep s, behind_max (scan_tokens sep s).0))
  | inr e ↦ rw e (room-push c (scan_tokens sep s) (length s) (room-scan sep s))
]

room-tokens : (s : Bytes) → room (tokens 10 s) ≤ length s + 1
unfolding tokens
room-tokens s = omega (arith, room-scan 10 s, behind_max (scan_tokens 10 s).0)

length-piece : (c : ℕ) → length (piece c) ≤ 2
length-piece c = ground arith

length-pieces : (s : Bytes) → length (pieces s) ≤ 2 * length s
unfolding pieces
length-pieces [] = omega arith
length-pieces (c ∷ s) =
    omega (arith, length-piece c, length-pieces s, length-append (piece c) (pieces s))

length-quoted_line : (line : Bytes) → length (quoted_line line) ≤ 2 * length line + 2
length-quoted_line line =
    omega (arith, length-pieces line, length-append (34 ∷ pieces line) (codes "\""))

length-one :
    (b : Bool) (line : Bytes) → length (comma b ++ quoted_line line) ≤ 3 * (length line + 1)
length-one true line = omega (arith, length-quoted_line line)
length-one false line = omega (arith, length-quoted_line line)

line-Writes :
    (line : Bytes) (b : Bool)
    → Writes (λ j. json_escape_str line (jw_comma j)) b false (comma b ++ quoted_line line)
line-Writes line b =
    Writes-then jw_comma (json_escape_str line) (comma-Writes b) (escape-Writes line false)

abbrev behind_lines : Bool → List Bytes → Bool
behind_lines b [] = b
behind_lines b (l ∷ ls) = false

-- The loop adds every line while the room that the lines can take is below its limit.
lines_added :
    (ls : List Bytes) (b : Bool) (text : Bytes)
    → length text + 3 * room ls < 8192 - 256
    → add_lines ls (jw_of text 8192 b)
      ≡ jw_of (text ++ separated b (map quoted_line ls)) 8192 (behind_lines b ls)
unfolding add_lines separated
lines_added [] b text h = ap (λ t. jw_of t 8192 b) (sym (append-nil text))
lines_added (line ∷ ls) b text h =
    let one = comma b ++ quoted_line line in
    let more : ltb (length text) (8192 - 256) ≡ true = ground (arith, h) in
    let step : json_escape_str line (jw_comma (jw_of text 8192 b))
        ≡ jw_of (text ++ one) 8192 false =
      line-Writes line b text 8192 (omega (arith, h, length-one b line)) in
    let rest =
      lines_added ls false (text ++ one)
        (omega (arith, h, length-one b line, length-append text one)) in
    rw (more, step)
      (rest
        ∙ ap (λ t. jw_of t 8192 (behind_lines false ls))
            (append_assoc text one (separated false (map quoted_line ls))
              ∙ ap (λ t. text ++ t)
                  (append_assoc (comma b) (quoted_line line)
                    (separated false (map quoted_line ls))))
        ∙ ap
            (λ c.
              jw_of
                (text ++ (comma b ++ (quoted_line line ++ separated false (map quoted_line ls))))
                8192 c)
            (no_first ls))
  where
    no_first : (ls : List Bytes) → behind_lines false ls ≡ false
    no_first [] = refl
    no_first (l ∷ ls) = refl

-- The lines that are read of the log that opens first: of its last 2048 bytes all but one, or of a
-- shorter file 2047 bytes at most.
abbrev pub log_lines : Board → List Bytes
log_lines b = lines_of (read_text (tail_of b (log_file b)) 2048)

length-before : (c : ℕ) (s : Bytes) → length (before_char c s) ≤ length s
unfolding before_char
length-before c [] = omega arith
length-before c (x ∷ s) = ground (arith, length-before c s)

room-got :
    (got : Bytes)
    → length got ≤ 2047
    → room (lines_of (elim got [ [] ↦ none | c ∷ cs ↦ some (before_char 0 (c ∷ cs)) ])) ≤ 2048
room-got [] h = omega arith
room-got (c ∷ cs) h =
    omega (arith, h, room-tokens (before_char 0 (c ∷ cs)), length-before 0 (c ∷ cs))

room-read : (o : Option Bytes) → room (lines_of (read_text o 2048)) ≤ 2048
unfolding read_text
room-read none = omega arith
room-read (some content) = room-got (take 2047 content) (omega (arith, length-take 2047 content))

-- `handle_api_logs` answers an array with every line of what it has read of the log, in order, each
-- escaped: on every board, the buffer is large enough.
pub api_logs_lem :
    (b : Board) → api_logs b ≡ 91 ∷ (separated true (map quoted_line (log_lines b)) ++ codes "]")
unfolding api_logs separated
api_logs_lem b =
    let ls = log_lines b in
    let text = separated true (map quoted_line ls) in
    let start : jw_arr_start (jw_init 8192) ≡ jw_of (codes "[") 8192 true =
      arr_start-Writes true [] 8192 (omega arith) in
    let small : room ls ≤ 2048 = room-read (tail_of b (log_file b)) in
    let added = ap (add_lines ls) start ∙ lines_added ls true (codes "[") (omega (arith, small)) in
    let fits : length text ≤ 3 * room ls = length-lines true ls in
    ap {A = Jw} (λ j. (jw_arr_end j).text) added
    ∙ ap {A = Jw} (λ j. j.text)
        (arr_end-Writes (behind_lines true ls) (91 ∷ text) 8192 (omega (arith, small, fits)))
  where
    length-lines :
        (c : Bool) (ls : List Bytes) → length (separated c (map quoted_line ls)) ≤ 3 * room ls
    length-lines c [] = omega arith
    length-lines c (l ∷ ls) = omega (
      arith,
      length-one c l,
      length-lines false ls,
      length-append (comma c ++ quoted_line l) (separated false (map quoted_line ls)),
      ap length (append_assoc (comma c) (quoted_line l) (separated false (map quoted_line ls))),
    )
