-- ===== src/Web/Http/Framed.antt =====
-- services/bb-webd.c: a client reads a response by its Content-Length.

use nxp_imx95_building_block.Web.Http.{
  mime_of, mime_by_ext, http_ok, http_nocache, content, http_error, http_not_found,
  http_method_not_allowed, http_server_error, mime_from,
}
use nxp_imx95_building_block.Common.{
  ◌<◌, ◌≡◌, refl, sym, ap, subst, ◌∙◌, true, Option, none, some, [], ◌++◌, append_assoc, arith,
  length, Bytes, codes, starts_with, all, from_last, pow10, decimal, scan_digits, no_digit,
  scan_digits-decimal, scan_digits-stop, after_match, IsFirst, after_match-first, lacks,
  IsFirst-lacks, IsFirst-append, is_first, IsFirst-test, decimal-lacks,
}

abbrev pub blank_line : Bytes
blank_line = codes "\r\n\r\n"

-- A reader of the response finds the body behind the first blank line, and its length in the first
-- Content-Length line.
abbrev pub IsFramed : Bytes → Bytes → Type 0
IsFramed response body =
    (after_match blank_line response ≡ some body)
    × (rest : Bytes) × (after_match (codes "Content-Length: ") response ≡ some rest)
    × ((scan_digits 0 rest).0 ≡ length body)

abbrev cl : Bytes
cl = codes "Content-Length: "

module _ (head mid body : Bytes) where
  abbrev number : Bytes
  number = decimal (length body)

  framed :
      IsFirst cl head (cl ++ (number ++ (mid ++ (blank_line ++ body))))
      → IsFirst blank_line head (cl ++ (number ++ (mid ++ (blank_line ++ body))))
      → IsFirst blank_line mid (blank_line ++ body)
      → no_digit (mid ++ (blank_line ++ body)) ≡ true
      → length body < pow10 20
      → IsFramed (head ++ (cl ++ (number ++ (mid ++ (blank_line ++ body))))) body
  unfolding all
  framed a b c d n =
      let rest = mid ++ (blank_line ++ body) in
      let second : IsFirst blank_line (cl ++ (number ++ mid)) (blank_line ++ body) =
        IsFirst-append blank_line cl (number ++ mid) (blank_line ++ body)
          (IsFirst-lacks 13 (codes "\n\r\n") cl _ lacks_cl)
          (IsFirst-append blank_line number mid (blank_line ++ body)
            (IsFirst-lacks 13 (codes "\n\r\n") number _ (decimal-lacks 13 (length body) refl)) c) in
      let regroup : (cl ++ (number ++ mid)) ++ (blank_line ++ body) ≡ cl ++ (number ++ rest) =
        append_assoc cl (number ++ mid) (blank_line ++ body)
        ∙ ap (λ t. cl ++ t) (append_assoc number mid (blank_line ++ body)) in
      let whole : (head ++ (cl ++ (number ++ mid))) ++ (blank_line ++ body)
          ≡ head ++ (cl ++ (number ++ rest)) =
        append_assoc head (cl ++ (number ++ mid)) (blank_line ++ body)
        ∙ ap (λ t. head ++ t) regroup in
      (
        ap (after_match blank_line) (sym whole)
            ∙ after_match-first blank_line (head ++ (cl ++ (number ++ mid))) body (
                IsFirst-append blank_line head (cl ++ (number ++ mid)) (blank_line ++ body)
                  (subst (IsFirst blank_line head) (sym regroup) b) second),
        number ++ rest,
        after_match-first cl head (number ++ rest) a,
        ap (λ r. r.0)
            (scan_digits-decimal (length body) rest n ∙ scan_digits-stop (length body) rest d),
      )
    where
      lacks_cl : lacks 13 cl ≡ true
      lacks_cl = refl

abbrev status_ok : Bytes
status_ok = codes "HTTP/1.1 200 OK\r\nContent-Type: "

module _ (mime tail body : Bytes) (m : lacks 13 mime ≡ true) (k : lacks 67 mime ≡ true)
    (n : length body < pow10 20) where
  -- The lines in front of the length, where the last of them are known.
  lines-IsFramed :
      ((s : Bytes) → is_first cl tail (cl ++ s) ≡ true)
      → ((s : Bytes) → is_first blank_line tail (cl ++ s) ≡ true)
      → IsFramed
          ((status_ok ++ (mime ++ tail)) ++ (cl ++ (decimal (length body) ++ (blank_line ++ body))))
          body
  unfolding starts_with
  lines-IsFramed c b =
      let s = decimal (length body) ++ (blank_line ++ body) in
      framed (status_ok ++ (mime ++ tail)) [] body
        (IsFirst-append cl status_ok (mime ++ tail) (cl ++ s)
          (IsFirst-test cl status_ok ((mime ++ tail) ++ (cl ++ s)) refl)
          (IsFirst-append cl mime tail (cl ++ s)
            (IsFirst-lacks 67 (codes "ontent-Length: ") mime _ k)
            (IsFirst-test cl tail (cl ++ s) (c s))))
        (IsFirst-append blank_line status_ok (mime ++ tail) (cl ++ s)
          (IsFirst-test blank_line status_ok ((mime ++ tail) ++ (cl ++ s)) refl)
          (IsFirst-append blank_line mime tail (cl ++ s)
            (IsFirst-lacks 13 (codes "\n\r\n") mime _ m)
            (IsFirst-test blank_line tail (cl ++ s) (b s))))
        tt refl n

-- `http_ok` and a body.
pub ok-IsFramed :
    (mime body : Bytes)
    → lacks 13 mime ≡ true
    → lacks 67 mime ≡ true
    → length body < pow10 20
    → IsFramed (http_ok mime ++ content body) body
unfolding http_ok content starts_with
ok-IsFramed mime body m k n =
    lines-IsFramed mime (codes "\r\nConnection: close\r\n") body m k n (λ s. refl) (λ s. refl)

-- `http_nocache` and a body.
pub nocache-IsFramed :
    (mime body : Bytes)
    → lacks 13 mime ≡ true
    → lacks 67 mime ≡ true
    → length body < pow10 20
    → IsFramed (http_nocache mime ++ content body) body
unfolding http_nocache content starts_with
nocache-IsFramed mime body m k n =
    lines-IsFramed mime (codes "\r\nCache-Control: no-cache\r\nConnection: close\r\n") body m k n
      (λ s. refl) (λ s. refl)

-- The responses that report an error.
error-IsFramed :
    (head body : Bytes)
    → ((s : Bytes) → is_first cl head (cl ++ s) ≡ true)
    → ((s : Bytes) → is_first blank_line head (cl ++ s) ≡ true)
    → length body < pow10 20
    → IsFramed (http_error head body) body
unfolding http_error starts_with
error-IsFramed head body c b n =
    let mid = codes "\r\nConnection: close" in
    let s = decimal (length body) ++ (mid ++ (blank_line ++ body)) in
    framed head mid body (IsFirst-test cl head (cl ++ s) (c s))
      (IsFirst-test blank_line head (cl ++ s) (b s))
      (IsFirst-test blank_line mid (blank_line ++ body) refl) refl n

pub server_error-IsFramed :
    (msg : Bytes) → length msg < pow10 20 → IsFramed (http_server_error msg) msg
unfolding http_server_error starts_with
server_error-IsFramed msg n =
    error-IsFramed (codes "HTTP/1.1 500 Internal Server Error\r\nContent-Type: text/plain\r\n") msg
      (λ s. refl) (λ s. refl) n

pub not_found-IsFramed : IsFramed http_not_found (codes "{\"error\":\"not found\"}")
unfolding http_not_found starts_with
not_found-IsFramed =
    error-IsFramed (codes "HTTP/1.1 404 Not Found\r\nContent-Type: application/json\r\n")
      (codes "{\"error\":\"not found\"}") (λ s. refl) (λ s. refl) (omega arith)

pub method_not_allowed-IsFramed :
    IsFramed http_method_not_allowed (codes "{\"error\":\"method not allowed\"}")
unfolding http_method_not_allowed starts_with
method_not_allowed-IsFramed =
    error-IsFramed (codes "HTTP/1.1 405 Method Not Allowed\r\nContent-Type: application/json\r\n")
      (codes "{\"error\":\"method not allowed\"}") (λ s. refl) (λ s. refl) (omega arith)

mime_of-lacks : (ext : Bytes) → (lacks 13 (mime_of ext) ≡ true) × (lacks 67 (mime_of ext) ≡ true)
unfolding all
mime_of-lacks ext = (ground arith, ground arith)

mime_from-lacks :
    (o : Option Bytes) → (lacks 13 (mime_from o) ≡ true) × (lacks 67 (mime_from o) ≡ true)
unfolding all
mime_from-lacks none = (refl, refl)
mime_from-lacks (some ext) = mime_of-lacks ext

pub mime_by_ext-lacks :
    (path : Bytes) → (lacks 13 (mime_by_ext path) ≡ true) × (lacks 67 (mime_by_ext path) ≡ true)
unfolding mime_by_ext
mime_by_ext-lacks path = mime_from-lacks (from_last 46 path)
