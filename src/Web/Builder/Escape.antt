-- ===== src/Web/Builder/Escape.antt =====
-- services/bb-webd.c: `json_escape_str` against a reader of JSON strings.
use nxp_imx95_building_block.Web.Builder.{jw_raw, escape_byte, escape_bytes, json_escape_str}
use nxp_imx95_building_block.Web.Builder.Writes.{
  Writes, jw_of, Writes-then, raw-Writes, push-Writes, nothing-Writes,
}
use nxp_imx95_building_block.Common.{
  ℕ, ◌+◌, ◌<◌, ◌≡◌, refl, ap, ◌∙◌, inl, inr, Bool, true, false, ◌||◌, Option, none, some, [], ◌∷◌,
  ◌++◌, append_assoc, arith, ltb, leb, ◌==◌, if◌then◌else◌, Bool-cases, length, length-append,
  Bytes, codes, all,
}

-- A byte in front of the string that was read.
abbrev pub push_read : ℕ → Option (Bytes × Bytes) → Option (Bytes × Bytes)
push_read c none = none
push_read c (some (s, rest)) = some (c ∷ s, rest)

-- What a backslash and a letter stand for.
abbrev pub escaped_byte : ℕ → Option ℕ
escaped_byte d =
    if d == 34
    then some 34
    else if d == 92
    then some 92
    else if d == 110
    then some 10
    else if d == 114
    then some 13
    else if d == 116
    then some 9
    else none

abbrev pub push_escaped : Option ℕ → Option (Bytes × Bytes) → Option (Bytes × Bytes)
push_escaped none r = none
push_escaped (some c) r = push_read c r

-- A JSON string behind its opening quote: its bytes, and the text behind the closing one. A control
-- byte may not stand in a string. The flag says that a backslash stands in front.
unfoldable pub read_string : Bool → Bytes → Option (Bytes × Bytes)
read_string escaped [] = none
read_string true (c ∷ s) = push_escaped (escaped_byte c) (read_string false s)
read_string false (c ∷ s) =
    let more = read_string (c == 92) s in
    if c == 34
    then some ([], s)
    else if c == 92
    then more
    else if ltb c 32
    then none
    else push_read c more

-- What the switch of `json_escape_str` writes for a byte.
abbrev pub piece : ℕ → Bytes
piece c =
    if c == 34
    then 92 ∷ 34 ∷ []
    else if c == 92
    then 92 ∷ 92 ∷ []
    else if c == 10
    then 92 ∷ 110 ∷ []
    else if c == 13
    then 92 ∷ 114 ∷ []
    else if c == 9
    then 92 ∷ 116 ∷ []
    else c ∷ []

unfoldable pub pieces : Bytes → Bytes
pieces [] = []
pieces (c ∷ s) = piece c ++ pieces s

byte-Writes : (c : ℕ) (b : Bool) → Writes (escape_byte c) b b (piece c)
unfolding escape_byte
byte-Writes c b = elim (Bool-cases (c == 34)) [
  | inl e ↦ rw e (raw-Writes (92 ∷ 34 ∷ []) b)
  | inr e ↦ elim (Bool-cases (c == 92)) [
    | inl f ↦ rw (e, f) (raw-Writes (92 ∷ 92 ∷ []) b)
    | inr f ↦ elim (Bool-cases (c == 10)) [
      | inl g ↦ rw (e, f, g) (raw-Writes (92 ∷ 110 ∷ []) b)
      | inr g ↦ elim (Bool-cases (c == 13)) [
        | inl h ↦ rw (e, f, g, h) (raw-Writes (92 ∷ 114 ∷ []) b)
        | inr h ↦ elim (Bool-cases (c == 9)) [
          | inl k ↦ rw (e, f, g, h, k) (raw-Writes (92 ∷ 116 ∷ []) b)
          | inr k ↦ rw (e, f, g, h, k) (push-Writes c b)
        ]
      ]
    ]
  ]
]

bytes-Writes : (s : Bytes) (b : Bool) → Writes (escape_bytes s) b b (pieces s)
unfolding escape_bytes pieces
bytes-Writes [] b = nothing-Writes b
bytes-Writes (c ∷ s) b =
    Writes-then (escape_byte c) (escape_bytes s) (byte-Writes c b) (bytes-Writes s b)

-- A string that fits is written in quotes, each byte as its piece.
pub escape-Writes :
    (s : Bytes) (b : Bool) → Writes (json_escape_str s) b b ((codes "\"" ++ pieces s) ++ codes "\"")
unfolding json_escape_str
escape-Writes s b =
    Writes-then (λ j. escape_bytes s (jw_raw (codes "\"") j)) (jw_raw (codes "\""))
      (Writes-then (jw_raw (codes "\"")) (escape_bytes s) (raw-Writes (codes "\"") b)
        (bytes-Writes s b))
      (raw-Writes (codes "\"") b)

-- A byte that a JSON string can hold by the escapes of the builder.
abbrev pub is_plain : ℕ → Bool
is_plain c = leb 32 c || (c == 10) || (c == 13) || (c == 9)

push_same : (c d : ℕ) (r : Option (Bytes × Bytes)) → (c == d) ≡ true → push_read d r ≡ push_read c r
push_same c d r e = let same : d ≡ c = ground (arith, e) in ap (λ x. push_read x r) same

read_piece :
    (c : ℕ) (s : Bytes)
    → is_plain c ≡ true
    → read_string false (piece c ++ s) ≡ push_read c (read_string false s)
unfolding read_string
read_piece c s h =
    let r = read_string false s in
    elim (Bool-cases (c == 34)) [
      | inl e ↦ rw e (push_same c 34 r e)
      | inr e ↦ elim (Bool-cases (c == 92)) [
        | inl f ↦ rw (e, f) (push_same c 92 r f)
        | inr f ↦ elim (Bool-cases (c == 10)) [
          | inl g ↦ rw (e, f, g) (push_same c 10 r g)
          | inr g ↦ elim (Bool-cases (c == 13)) [
            | inl k ↦ rw (e, f, g, k) (push_same c 13 r k)
            | inr k ↦ elim (Bool-cases (c == 9)) [
              | inl l ↦ rw (e, f, g, k, l) (push_same c 9 r l)
              | inr l ↦
                  let big : ltb c 32 ≡ false = ground arith in
                  rw (e, f, g, k, l) (rw (e, f, big) refl)
            ]
          ]
        ]
      ]
    ]

-- A string that fits into the buffer is written so that a reader of JSON strings gives it back, and
-- the text behind it; for strings without control bytes other than tabulators and line ends.
pub json_escape_str_lem :
    (s text rest : Bytes) (cap : ℕ) (first : Bool)
    → all is_plain s ≡ true
    → length text + (length (pieces s) + 2) < cap
    → (out : Bytes) × (json_escape_str s (jw_of text cap first)
        ≡ jw_of (text ++ 34 ∷ out) cap first)
      × (read_string false (out ++ rest) ≡ some (s, rest))
unfolding read_string pieces all
json_escape_str_lem s text rest cap first h k = (
  pieces s ++ codes "\"",
  escape-Writes s first text cap (omega (arith, length-append (34 ∷ pieces s) (codes "\""))),
  ap (read_string false) (append_assoc (pieces s) (codes "\"") rest) ∙ read_pieces s h,
)
  where
    read_pieces :
        (s : Bytes)
        → all is_plain s ≡ true
        → read_string false (pieces s ++ 34 ∷ rest) ≡ some (s, rest)
    read_pieces [] h = refl
    read_pieces (c ∷ s) h =
        let e : is_plain c ≡ true = ground arith in
        let f : all is_plain s ≡ true = ground arith in
        ap (read_string false) (append_assoc (piece c) (pieces s) (34 ∷ rest))
        ∙ read_piece c (pieces s ++ 34 ∷ rest) e
        ∙ ap (push_read c) (read_pieces s f)
