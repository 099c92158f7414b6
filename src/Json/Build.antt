-- ===== src/Json/Build.antt =====
-- libbb/bb_json.c: what the writer leaves in the buffer.
use nxp_imx95_building_block.Json.{Writer, store, put, print, then_print}
use nxp_imx95_building_block.Common.{
  ℕ, zero, suc, ◌+◌, ◌-◌, ◌≤◌, ◌<◌, ◌≡◌, refl, sym, ap, ap₂, subst, ◌∙◌, true, false, some, [], ◌∷◌,
  ◌++◌, append_assoc, arith, ltb, leb, ◌==◌, length, take, drop, length-append, take_all, Bytes,
}

-- The text written so far stands at the front of the buffer, and the position behind it.
pub record Shows (w : Writer) (t : Bytes) : Type 0 where
  pub rest : Bytes
  pub front : w.buf ≡ t ++ rest
  pub at : w.pos ≡ length t
  pub cells : w.size ≡ length w.buf

store-skip : (t d rest : Bytes) → store (length t) d (t ++ rest) ≡ t ++ store 0 d rest
unfolding store
store-skip [] d rest = refl
store-skip (c ∷ t) [] rest = ap (◌∷◌ c) (store-skip t [] rest)
store-skip (c ∷ t) (x ∷ d) rest = ap (◌∷◌ c) (store-skip t (x ∷ d) rest)

store-front : (d rest : Bytes) → length d ≤ length rest → store 0 d rest ≡ d ++ drop (length d) rest
unfolding store
store-front [] [] h = refl
store-front [] (c ∷ rest) h = refl
store-front (x ∷ d) [] h = absurd (omega arith)
store-front (x ∷ d) (c ∷ rest) h = ap (◌∷◌ x) (store-front d rest (omega arith))

-- Bytes stored behind the text.
pub store-behind :
    (t d rest : Bytes)
    → length d ≤ length rest
    → store (length t) d (t ++ rest) ≡ t ++ (d ++ drop (length d) rest)
store-behind t d rest h = store-skip t d rest ∙ ap (λ r. t ++ r) (store-front d rest h)

room : (w : Writer) (t : Bytes) (s : Shows w t) → w.size ≡ length t + length s.rest
room w t s = s.cells ∙ ap length s.front ∙ length-append t s.rest

pub length-store : (n : ℕ) (d cells : Bytes) → length (store n d cells) ≡ length cells
unfolding store
length-store n d [] = refl
length-store zero [] (c ∷ cells) = refl
length-store zero (x ∷ d) (c ∷ cells) = ap suc (length-store zero d cells)
length-store (suc n) d (c ∷ cells) = ap suc (length-store n d cells)

-- Bytes stored at the position stand behind the text.
pub store-Shows :
    (w : Writer) (t d : Bytes) (s : Shows w t)
    → length t + length d ≤ w.size
    → store w.pos d w.buf ≡ t ++ (d ++ drop (length d) s.rest)
store-Shows w t d s h =
    ap₂ (λ n b. store n d b) s.at s.front ∙ store-behind t d s.rest (omega (arith, room w t s))

-- A text that fits with its NUL is appended.
pub print-Shows :
    (w : Writer) (t text : Bytes)
    → Shows w t
    → length t + length text < w.size
    → (v : Writer) × (print text w ≡ some v) × Shows v (t ++ text) × (v.size ≡ w.size)
unfolding print
print-Shows w t text s h =
    let inside : leb w.pos w.size ≡ true = ground (arith, s.at) in
    let full : (w.pos == w.size) ≡ false = ground (arith, s.at) in
    let whole : take (w.size - w.pos - 1) text ≡ text =
      take_all (w.size - w.pos - 1) text (omega (arith, s.at)) in
    let ended = text ++ 0 ∷ [] in
    let left = drop (length ended) s.rest in
    (
      record { buf = store w.pos ended w.buf; size = w.size; pos = w.pos + length text },
      rw (inside, full, whole) refl,
      record {
        rest = 0 ∷ left;
        front =
            store-Shows w t ended s (omega (arith, h, length-append text (0 ∷ [])))
            ∙ ap (λ r. t ++ r) (append_assoc text (0 ∷ []) left)
            ∙ sym (append_assoc t text (0 ∷ left));
        at = omega (arith, s.at, length-append t text);
        cells = s.cells ∙ sym (length-store w.pos ended w.buf);
      },
      refl,
    )

-- One byte at the position, with none behind it.
pub put-Shows :
    (c : ℕ) (w : Writer) (t : Bytes)
    → Shows w t
    → length t < w.size
    → Shows (put c w) (t ++ c ∷ []) × ((put c w).size ≡ w.size)
unfolding put
put-Shows c w t s h =
    let inside : ltb w.pos w.size ≡ true = ground (arith, s.at) in
    rw inside (
      record {
        rest = drop 1 s.rest;
        front =
            store-Shows w t (c ∷ []) s (omega arith)
            ∙ sym (append_assoc t (c ∷ []) (drop 1 s.rest));
        at = omega (arith, s.at, length-append t (c ∷ []));
        cells = s.cells ∙ sym (length-store w.pos (c ∷ []) w.buf);
      },
      refl,
    )

-- Two texts one behind the other.
pub then_print-Shows :
    (w : Writer) (t a b : Bytes)
    → Shows w t
    → length t + (length a + length b) < w.size
    → (v : Writer) × (then_print b (print a w) ≡ some v)
      × Shows v (t ++ (a ++ b))
      × (v.size ≡ w.size)
unfolding then_print
then_print-Shows w t a b s h =
    let (v, e, sv, n) = print-Shows w t a s (omega arith) in
    let (u, f, su, m) = print-Shows v (t ++ a) b sv (omega (arith, n, length-append t a)) in
    (u, rw e f, subst (λ x. Shows u x) (append_assoc t a b) su, m ∙ n)
