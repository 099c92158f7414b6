-- ===== src/Json/Overrun.antt =====
-- libbb/bb_json.c: what the writer does when a text does not fit into the buffer.
use nxp_imx95_building_block.Json.{Writer, print, then_print}
use nxp_imx95_building_block.Json.Object.{Field, add_field, key_text, value_text, add_field-print}
use nxp_imx95_building_block.Common.{
  ◌+◌, ◌<◌, ◌≡◌, refl, ◌∙◌, inl, inr, false, none, [], ◌∷◌, ◌++◌, arith, leb, Bool-cases, length,
  Bytes,
}

-- A text printed behind the end is written outside the buffer.
print-behind : (text : Bytes) (w : Writer) → w.size < w.pos → print text w ≡ none
unfolding print
print-behind text w h = let far : leb w.pos w.size ≡ false = ground arith in rw far refl

-- A member whose key and colon take more than what is left of the buffer, without counting the NUL,
-- makes the writer store its value outside the buffer; it is the same when the position is behind the
-- end already.
pub add_field_overruns :
    (f : Field) (w : Writer) → w.size < w.pos + length (key_text f) → add_field f w ≡ none
unfolding print then_print
add_field_overruns f w h = add_field-print f w ∙ elim (Bool-cases (leb w.pos w.size)) [
  | inl e ↦ rw e (
      print-behind (value_text f ++ 44 ∷ [])
        (record { buf = _; size = w.size; pos = w.pos + length (key_text f) }) h)
  | inr e ↦ rw e refl
]
