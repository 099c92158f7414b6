-- ===== src/Block/Led/Overrun.antt =====
-- blocks/bb-led/main.c: a command whose event the array of the handler does not hold.
use nxp_imx95_building_block.Block.Led.{LedBlock, BlinkState, tell, cmd_solid, led_command, on_cmd}
use nxp_imx95_building_block.Json.Getters.{is_plain, quoted, get_string_lem}
use nxp_imx95_building_block.Json.{
  Writer, store, json_init, print, then_print, drop_comma, end_object, close_object, start_object,
  get_string,
}
use nxp_imx95_building_block.Json.Build.{Shows, length-store, print-Shows}
use nxp_imx95_building_block.Json.Object.{
  Field, add_field, add_fields, then_end, then_start, write_object, key_text, value_text, trailing,
  add_field-print, add_fields-Shows, fresh, opened-Shows, string_field,
}
use nxp_imx95_building_block.Common.{
  ℕ, ◌+◌, ◌-◌, ◌≤◌, ◌<◌, ◌≡◌, refl, sym, ap, ◌∙◌, Bool, true, false, Option, none, some, [], ◌∷◌,
  ◌++◌, arith, ltb, leb, ◌==◌, if◌then◌else◌, length, take, length-append, get_elem?_ge, take_all,
  Bytes, codes, str_eq, starts_with, all, ℤ, IsFirst-test,
}

-- A text that does not fit leaves the position behind the end of the buffer.
print-long :
    (w : Writer) (t text : Bytes)
    → Shows w t
    → length t ≤ w.size
    → (v : Writer) × (print text w ≡ some v)
      × (v.pos ≡ length t + length text)
      × (length v.buf ≡ w.size)
unfolding print
print-long w t text s h =
    let inside : leb w.pos w.size ≡ true = ground (arith, s.at) in
    let cells : Bytes =
      if w.pos == w.size
      then w.buf
      else store w.pos (take (w.size - w.pos - 1) text ++ 0 ∷ []) w.buf in
    (
      record { buf = cells; size = w.size; pos = w.pos + length text },
      rw inside refl,
      ap (λ n. n + length text) s.at,
      kept (w.pos == w.size),
    )
  where
    kept :
        (b : Bool)
        → length (if b then w.buf else store w.pos (take (w.size - w.pos - 1) text ++ 0 ∷ []) w.buf)
          ≡ w.size
    kept true = sym s.cells
    kept false = length-store w.pos (take (w.size - w.pos - 1) text ++ 0 ∷ []) w.buf ∙ sym s.cells

-- The object cannot be closed there.
end_object-behind : (v : Writer) → 1 < v.pos → length v.buf < v.pos → end_object v ≡ none
unfolding end_object drop_comma close_object
end_object-behind v p h =
    let long : ltb 1 v.pos ≡ true = ground arith in
    rw (long, get_elem?_ge v.buf (v.pos - 1) (omega arith)) refl

add_fields-none : (o : Option Writer) → add_fields [] o ≡ o
unfolding add_fields
add_fields-none none = refl
add_fields-none (some w) = refl

-- An object whose last member does not fit any more.
write_object-long :
    (c : ℕ) (cells : Bytes) (f g : Field)
    → length (key_text f) + length (value_text f) + length (key_text g) + 4 < length (c ∷ cells)
    → length (c ∷ cells)
      < length (key_text f)
        + length (value_text f)
        + (length (key_text g) + length (value_text g))
        + 3
    → write_object (c ∷ cells) (f ∷ g ∷ []) ≡ none
unfolding write_object json_init add_fields trailing then_print then_start then_end
write_object-long c cells f g h k =
    let (s, n) = opened-Shows c cells in
    let first = key_text f ++ (value_text f ++ 44 ∷ []) in
    let lf = length-append (key_text f) (value_text f ++ 44 ∷ []) in
    let lv = length-append (value_text f) (44 ∷ []) in
    let ln = length-append first [] in
    let (v, e, sv, m) =
      add_fields-Shows (f ∷ []) (start_object (fresh c cells)) (123 ∷ []) s (omega arith) in
    let before = 123 ∷ (first ++ []) in
    let (u, d, su, o) = print-Shows v before (key_text g) sv (omega arith) in
    let lk = length-append before (key_text g) in
    let lg = length-append (value_text g) (44 ∷ []) in
    let (z, q, at, room) =
      print-long u (before ++ key_text g) (value_text g ++ 44 ∷ []) su (omega arith) in
    let step : add_field g v ≡ some z =
      add_field-print g v ∙ ap (then_print (value_text g ++ 44 ∷ [])) d ∙ q in
    let opened : add_field f (start_object (fresh c cells)) ≡ some v =
      sym (add_fields-none (add_field f (start_object (fresh c cells)))) ∙ e in
    ap (λ o. then_end (add_fields (g ∷ []) o)) opened
    ∙ ap (λ o. then_end (add_fields [] o)) step
    ∙ end_object-behind z (omega arith) (omega arith)

abbrev pub solid_payload : Bytes → Bytes
solid_payload state = codes "{\"cmd\":\"solid\",\"state\":\"" ++ (state ++ codes "\"}")

cmd_read : (state : Bytes) → get_string (solid_payload state) (codes "cmd") ≡ some (codes "solid")
unfolding all starts_with
cmd_read state =
    get_string_lem (codes "{") (codes "cmd") (codes "solid")
      (codes ",\"state\":\"" ++ (state ++ codes "\"}")) (omega arith) (omega arith) refl (refl, tt)

state_read :
    (state : Bytes)
    → all is_plain state ≡ true
    → length state ≤ 255
    → get_string (solid_payload state) (codes "state") ≡ some state
unfolding starts_with
state_read state h k =
    get_string_lem (codes "{\"cmd\":\"solid\",") (codes "state") state (codes "}") (omega arith) k h
      (IsFirst-test (quoted (codes "state")) (codes "{\"cmd\":\"solid\",")
        (quoted (codes "state") ++ 58 ∷ 34 ∷ (state ++ codes "\"}")) refl)

event_long :
    (evt state : Bytes)
    → length evt ≡ 256
    → 230 ≤ length state
    → write_object evt (
        string_field (codes "type") (some (codes "solid"))
        ∷ string_field (codes "state") (some state)
        ∷ [])
      ≡ none
unfolding key_text value_text
event_long [] state n h = absurd (omega arith)
event_long (c ∷ evt) state n h =
    write_object-long c evt (string_field (codes "type") (some (codes "solid")))
      (string_field (codes "state") (some state)) (omega (arith, n))
      (omega (arith, n, length-append state (codes "\"")))

-- The command "solid" with a state of 230 to 255 bytes makes the handler go on behind the end of its
-- array: the event is longer than 255 bytes, and the writer then reads a byte behind them.
pub on_cmd_overruns :
    (b : LedBlock) (now : ℤ) (st : BlinkState) (state : Bytes)
    → length b.evt ≡ 256
    → all is_plain state ≡ true
    → 230 ≤ length state
    → length state ≤ 255
    → on_cmd b now (solid_payload state) st ≡ none
unfolding on_cmd led_command cmd_solid tell str_eq
on_cmd_overruns b now st state n h l k =
    let evt : take 256 b.evt ≡ b.evt = take_all 256 b.evt (omega (arith, n)) in
    rw (cmd_read state, state_read state h k, evt, event_long b.evt state n l) refl
