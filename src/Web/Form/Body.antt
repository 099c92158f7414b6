-- ===== src/Web/Form/Body.antt =====
-- services/bb-webd.c: a GPIO form as a client sends it.
use nxp_imx95_building_block.Web.Http.{http_ok, content, http_server_error}
use nxp_imx95_building_block.Web.Form.{
  run, fields, json_type, GpioForm, atoi_len, set_chip, set_line, set_value, gpio_pair, gpio_fields,
  gpio_form, gpio_command, gpio_response, gpio_answer, handle_control_gpio,
}
use nxp_imx95_building_block.Web.Form.Led.{fields-part, fields-last, effects_of}
use nxp_imx95_building_block.Common.{
  ℕ, ◌≤◌, ◌≡◌, refl, sym, ap, ap₂, ◌∙◌, Bool, true, false, not, ◌&&◌, ◌||◌, some, [], ◌∷◌, ◌++◌,
  append-nil, arith, if◌then◌else◌, le→leb, Bytes, codes, str_eq, all, pos, negsuc, ltb_ℤ, eq_ℤ,
  int_max, after_char, before_char, decimal, scan_digits, scan_digits-decimal, scan_digits-stop,
  decimal-lacks,
}

atoi_len-decimal : (n : ℕ) → n ≤ int_max → atoi_len (decimal n) ≡ some (pos n)
unfolding atoi_len
atoi_len-decimal n h =
    let read : scan_digits 0 (decimal n) ≡ (n, []) =
      ap (scan_digits 0) (sym (append-nil (decimal n)))
      ∙ scan_digits-decimal n [] (omega (arith, h))
      ∙ scan_digits-stop n [] refl in
    rw (read, le→leb n int_max h) refl

-- The body that a form of chip, line and value sends.
abbrev pub gpio_body : ℕ → ℕ → ℕ → Bytes
gpio_body chip line value =
    (codes "chip=" ++ decimal chip)
    ++ 38 ∷ ((codes "line=" ++ decimal line) ++ 38 ∷ (codes "value=" ++ decimal value))

gpio_body-fields :
    (chip line value : ℕ)
    → fields (gpio_body chip line value)
      ≡ (codes "chip=" ++ decimal chip)
        ∷ (codes "line=" ++ decimal line)
        ∷ (codes "value=" ++ decimal value)
        ∷ []
unfolding all
gpio_body-fields chip line value =
    fields-part (codes "chip=" ++ decimal chip)
      ((codes "line=" ++ decimal line) ++ 38 ∷ (codes "value=" ++ decimal value))
      (decimal-lacks 38 chip refl)
    ∙ ap (◌∷◌ (codes "chip=" ++ decimal chip)) (
        fields-part (codes "line=" ++ decimal line) (codes "value=" ++ decimal value)
          (decimal-lacks 38 line refl)
        ∙ ap (◌∷◌ (codes "line=" ++ decimal line))
            (fields-last 118 (codes "alue=" ++ decimal value) (decimal-lacks 38 value refl)))

run_only :
    (a b : Bool) (denied wrong done command : Bytes)
    → a ≡ false
    → b ≡ false
    → effects_of
        (some (if a then (denied, []) else if b then (wrong, []) else (done, run command ∷ [])))
      ≡ run command ∷ []
run_only true b denied wrong done command h k = cc
run_only false true denied wrong done command h k = cc
run_only false false denied wrong done command h k = refl

not_below : (n : ℕ) → ltb_ℤ (pos n) (pos 0) ≡ false
not_below n = ground arith

is_bit : (n : ℕ) → n ≤ 1 → (not (eq_ℤ (pos n) (pos 0)) && not (eq_ℤ (pos n) (pos 1))) ≡ false
is_bit n h = ground arith

-- A form with a chip and a line that fit an `int` and the value 0 or 1 is read as it was sent: it runs
-- gpioset for that chip, line and value, and nothing else.
pub handle_control_gpio_lem :
    (ok : Bytes → Bool) (chip line value : ℕ)
    → chip ≤ int_max
    → line ≤ int_max
    → value ≤ 1
    → effects_of (handle_control_gpio ok (gpio_body chip line value))
      ≡ run (gpio_command (record { chip = pos chip; line = pos line; value = pos value })) ∷ []
unfolding handle_control_gpio gpio_form gpio_fields gpio_pair gpio_answer after_char before_char
    str_eq
handle_control_gpio_lem ok chip line value c l v =
    let f : GpioForm = record { chip = pos chip; line = pos line; value = pos value } in
    let unset : GpioForm = record { chip = negsuc 0; line = negsuc 0; value = negsuc 0 } in
    let form : gpio_form (gpio_body chip line value)
        ≡ some (record { chip = pos chip; line = pos line; value = pos value }) =
      ap (λ ts. gpio_fields ts (some unset)) (gpio_body-fields chip line value)
      ∙ ap
          (λ o.
            gpio_fields ((codes "line=" ++ decimal line) ∷ (codes "value=" ++ decimal value) ∷ [])
              (set_chip unset o))
          (atoi_len-decimal chip c)
      ∙ ap
          (λ o.
            gpio_fields ((codes "value=" ++ decimal value) ∷ [])
              (set_line (record { chip = pos chip; line = negsuc 0; value = negsuc 0 }) o))
          (atoi_len-decimal line l)
      ∙ ap
          (λ o.
            gpio_fields []
              (set_value (record { chip = pos chip; line = pos line; value = negsuc 0 }) o))
          (atoi_len-decimal value (omega (arith, v))) in
    ap (λ o. effects_of (gpio_answer ok o)) form
    ∙ run_only (ltb_ℤ (pos chip) (pos 0) || ltb_ℤ (pos line) (pos 0))
        (not (eq_ℤ (pos value) (pos 0)) && not (eq_ℤ (pos value) (pos 1)))
        (http_server_error (codes "Missing chip/line"))
        (http_server_error (codes "value must be 0 or 1"))
        (http_ok json_type ++ content (gpio_response (ok (gpio_command f)) f)) (gpio_command f)
        (ap₂ ◌||◌ (not_below chip) (not_below line)) (is_bit value v)
