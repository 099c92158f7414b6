-- ===== src/Web/Form/Gpio.antt =====
-- services/bb-webd.c: which commands `handle_control_gpio` runs.

use nxp_imx95_building_block.Web.Http.{http_ok, content, http_server_error}
use nxp_imx95_building_block.Web.Form.{
  Effect, write_to, run, sync_disks, fields, json_type, GpioForm, atoi_len, set_chip, set_line,
  set_value, gpio_pair, gpio_fields, gpio_form, gpio_command, gpio_response, gpio_answer,
  handle_control_gpio,
}
use nxp_imx95_building_block.Web.Form.Led.{effects_of}
use nxp_imx95_building_block.Common.{
  ℕ, ◌≤◌, ◌≡◌, refl, ap, ◌∙◌, ◌⊎◌, inl, inr, Bool, true, false, not, ◌&&◌, ◌||◌, Option, none, some,
  List, [], ◌∷◌, ◌++◌, arith, leb, if◌then◌else◌, leb→le, Bool-cases, All, Bytes, codes, str_eq, ℤ,
  pos, negsuc, ltb_ℤ, eq_ℤ, int_max, after_char, before_char, scan_digits,
}

-- A number that `atoi_len` gives, or the -1 that a field begins with.
abbrev IsField : ℤ → Type 0
IsField v = (v ≡ negsuc 0) ⊎ ((n : ℕ) × (v ≡ pos n) × (n ≤ int_max))

record IsForm (f : GpioForm) : Type 0 where
  chip_field : IsField f.chip
  line_field : IsField f.line
  value_field : IsField f.value

abbrev FormOf : Option GpioForm → Type 0
FormOf none = Unit
FormOf (some f) = IsForm f

abbrev FieldOf : Option ℤ → Type 0
FieldOf none = Unit
FieldOf (some v) = IsField v

atoi_len-IsField : (s : Bytes) → FieldOf (atoi_len s)
unfolding atoi_len
atoi_len-IsField s = elim (Bool-cases (leb (scan_digits 0 s).0 int_max)) [
  | inl e ↦ rw e (inr ((scan_digits 0 s).0, refl, leb→le (scan_digits 0 s).0 int_max e))
  | inr e ↦ rw e tt
]

set_chip-IsForm : (f : GpioForm) (o : Option ℤ) → IsForm f → FieldOf o → FormOf (set_chip f o)
set_chip-IsForm f none h k = tt
set_chip-IsForm f (some v) h k = record {
  chip_field = k;
  line_field = h.line_field;
  value_field = h.value_field;
}

set_line-IsForm : (f : GpioForm) (o : Option ℤ) → IsForm f → FieldOf o → FormOf (set_line f o)
set_line-IsForm f none h k = tt
set_line-IsForm f (some v) h k = record {
  chip_field = h.chip_field;
  line_field = k;
  value_field = h.value_field;
}

set_value-IsForm : (f : GpioForm) (o : Option ℤ) → IsForm f → FieldOf o → FormOf (set_value f o)
set_value-IsForm f none h k = tt
set_value-IsForm f (some v) h k = record {
  chip_field = h.chip_field;
  line_field = h.line_field;
  value_field = k;
}

either_form : (b : Bool) (x y : Option GpioForm) → FormOf x → FormOf y → FormOf (if b then x else y)
either_form true x y h k = h
either_form false x y h k = k

gpio_pair-IsForm :
    (f : GpioForm) (key : Bytes) (o : Option Bytes) → IsForm f → FormOf (gpio_pair f key o)
unfolding gpio_pair
gpio_pair-IsForm f key none h = h
gpio_pair-IsForm f key (some val) h =
    either_form (str_eq key (codes "chip")) (set_chip f (atoi_len val)) _
      (set_chip-IsForm f (atoi_len val) h (atoi_len-IsField val))
      (either_form (str_eq key (codes "line")) (set_line f (atoi_len val)) _
        (set_line-IsForm f (atoi_len val) h (atoi_len-IsField val))
        (either_form (str_eq key (codes "value")) (set_value f (atoi_len val)) (some f)
          (set_value-IsForm f (atoi_len val) h (atoi_len-IsField val)) h))

gpio_fields-IsForm : (ts : List Bytes) (o : Option GpioForm) → FormOf o → FormOf (gpio_fields ts o)
unfolding gpio_fields
gpio_fields-IsForm [] none h = tt
gpio_fields-IsForm (t ∷ ts) none h = tt
gpio_fields-IsForm [] (some f) h = h
gpio_fields-IsForm (t ∷ ts) (some f) h =
    gpio_fields-IsForm ts (gpio_pair f (before_char 61 t) (after_char 61 t))
      (gpio_pair-IsForm f (before_char 61 t) (after_char 61 t) h)

-- The command that sets a line of a chip.
abbrev pub IsGpioset : Effect → Type 0
IsGpioset (run command) =
    (chip : ℕ) × (line : ℕ) × (value : ℕ) × (command
      ≡ gpio_command (record { chip = pos chip; line = pos line; value = pos value }))
    × (chip ≤ int_max)
    × (line ≤ int_max)
    × (value ≤ 1)
IsGpioset (write_to path text) = ⊥
IsGpioset sync_disks = ⊥

field_pos : (v : ℤ) → IsField v → ltb_ℤ v (pos 0) ≡ false → (n : ℕ) × (v ≡ pos n) × (n ≤ int_max)
field_pos v (inl e) h = absurd (ground (arith, e))
field_pos v (inr k) h = k

eq_pos : (v : ℤ) (n : ℕ) → eq_ℤ v (pos n) ≡ true → v ≡ pos n
eq_pos (pos m) n h = ap pos (ground (arith, h))
eq_pos (negsuc m) n h = cc

bit_value :
    (v : ℤ)
    → (not (eq_ℤ v (pos 0)) && not (eq_ℤ v (pos 1))) ≡ false
    → (n : ℕ) × (v ≡ pos n) × (n ≤ 1)
bit_value v h = elim (Bool-cases (eq_ℤ v (pos 0))) [
  | inl e ↦ (0, eq_pos v 0 e, omega arith)
  | inr e ↦ elim (Bool-cases (eq_ℤ v (pos 1))) [
    | inl f ↦ (1, eq_pos v 1 f, omega arith)
    | inr f ↦ absurd (ground (arith, e, f))
  ]
]

or_false : (a b : Bool) → (a || b) ≡ false → (a ≡ false) × (b ≡ false)
or_false true b h = cc
or_false false b h = (refl, h)

guarded :
    (a b : Bool) (denied wrong done command : Bytes)
    → (a ≡ false → b ≡ false → IsGpioset (run command))
    → All IsGpioset (
        effects_of
          (some (if a then (denied, []) else if b then (wrong, []) else (done, run command ∷ []))))
guarded true b denied wrong done command k = tt
guarded false true denied wrong done command k = tt
guarded false false denied wrong done command k = (k refl refl, tt)

command-IsGpioset :
    (f : GpioForm)
    → IsForm f
    → (ltb_ℤ f.chip (pos 0) || ltb_ℤ f.line (pos 0)) ≡ false
    → (not (eq_ℤ f.value (pos 0)) && not (eq_ℤ f.value (pos 1))) ≡ false
    → IsGpioset (run (gpio_command f))
command-IsGpioset f h a b =
    let (a1, a2) = or_false (ltb_ℤ f.chip (pos 0)) (ltb_ℤ f.line (pos 0)) a in
    let (c, ec, bc) = field_pos f.chip h.chip_field a1 in
    let (l, el, bl) = field_pos f.line h.line_field a2 in
    let (v, ev, bv) = bit_value f.value b in
    (
      c,
      l,
      v,
      ap (λ x. gpio_command (record { chip = x; line = f.line; value = f.value })) ec
          ∙ ap (λ x. gpio_command (record { chip = pos c; line = x; value = f.value })) el
          ∙ ap (λ x. gpio_command (record { chip = pos c; line = pos l; value = x })) ev,
      bc,
      bl,
      bv,
    )

-- Whatever the body of the request, `handle_control_gpio` writes no file and runs no command but
-- gpioset with a chip and a line that fit an `int` and the value 0 or 1, printed as numbers.
pub handle_control_gpio-IsGpioset :
    (ok : Bytes → Bool) (body : Bytes) → All IsGpioset (effects_of (handle_control_gpio ok body))
unfolding handle_control_gpio gpio_form gpio_answer
handle_control_gpio-IsGpioset ok body =
    go (gpio_form body) (gpio_fields-IsForm (fields body) (some unset) unset-IsForm)
  where
    unset : GpioForm
    unset = record { chip = negsuc 0; line = negsuc 0; value = negsuc 0 }

    unset-IsForm : IsForm unset
    unset-IsForm = record { chip_field = inl refl; line_field = inl refl; value_field = inl refl }

    go : (o : Option GpioForm) → FormOf o → All IsGpioset (effects_of (gpio_answer ok o))
    go none h = tt
    go (some f) h =
        guarded (ltb_ℤ f.chip (pos 0) || ltb_ℤ f.line (pos 0))
          (not (eq_ℤ f.value (pos 0)) && not (eq_ℤ f.value (pos 1)))
          (http_server_error (codes "Missing chip/line"))
          (http_server_error (codes "value must be 0 or 1"))
          (http_ok json_type ++ content (gpio_response (ok (gpio_command f)) f)) (gpio_command f)
          (command-IsGpioset f h)
