-- ===== src/Web/Form.antt =====
-- services/bb-webd.c: the handlers of the control API and their form parsers. Files that are written,
-- and commands that are run, are effects.
pub mod Sent
pub mod Led
pub mod Overflow
pub mod Gpio
pub mod Body
use nxp_imx95_building_block.Web.Http.{
  mime_of, mime_from, mime_by_ext, http_ok, http_nocache, content, http_error, http_not_found,
  http_method_not_allowed, http_server_error, read_file, first_line, read_proc_line,
}
use nxp_imx95_building_block.Common.{
  ℕ, zero, suc, ◌+◌, ◌-◌, ◌*◌, ◌/◌, ◌%◌, ◌^◌, ◌≤◌, ◌<◌, min, ◌≡◌, refl, sym, ap, ap₂, subst, ◌∙◌,
  ◌≢◌, ◌↔◌, ◌⊎◌, inl, inr, Bool, true, false, not, ◌&&◌, ◌||◌, Option, none, some, List, [], ◌∷◌,
  ◌++◌, map, append-nil, append_assoc, arith, ltb, leb, ◌==◌, if◌then◌else◌, ltb→lt, lt→ltb,
  le→not_ltb, leb→le, le→leb, ==_iff, ==_self, ==_ne, tests, Bool-cases, Option-cases, length,
  get_elem?, get_or, set, take, drop, replicate, length-append, length-set, get_elem?-set_self,
  get_elem?-set_ne, get_elem?_lt, get_elem?_ge, lt_of_get_elem?, take-append-drop, length-take,
  length-drop, take_all, drop_all, take-append_length, drop-append_length, length-replicate,
  length-map, All, All-append, length-take_le, Bytes, codes, str_eq, starts_with, str_eq_refl,
  str_eq→eq, str_eq_ne, starts_with-append, all, all-append, ℤ, pos, negsuc, pos_part, neg_part,
  ltb_ℤ, leb_ℤ, eq_ℤ, sub_ℕ, ◌+ℤ◌, ◌-ℤ◌, int_max, fetch_inc, fetch_dec, fetch_inc_lt, fetch_dec_pos,
  is_space, skip_space, token, after_char, before_char, from_last, Files, write_file, delete_file,
  rename_file, extend_line, read_lines, read-write, read-write_ne, read-rename, read-rename_ne,
  is_digit, pow10, digits, decimal, print_int, scan_digits, no_digit, scan_digits-decimal,
  scan_digits-stop, signed_value, scan_int, after_match, IsFirst, after_match-first, occurs, lower,
  after_match_case, push_token, scan_tokens, tokens,
}

-- What a handler does beside its response.
pub data Effect : Type 0 where
  write_to : Bytes → Bytes → Effect
  run : Bytes → Effect
  sync_disks : Effect

-- A response and its effects.
abbrev pub Answer : Type 0
Answer = Bytes × List Effect

-- The loop `while (p < end)` with `memchr(p, '&', end - p)`: the parts between the signs.
unfoldable pub fields : Bytes → List Bytes
unfolding extend_line
fields [] = []
fields (c ∷ s) = let more = fields s in if c == 38 then [] ∷ more else extend_line c more

-- The buffers `led`, `val_str` and `trigger` as strings.
pub record LedForm : Type 0 where
  pub led : Bytes
  pub val_str : Bytes
  pub trigger : Bytes

-- `memcpy(buf, eq+1, vlen < 63 ? vlen : 63); buf[vlen] = '\0'`: none is a write behind the 64 bytes.
unfoldable pub copy_value : Bytes → Option Bytes
copy_value val = if ltb (length val) 64 then some (before_char 0 (take 63 val)) else none

abbrev pub set_led : LedForm → Option Bytes → Option LedForm
set_led f none = none
set_led f (some s) = some (record f { led = s })

abbrev pub set_val : LedForm → Option Bytes → Option LedForm
set_val f none = none
set_val f (some s) = some (record f { val_str = s })

abbrev pub set_trigger : LedForm → Option Bytes → Option LedForm
set_trigger f none = none
set_trigger f (some s) = some (record f { trigger = s })

-- A key that is not empty, with a value that is not empty.
unfoldable pub led_pair : LedForm → Bytes → Option Bytes → Option LedForm
unfolding copy_value
led_pair f key none = some f
led_pair f key (some []) = some f
led_pair f key (some (c ∷ val)) =
    if str_eq key (codes "led")
    then set_led f (copy_value (c ∷ val))
    else if str_eq key (codes "brightness")
    then set_val f (copy_value (c ∷ val))
    else if str_eq key (codes "trigger")
    then set_trigger f (copy_value (c ∷ val))
    else some f

unfoldable pub led_fields : List Bytes → Option LedForm → Option LedForm
unfolding led_pair
led_fields fs none = none
led_fields [] (some f) = some f
led_fields (t ∷ ts) (some f) = led_fields ts (led_pair f (before_char 61 t) (after_char 61 t))

-- The form parser of `handle_control_led`.
unfoldable pub led_form : Bytes → Option LedForm
unfolding fields led_fields
led_form body = led_fields (fields body) (some (record { led = []; val_str = []; trigger = [] }))

abbrev pub is_empty : Bytes → Bool
is_empty [] = true
is_empty (c ∷ s) = false

-- The trigger values that are let through.
abbrev pub is_safe : Bytes → Bool
is_safe t =
    str_eq t (codes "none")
    || str_eq t (codes "heartbeat")
    || str_eq t (codes "timer")
    || str_eq t (codes "default-on")

-- `open(path, O_WRONLY)` and `write`, where the file opens.
abbrev pub write_if : (Bytes → Bool) → Bytes → Bytes → List Effect
write_if opens path text = if opens path then write_to path text ∷ [] else []

abbrev pub led_file : Bytes → Bytes → Bytes
led_file led file = take 255 (codes "/sys/class/leds/" ++ (led ++ file))

unfoldable pub led_effects : (Bytes → Bool) → LedForm → List Effect
led_effects opens f =
    (if is_empty f.trigger
      then []
      else if is_safe f.trigger
      then write_if opens (led_file f.led (codes "/trigger")) f.trigger
      else [])
    ++ (if is_empty f.val_str
        then []
        else write_if opens (led_file f.led (codes "/brightness")) f.val_str)

abbrev pub json_type : Bytes
json_type = codes "application/json; charset=utf-8"

unfoldable pub led_answer : (Bytes → Bool) → Option LedForm → Option Answer
unfolding led_effects http_ok content http_server_error
led_answer opens none = none
led_answer opens (some f) = some (
    if is_empty f.led
    then (http_server_error (codes "Missing 'led' parameter"), [])
    else (http_ok json_type ++ content (codes "{\"ok\":true}"), led_effects opens f))

-- `handle_control_led`; none is a write outside a buffer.
unfoldable pub handle_control_led : (Bytes → Bool) → Bytes → Option Answer
unfolding led_form led_answer
handle_control_led opens body = led_answer opens (led_form body)

-- `chip`, `line` and `value`
pub record GpioForm : Type 0 where
  pub chip : ℤ
  pub line : ℤ
  pub value : ℤ

-- `atoi_len`; none where the number does not fit an `int`, which C does not define.
unfoldable pub atoi_len : Bytes → Option ℤ
unfolding scan_digits
atoi_len s = let v = (scan_digits 0 s).0 in if leb v int_max then some (pos v) else none

abbrev pub set_chip : GpioForm → Option ℤ → Option GpioForm
set_chip f none = none
set_chip f (some v) = some (record f { chip = v })

abbrev pub set_line : GpioForm → Option ℤ → Option GpioForm
set_line f none = none
set_line f (some v) = some (record f { line = v })

abbrev pub set_value : GpioForm → Option ℤ → Option GpioForm
set_value f none = none
set_value f (some v) = some (record f { value = v })

unfoldable pub gpio_pair : GpioForm → Bytes → Option Bytes → Option GpioForm
unfolding atoi_len
gpio_pair f key none = some f
gpio_pair f key (some val) =
    if str_eq key (codes "chip")
    then set_chip f (atoi_len val)
    else if str_eq key (codes "line")
    then set_line f (atoi_len val)
    else if str_eq key (codes "value")
    then set_value f (atoi_len val)
    else some f

unfoldable pub gpio_fields : List Bytes → Option GpioForm → Option GpioForm
unfolding gpio_pair
gpio_fields fs none = none
gpio_fields [] (some f) = some f
gpio_fields (t ∷ ts) (some f) = gpio_fields ts (gpio_pair f (before_char 61 t) (after_char 61 t))

-- The form parser of `handle_control_gpio`.
unfoldable pub gpio_form : Bytes → Option GpioForm
unfolding fields gpio_fields
gpio_form body =
    gpio_fields (fields body) (some (record { chip = negsuc 0; line = negsuc 0; value = negsuc 0 }))

-- The command and the response of `handle_control_gpio`.
unfoldable pub gpio_command : GpioForm → Bytes
gpio_command f = take 127 (
    codes "/usr/bin/gpioset "
    ++ (print_int f.chip
        ++ (codes " "
            ++ (print_int f.line ++ (codes "=" ++ (print_int f.value ++ codes " 2>/dev/null"))))))

abbrev pub gpio_text : Bool → GpioForm → Bytes
gpio_text ok f =
    (codes "{\"ok\":"
      ++ ((if ok then codes "true" else codes "false")
          ++ (codes ",\"chip\":"
              ++ (print_int f.chip
                  ++ (codes ",\"line\":"
                      ++ (print_int f.line
                          ++ (codes ",\"value\":" ++ (print_int f.value ++ codes "}"))))))))

unfoldable pub gpio_response : Bool → GpioForm → Bytes
gpio_response ok f = take 127 (gpio_text ok f)

-- What the handler does with a form; `ok` says of a command whether it ends with 0.
unfoldable pub gpio_answer : (Bytes → Bool) → Option GpioForm → Option Answer
unfolding gpio_command gpio_response http_ok content http_server_error
gpio_answer ok none = none
gpio_answer ok (some f) = some (
    if ltb_ℤ f.chip (pos 0) || ltb_ℤ f.line (pos 0)
    then (http_server_error (codes "Missing chip/line"), [])
    else if not (eq_ℤ f.value (pos 0)) && not (eq_ℤ f.value (pos 1))
    then (http_server_error (codes "value must be 0 or 1"), [])
    else (
      http_ok json_type ++ content (gpio_response (ok (gpio_command f)) f),
      run (gpio_command f) ∷ [],
    ))

-- `handle_control_gpio`
unfoldable pub handle_control_gpio : (Bytes → Bool) → Bytes → Option Answer
unfolding gpio_form gpio_answer
handle_control_gpio ok body = gpio_answer ok (gpio_form body)

-- `handle_control_reboot`
unfoldable pub handle_control_reboot : Answer
unfolding http_ok content
handle_control_reboot = (
  http_ok json_type ++ content (codes "{\"ok\":true,\"action\":\"rebooting\"}"),
  sync_disks ∷ run (codes "/sbin/reboot &") ∷ [],
)
