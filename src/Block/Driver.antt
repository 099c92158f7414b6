-- ===== src/Block/Driver.antt =====
-- hal/bb_hal_led.c: the files of an LED, and what the LED block does.
use nxp_imx95_building_block.Block.{BlockAct}
use nxp_imx95_building_block.Common.{
  Bool, Option, none, some, List, [], ◌∷◌, ◌++◌, if◌then◌else◌, take, Bytes, codes, ℤ, pos, negsuc,
  Files, print_int, scan_number,
}

-- `bb_led_t`
pub record Led : Type 0 where
  pub name : Bytes
  pub brightness_path : Bytes
  pub trigger_path : Bytes
  pub max_brightness : ℤ

abbrev led_path : Bytes → Bytes → Bytes
led_path name file = take 127 (codes "/sys/class/leds/" ++ (name ++ file))

abbrev scanned : Option (ℤ × Bytes) → ℤ
scanned none = pos 1
scanned (some (v, s)) = v

abbrev max_in : Option Bytes → ℤ
max_in none = pos 1
max_in (some content) = scanned (scan_number content)

-- `bb_led_open`, with the value returned; `writable` is what `access` answers.
unfoldable pub led_open : Files → (Bytes → Bool) → Bytes → ℤ × Led
unfolding scan_number
led_open files writable name =
    let led : Led = record {
      name = take 63 name;
      brightness_path = led_path name (codes "/brightness");
      trigger_path = led_path name (codes "/trigger");
      max_brightness = max_in (files (led_path name (codes "/max_brightness")));
    } in
    (if writable led.brightness_path then pos 0 else negsuc 0, led)

-- What the block does: a file written, a pause, the thread started, a call of the bus.
pub data LedAct : Type 0 where
  write_led : Bytes → Bytes → LedAct
  sleep_ms : ℤ → LedAct
  start_blink : LedAct
  on_bus : BlockAct → LedAct

abbrev write_opened : (Bytes → Bool) → Bytes → Bytes → List LedAct
write_opened opens path text = if opens path then write_led path text ∷ [] else []

-- `bb_led_set_brightness`; `opens` is which files open for writing.
unfoldable pub set_brightness : (Bytes → Bool) → Led → ℤ → List LedAct
set_brightness opens led value = write_opened opens led.brightness_path (print_int value)

-- `bb_led_set_trigger`
unfoldable pub set_led_trigger : (Bytes → Bool) → Led → Bytes → List LedAct
set_led_trigger opens led trigger = write_opened opens led.trigger_path trigger

-- `bb_led_on`
unfoldable pub led_on : (Bytes → Bool) → Led → List LedAct
unfolding set_brightness
led_on opens led = set_brightness opens led led.max_brightness

-- `bb_led_off`
unfoldable pub led_off : (Bytes → Bool) → Led → List LedAct
unfolding set_brightness
led_off opens led = set_brightness opens led (pos 0)
