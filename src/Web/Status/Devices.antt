-- ===== src/Web/Status/Devices.antt =====
-- services/bb-webd.c: the API handlers for LEDs, GPIO chips and the system log.
use nxp_imx95_building_block.Web.Builder.{
  Jw, jw_init, jw_arr_start, jw_arr_end, jw_comma, json_escape_str, Call, kv_str, kv_int,
  build_array,
}
use nxp_imx95_building_block.Web.Http.{content, read_proc_line}
use nxp_imx95_building_block.Web.Status.{Board}
use nxp_imx95_building_block.Web.Status.Tables.{read_text, lines_of, names_in}
use nxp_imx95_building_block.Common.{
  ℕ, zero, suc, ◌+◌, ◌-◌, Option, none, some, List, [], ◌∷◌, ◌++◌, ltb, if◌then◌else◌, length, take,
  drop, Bytes, codes, starts_with, after_char, before_char, decimal, scan_int,
}

-- The part of a trigger file in brackets.
abbrev bracketed : Option Bytes → List Call
bracketed none = []
bracketed (some text) = kv_str (codes "trigger") (before_char 93 text) ∷ []

abbrev trigger_calls : Option Bytes → List Call
trigger_calls none = []
trigger_calls (some trig) = bracketed (after_char 91 trig)

abbrev int_call : Bytes → Option Bytes → List Call
int_call key none = []
int_call key (some text) = kv_int key (scan_int text) ∷ []

module _ (b : Board) where
  -- `snprintf(buf, 64, "/sys/class/leds/%s/...", de->d_name)`
  abbrev led_path : Bytes → Bytes → Bytes
  led_path name file = take 63 (codes "/sys/class/leds/" ++ (name ++ file))

  unfoldable pub led_entry : Bytes → List Call
  unfolding read_text
  led_entry name =
      kv_str (codes "name") name
      ∷ (int_call (codes "brightness")
            (read_proc_line b.files (led_path name (codes "/brightness")) 64)
          ++ (int_call (codes "max")
                (read_proc_line b.files (led_path name (codes "/max_brightness")) 64)
              ++ trigger_calls (read_text (b.files (led_path name (codes "/trigger"))) 256)))

  -- The loop of `handle_api_leds` over /sys/class/leds; names that begin with a dot are left out.
  unfoldable pub led_entries : List Bytes → List (List Call)
  unfolding led_entry
  led_entries [] = []
  led_entries (name ∷ names) =
      let more = led_entries names in
      if starts_with (codes ".") name then more else led_entry name ∷ more

  -- `handle_api_leds`: the JSON text.
  unfoldable pub api_leds : Bytes
  unfolding led_entries
  api_leds = (build_array (led_entries (names_in b (codes "/sys/class/leds"))) (jw_init 2048)).text

  abbrev chip_path : ℕ → Bytes
  chip_path chip = codes "/dev/gpiochip" ++ decimal chip

  unfoldable pub chip_entry : ℕ → List Call
  chip_entry chip =
      kv_str (codes "chip") (chip_path chip)
      ∷ int_call (codes "lines") (
          read_proc_line b.files
            (codes "/sys/class/gpio/gpiochip" ++ (decimal chip ++ codes "/ngpio")) 16)

  -- The loop of `handle_api_gpio`: so many chips from this one on, up to the first that is missing.
  unfoldable pub chip_entries : ℕ → ℕ → List (List Call)
  unfolding chip_entry
  chip_entries zero chip = []
  chip_entries (suc n) chip =
      let more = chip_entries n (chip + 1) in
      if b.exists (chip_path chip) then chip_entry chip ∷ more else []

  -- `handle_api_gpio`: the JSON text.
  unfoldable pub api_gpio : Bytes
  unfolding chip_entries
  api_gpio = (build_array (chip_entries 8 0) (jw_init 4096)).text

  -- The log that opens: `f < 0` tries the second.
  abbrev pub log_file : Option Bytes
  log_file = elim (b.files (codes "/var/log/messages")) [
    | none ↦ b.files (codes "/log/messages")
    | some content ↦ some content
  ]

  -- `lseek(f, -2048, SEEK_END)`, which fails and stays at the start in a shorter file.
  abbrev pub tail_of : Option Bytes → Option Bytes
  tail_of none = none
  tail_of (some content) = some (drop (length content - 2048) content)

-- The loop of `handle_api_logs`: a line is added while more than 256 bytes are left. The text never
-- gets shorter, so that a line that finds no room ends the loop.
unfoldable pub add_lines : List Bytes → Jw → Jw
add_lines [] j = j
add_lines (line ∷ ls) j =
    add_lines ls (if ltb (length j.text) (8192 - 256) then json_escape_str line (jw_comma j) else j)

-- `handle_api_logs`: the JSON text.
unfoldable pub api_logs : Board → Bytes
unfolding add_lines read_text
api_logs b =
    (jw_arr_end (
      add_lines (lines_of (read_text (tail_of b (log_file b)) 2048))
        (jw_arr_start (jw_init 8192)))).text
