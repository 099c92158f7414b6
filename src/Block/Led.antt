-- ===== src/Block/Led.antt =====
-- blocks/bb-led/main.c: the LED block, its commands and the thread that blinks.
pub mod Blink
pub mod Overrun
use nxp_imx95_building_block.Block.Driver.{
  Led, led_open, LedAct, write_led, sleep_ms, start_blink, on_bus, set_brightness, set_led_trigger,
  led_on, led_off,
}
use nxp_imx95_building_block.Json.{
  get_string, get_int, Writer, store, json_init, put, start_object, print, then_print, add_key,
  add_string, add_int, add_bool, drop_comma, close_object, end_object, skip_colon, find_key,
  unescape, copy_string, string_at, bool_at, get_bool,
}
use nxp_imx95_building_block.Json.Object.{
  Field, string_field, int_field, write_object, bool_field, add_field, add_fields, then_end,
  then_start, key_text, value_text, members, object_text, trailing, add_field-print, IsWritten,
  write_object_lem, add_fields-Shows, fresh, opened-Shows,
}
use nxp_imx95_building_block.Block.{
  BlockState, state_init, state_ready, state_running, state_stopping, state_stopped, state_error,
  state_str, BlockAct, connect_to, subscribe_to, publish_on, poll_bus, close_bus, call_init,
  call_run, call_stop, Block, block_topic, text_written, state_fields, publish_text, publish_state,
  publish_event, if_set, block_start, Round, round_acts, ends, block_rounds, closed,
  block_main_loop,
}
use nxp_imx95_building_block.Common.{
  ℕ, zero, suc, ◌+◌, ◌-◌, ◌*◌, ◌/◌, ◌%◌, ◌^◌, ◌≤◌, ◌<◌, min, ◌≡◌, refl, sym, ap, ap₂, subst, ◌∙◌,
  ◌≢◌, ◌↔◌, ◌⊎◌, inl, inr, Bool, true, false, not, ◌&&◌, ◌||◌, Option, none, some, List, [], ◌∷◌,
  ◌++◌, map, append-nil, append_assoc, arith, ltb, leb, ◌==◌, if◌then◌else◌, ltb→lt, lt→ltb,
  le→not_ltb, leb→le, le→leb, ==_iff, ==_self, ==_ne, tests, Bool-cases, Option-cases, length,
  get_elem?, get_or, set, take, drop, replicate, length-append, length-set, get_elem?-set_self,
  get_elem?-set_ne, get_elem?_lt, get_elem?_ge, lt_of_get_elem?, take-append-drop, length-take,
  length-drop, take_all, drop_all, take-append_length, drop-append_length, length-replicate,
  length-map, All, All-append, length-take_le, All-take, All-drop, All-set, All-get, Bytes, codes,
  str_eq, starts_with, str_eq_refl, str_eq→eq, str_eq_ne, starts_with-append, all, all-append, ℤ,
  pos, negsuc, pos_part, neg_part, ltb_ℤ, leb_ℤ, eq_ℤ, sub_ℕ, ◌+ℤ◌, ◌-ℤ◌, int_max, fetch_inc,
  fetch_dec, fetch_inc_lt, fetch_dec_pos, is_space, skip_space, token, after_char, before_char,
  from_last, Files, write_file, delete_file, rename_file, extend_line, read_lines, read-write,
  read-write_ne, read-rename, read-rename_ne, is_digit, pow10, digits, decimal, print_int,
  scan_digits, no_digit, scan_digits-decimal, scan_digits-stop, signed_value, scan_int,
  length-digits, length-print_int, after_match, IsFirst, after_match-first, occurs, lower,
  after_match_case, push_token, scan_tokens, tokens, scan_number, unsigned_of, scan_u64, scan_u32,
  scan_char, scan_number-decimal, scan_u64-decimal, scan_u32-decimal, scan_number-print_int,
  scan_number-space, lacks, IsFirst-lacks, IsFirst-append, is_first, IsFirst-test, digits-lacks,
  decimal-lacks, after_match-append, before_char-lacks, after_char-lacks,
}

-- `init` of the block, from what `bb_led_open` returned.
unfoldable pub led_init : (Bytes → Bool) → ℤ × Led → ℤ × List LedAct
unfolding set_led_trigger
led_init opens (negsuc n, led) = (negsuc 0, [])
led_init opens (pos n, led) = (pos 0, set_led_trigger opens led (codes "none"))

-- `g_blink_active` and the settings of the thread.
pub record BlinkState : Type 0 where
  pub blink_active : Bool
  pub blink_on_ms : ℤ
  pub blink_off_ms : ℤ
  pub blink_count : ℤ

-- What a round of the thread reads of `g_blink_active`: in front, after the LED is on, and after it
-- is off.
pub record Checks : Type 0 where
  pub at_start : Bool
  pub after_on : Bool
  pub after_off : Bool

-- What the handlers work with: which files open, the LED, the block and what `evt` holds.
pub record LedBlock : Type 0 where
  pub opens : Bytes → Bool
  pub led : Led
  pub block : Block
  pub evt : Bytes

module _ (b : LedBlock) where
  abbrev pub turn_on : BlinkState → List LedAct
  turn_on st = led_on b.opens b.led ++ sleep_ms st.blink_on_ms ∷ []

  abbrev pub turn_off : BlinkState → List LedAct
  turn_off st = led_off b.opens b.led ++ sleep_ms st.blink_off_ms ∷ []

  -- The loop of `blink_thread` over the rounds that are given, with the settings as they are then:
  -- what was done, and the cycles when it was left.
  unfoldable pub blink_loop : BlinkState → ℕ → List Checks → List LedAct × Option ℕ
  blink_loop st cycles [] = ([], none)
  blink_loop st cycles (k ∷ ks) =
      let rest = blink_loop st (cycles + 1) ks in
      if k.at_start && (eq_ℤ st.blink_count (pos 0) || ltb_ℤ (pos cycles) st.blink_count)
      then if k.after_on
        then if k.after_off
          then (turn_on st ++ (turn_off st ++ rest.0), rest.1)
          else (turn_on st ++ turn_off st, some cycles)
        else (turn_on st, some cycles)
      else ([], some cycles)

  abbrev said :
      BlinkState → List LedAct → List LedAct → Option Bytes → Option (BlinkState × List LedAct)
  said st acts more none = none
  said st acts more (some text) = some (st, acts ++ on_bus (publish_event b.block text) ∷ more)

  -- An event written into an array of so many bytes and published, between other acts; none is a
  -- text that the array does not hold.
  unfoldable pub tell :
      BlinkState → ℕ → List LedAct → List Field → List LedAct → Option (BlinkState × List LedAct)
  unfolding publish_event
  tell st size acts fs more = said st acts more (text_written (write_object (take size b.evt) fs))

  -- The rest of `blink_thread`.
  unfoldable pub blink_done : BlinkState → ℕ → Option (BlinkState × List LedAct)
  unfolding tell
  blink_done st cycles =
      tell st 256 []
        (string_field (codes "type") (some (codes "blink_done"))
          ∷ int_field (codes "cycles") (pos cycles)
          ∷ [])
        []

  abbrev quiet : BlinkState → BlinkState
  quiet st = record st { blink_active = false }

  abbrev told_state : BlinkState → Option (List BlockAct) → Option (BlinkState × List LedAct)
  told_state st none = none
  told_state st (some acts) = some (st, map on_bus acts)

  unfoldable pub cmd_blink : Bytes → BlinkState → Option (BlinkState × List LedAct)
  unfolding tell
  cmd_blink payload st =
      let on_ms = get_int payload (codes "on_ms") (pos 500) in
      let off_ms = get_int payload (codes "off_ms") (pos 500) in
      let count = get_int payload (codes "count") (pos 0) in
      tell
        (record {
          blink_active = true;
          blink_on_ms = on_ms;
          blink_off_ms = off_ms;
          blink_count = count;
        })
        256 (sleep_ms (pos 50) ∷ [])
        (string_field (codes "type") (some (codes "blink_start"))
          ∷ int_field (codes "on_ms") on_ms
          ∷ int_field (codes "off_ms") off_ms
          ∷ int_field (codes "count") count
          ∷ [])
        (start_blink ∷ [])

  abbrev is_off : Option Bytes → Bool
  is_off none = false
  is_off (some text) = str_eq text (codes "off")

  abbrev or_on : Option Bytes → Bytes
  or_on none = codes "on"
  or_on (some text) = text

  unfoldable pub cmd_solid : Option Bytes → BlinkState → Option (BlinkState × List LedAct)
  unfolding tell led_on led_off
  cmd_solid state st =
      tell (quiet st) 256 (if is_off state then led_off b.opens b.led else led_on b.opens b.led)
        (string_field (codes "type") (some (codes "solid"))
          ∷ string_field (codes "state") (some (or_on state))
          ∷ [])
        []

  -- The commands of `on_cmd`.
  unfoldable pub led_command : Bytes → ℤ → Bytes → BlinkState → Option (BlinkState × List LedAct)
  unfolding cmd_blink cmd_solid tell set_led_trigger led_off
  led_command cmd now payload st =
      if str_eq cmd (codes "blink")
      then cmd_blink payload st
      else if str_eq cmd (codes "solid")
      then cmd_solid (get_string payload (codes "state")) st
      else if str_eq cmd (codes "heartbeat")
      then tell (quiet st) 256 (set_led_trigger b.opens b.led (codes "heartbeat"))
          (string_field (codes "type") (some (codes "mode"))
            ∷ string_field (codes "mode") (some (codes "heartbeat"))
            ∷ [])
          []
      else if str_eq cmd (codes "status")
      then told_state st (publish_state b.block now state_running)
      else if str_eq cmd (codes "stop")
      then tell (quiet st) 128 (led_off b.opens b.led)
          (string_field (codes "type") (some (codes "stopped")) ∷ []) []
      else some (st, [])

  abbrev commanded : Option Bytes → ℤ → Bytes → BlinkState → Option (BlinkState × List LedAct)
  commanded none now payload st = some (st, [])
  commanded (some cmd) now payload st = led_command cmd now payload st

  -- `on_cmd`
  unfoldable pub on_cmd : ℤ → Bytes → BlinkState → Option (BlinkState × List LedAct)
  unfolding led_command
  on_cmd now payload st = commanded (get_string payload (codes "cmd")) now payload st

  -- `stop` of the block.
  unfoldable pub led_stop : BlinkState → BlinkState × List LedAct
  unfolding led_off
  led_stop st = (quiet st, sleep_ms (pos 100) ∷ led_off b.opens b.led)
