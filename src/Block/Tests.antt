-- ===== src/Block/Tests.antt =====
-- Tests of the model of libbb/bb_block.c and blocks/bb-led/main.c, and its theorems at concrete blocks.
use nxp_imx95_building_block.Json.{
  json_init, start_object, add_string, end_object, find_key, get_string,
}
use nxp_imx95_building_block.Json.Object.{write_object}
use nxp_imx95_building_block.Block.{
  state_running, publish_on, set_state, Block, publish_event, Round, round_acts, block_main_loop,
}
use nxp_imx95_building_block.Block.Loop.{
  state_acts, stopping_acts, IsBlock, repeat_acts, block_main_loop_lem,
}
use nxp_imx95_building_block.Block.Led.{
  BlinkState, Checks, LedBlock, blink_loop, on_cmd, led_command, tell,
}
use nxp_imx95_building_block.Block.Driver.{Led, write_led, on_bus, led_off, set_brightness}
use nxp_imx95_building_block.Block.Led.Blink.{repeat_blinks, blink_loop_lem}
use nxp_imx95_building_block.Block.Led.Overrun.{solid_payload, on_cmd_overruns}
use nxp_imx95_building_block.Common.{
  ◌≡◌, refl, true, false, none, some, [], ◌∷◌, ◌++◌, arith, replicate, Bytes, codes, str_eq,
  starts_with, all, pos, before_char, digits, print_int,
}

abbrev led_id : Bytes
led_id = codes "bb-led"

abbrev led_block : Block
led_block = record {
  id = led_id;
  has_init = true;
  has_run = false;
  has_stop = true;
  payload = replicate 4096 0;
}

abbrev goes_on : Round
goes_on = record { cleared = false; broke = false }

abbrev signalled : Round
signalled = record { cleared = true; broke = false }

led_block-IsBlock : IsBlock led_block
unfolding all
led_block-IsBlock = record { cells = refl; short_id = omega arith; text_id = refl }

block_main_loop_lem_example :
    (block_main_loop led_block true (pos 7) (pos 9) ((goes_on ∷ []) ++ signalled ∷ [])
      ≡ some (
          set_state state_running
          ∷ (state_acts led_block (pos 7) state_running
              ++ (repeat_acts 2 (round_acts led_block) ++ stopping_acts led_block (pos 9)))))
    × (block_main_loop led_block false (pos 7) (pos 9) ((goes_on ∷ []) ++ signalled ∷ [])
        ≡ some (
            set_state state_running
            ∷ (state_acts led_block (pos 7) state_running ++ stopping_acts led_block (pos 9))))
block_main_loop_lem_example =
    block_main_loop_lem led_block (pos 7) (pos 9) (goes_on ∷ []) signalled [] led_block-IsBlock
      (refl, tt) refl

abbrev heartbeat_led : Led
heartbeat_led = record {
  name = codes "green";
  brightness_path = codes "/sys/class/leds/green/brightness";
  trigger_path = codes "/sys/class/leds/green/trigger";
  max_brightness = pos 255;
}

abbrev handler : LedBlock
handler = record {
  opens = λ path. true;
  led = heartbeat_led;
  block = led_block;
  evt = replicate 256 0;
}

abbrev twice : BlinkState
twice = record {
  blink_active = true;
  blink_on_ms = pos 100;
  blink_off_ms = pos 400;
  blink_count = pos 2;
}

abbrev undisturbed : Checks
undisturbed = record { at_start = true; after_on = true; after_off = true }

blink_loop_lem_example :
    blink_loop handler twice 0 (replicate 3 undisturbed) ≡ (repeat_blinks handler twice 2, some 2)
blink_loop_lem_example =
    blink_loop_lem handler twice 2 (replicate 3 undisturbed) refl (omega arith)
      ((refl, refl, refl), ((refl, refl, refl), ((refl, refl, refl), tt))) (omega arith)

on_cmd_overruns_example : on_cmd handler (pos 7) (solid_payload (replicate 240 120)) twice ≡ none
unfolding all
on_cmd_overruns_example =
    on_cmd_overruns handler (pos 7) twice (replicate 240 120) refl refl (omega arith) (omega arith)

stopped :
    on_cmd handler (pos 7) (codes "{\"cmd\":\"stop\"}") twice
    ≡ some (
      record twice { blink_active = false },
      write_led (codes "/sys/class/leds/green/brightness") (codes "0")
          ∷ on_bus (publish_on (codes "/dev/bb-led/event") (codes "{\"type\":\"stopped\"}"))
          ∷ [],
    )
unfolding on_cmd led_command get_string find_key starts_with str_eq tell led_off set_brightness
    write_object json_init add_string start_object end_object print_int digits before_char
    publish_event
stopped = refl
