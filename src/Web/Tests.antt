-- ===== src/Web/Tests.antt =====
-- Tests of the model of services/bb-webd.c, and its theorems at concrete requests.

use nxp_imx95_building_block.Web.Builder.Writes.{jw_of}
use nxp_imx95_building_block.Web.Status.Devices.{led_entries, api_logs, led_entry}
use nxp_imx95_building_block.Web.Status.Logs.{quoted_line, log_lines, api_logs_lem}
use nxp_imx95_building_block.Web.Status.Lists.{of_leds, report_text, report_value, report_lem}
use nxp_imx95_building_block.Web.Form.Body.{gpio_body, handle_control_gpio_lem}
use nxp_imx95_building_block.Web.Form.Gpio.{IsGpioset, handle_control_gpio-IsGpioset}
use nxp_imx95_building_block.Web.Server.Twice.{alone, web_event_twice}
use nxp_imx95_building_block.Web.Server.Events.{Reason, web_event_lem}
use nxp_imx95_building_block.Web.Server.Loop.{IsWebBuffer, IsServer, Kept}
use nxp_imx95_building_block.Web.Server.{
  WebClient, Server, Act, accept_web, waits, received, ready, web_event,
}
use nxp_imx95_building_block.Web.Request.Static.{opened_path-inside}
use nxp_imx95_building_block.Web.Request.Answers.{Answered, handle_request-Answered}
use nxp_imx95_building_block.Web.Builder.Objects.{separated, object, array}
use nxp_imx95_building_block.Web.Builder.Escape.{read_string, pieces, json_escape_str_lem}
use nxp_imx95_building_block.Web.Builder.{jw_obj_end, json_escape_str, build_object, build_array}
use nxp_imx95_building_block.Web.Http.{http_not_found, first_line, read_proc_line}
use nxp_imx95_building_block.Web.Status.{Board, api_partitions}
use nxp_imx95_building_block.Web.Status.Tables.{api_cpu, read_text}
use nxp_imx95_building_block.Web.Form.{
  write_to, fields, handle_control_led, run, gpio_command, handle_control_gpio,
}
use nxp_imx95_building_block.Web.Form.Led.{effects_of, IsLedAnswer, handle_control_led-IsLedAnswer}
use nxp_imx95_building_block.Web.Form.Overflow.{handle_control_led_overflow}
use nxp_imx95_building_block.Web.Request.Walk.{walk, www_place}
use nxp_imx95_building_block.Web.Request.{
  Site, parse_http, request_line, parse_line, find_route, opened_path, static_answer,
  serve_static_file, get_answer, handle_request, www_path,
}
use nxp_imx95_building_block.Common.{
  ◌≡◌, refl, true, false, none, some, List, [], ◌∷◌, ◌++◌, map, arith, if◌then◌else◌, replicate,
  All, Bytes, codes, str_eq, starts_with, all, ℤ, pos, negsuc, leb_ℤ, skip_space, token, after_char,
  before_char, extend_line, digits, print_int, scan_digits, signed_value, scan_int, after_match,
  occurs, after_match_case, push_token, scan_tokens, tokens,
}

-- A board with one core, one volume and one LED.
abbrev board : Board
board = record {
  files = λ path.
      if str_eq path (codes "/proc/stat")
      then some (codes "cpu  9 9 9 9 9 9 9\ncpu0 1 2 3 4 5 6 7\nintr 5\n")
      else none;
  dirs = λ path.
      if str_eq path (codes "/sys/class/leds") then some (codes "." ∷ codes "green" ∷ []) else none;
  exists = λ path. false;
  info = none;
  loads = none;
  cpu_count = pos 1;
  hostname = none;
  fs = λ path.
      if str_eq path (codes "/")
      then some (record { f_blocks = 8; f_bfree = 2; f_bsize = 1024 })
      else none;
  print_milli = λ t. codes "0.00";
  unset = λ behind i. 0;
}

abbrev site : Site
site = record {
  board = board;
  opens = λ path. true;
  succeeds = λ command. true;
  html = codes "<html></html>";
  malloc_ok = λ size. true;
}

cpu_text :
    api_cpu board ≡ codes "[{\"core\":\"cpu0\",\"user\":1,\"system\":16,\"idle\":9,\"total\":28}]"
unfolding api_cpu str_eq scan_tokens push_token skip_space token scan_digits starts_with print_int
    digits before_char build_array tokens
cpu_text = refl

partitions_text :
    api_partitions board
    ≡ codes "{{\"label\":\"rootfs\",\"mount\":\"/\",\"total_kb\":8,\"free_kb\":2,\"used_kb\":6}}"
unfolding api_partitions str_eq print_int digits jw_obj_end build_object
partitions_text = refl

abbrev get_missing : Bytes
get_missing = codes "GET /a/../b HTTP/1.1\r\n\r\n"

missing_answer : handle_request site get_missing ≡ some (http_not_found, [])
unfolding handle_request find_route get_answer serve_static_file opened_path static_answer
    after_match before_char skip_space token starts_with str_eq occurs
missing_answer = refl

abbrev led_request : Bytes
led_request = codes "led=green&brightness=255&trigger=rm"

led_effects_of :
    effects_of (handle_control_led (λ path. true) led_request)
    ≡ write_to (codes "/sys/class/leds/green/brightness") (codes "255") ∷ []
unfolding handle_control_led fields extend_line after_char before_char str_eq
led_effects_of = refl

handle_request-Answered_example : Answered (handle_request site get_missing)
handle_request-Answered_example = handle_request-Answered site get_missing (omega arith)

abbrev idle : WebClient
idle = record { fd = negsuc 0; buf = [] }

abbrev seven : WebClient
seven = record { fd = pos 7; buf = [] }

abbrev one_client : Server
one_client = alone seven (replicate 63 idle)

one_client-IsServer : IsServer one_client
one_client-IsServer = record { slots = refl; used = (1, refl, omega arith); buffers = buffers_ok }
  where
    buffers_ok : All IsWebBuffer one_client.clients
    buffers_ok = omega arith

web_event_lem_example :
    Kept {A = Server × List Act}
      (Reason site (ready 0 true get_missing false) one_client)
      (λ r. r.0)
      (web_event site (ready 0 true get_missing false) one_client)
web_event_lem_example =
    web_event_lem site (ready 0 true get_missing false) one_client one_client-IsServer refl

web_event_twice_example :
    (r : Server × List Act) × (web_event site (ready 0 true get_missing true) (alone seven [])
      ≡ some r)
    × (r.0.num_clients ≡ negsuc 0)
    × ((cfd : ℤ) → leb_ℤ (pos 0) cfd ≡ true → accept_web cfd r.0 ≡ none)
unfolding received waits after_match before_char starts_with after_match_case
web_event_twice_example =
    web_event_twice site seven (record seven { buf = get_missing }) [] get_missing []
      (http_not_found, []) refl refl refl missing_answer

abbrev app_request : Bytes
app_request = codes "GET /app.js HTTP/1.1\r\n\r\n"

abbrev app_file : Bytes
app_file = codes "/opt/building-blocks/www/app.js"

opened_path-inside_example :
    (rest : List Bytes) × (walk (tokens 47 app_file) [] ≡ rest ++ www_place)
unfolding parse_http request_line parse_line after_match starts_with before_char skip_space token
    opened_path www_path occurs
opened_path-inside_example =
    opened_path-inside app_request app_file
      (record { method = codes "GET"; path = codes "/app.js"; headers_done = 24 }) refl refl

abbrev gpio_request : Bytes
gpio_request = codes "chip=2&line=5&value=1"

handle_control_gpio-IsGpioset_example :
    All IsGpioset (effects_of (handle_control_gpio (λ c. true) gpio_request))
handle_control_gpio-IsGpioset_example = handle_control_gpio-IsGpioset (λ c. true) gpio_request

handle_control_led-IsLedAnswer_example :
    IsLedAnswer led_request (handle_control_led (λ p. true) led_request)
handle_control_led-IsLedAnswer_example = handle_control_led-IsLedAnswer (λ p. true) led_request

handle_control_gpio_lem_example :
    effects_of (handle_control_gpio (λ c. true) (gpio_body 2 5 1))
    ≡ run (gpio_command (record { chip = pos 2; line = pos 5; value = pos 1 })) ∷ []
handle_control_gpio_lem_example =
    handle_control_gpio_lem (λ c. true) 2 5 1 (omega arith) (omega arith) (omega arith)

abbrev long_name : Bytes
long_name = replicate 63 120

-- The name after the brightness, and in front of a trigger.
abbrev late_name : Bytes
late_name = codes "brightness=1&led=" ++ (97 ∷ long_name) ++ codes "&trigger=none"

handle_control_led_overflow_example : handle_control_led (λ p. true) late_name ≡ none
unfolding all fields extend_line str_eq
handle_control_led_overflow_example =
    handle_control_led_overflow (λ p. true) late_name (codes "led") 97 long_name refl (omega arith)
      (codes "brightness=1" ∷ [], codes "trigger=none" ∷ [], refl)

abbrev quoted : Bytes
quoted = codes "a\"b\\"

json_escape_str_lem_example :
    (out : Bytes) × (json_escape_str quoted (jw_of (codes "[") 20 true)
      ≡ jw_of (codes "[" ++ 34 ∷ out) 20 true)
    × (read_string false (out ++ codes "]") ≡ some (quoted, codes "]"))
unfolding pieces all
json_escape_str_lem_example =
    json_escape_str_lem quoted (codes "[") (codes "]") 20 true refl (omega arith)

report_lem_example : report_text board of_leds ≡ report_value board of_leds
unfolding led_entries led_entry array object separated read_proc_line first_line str_eq starts_with
    before_char print_int digits scan_digits signed_value scan_int skip_space read_text after_char
report_lem_example = report_lem board of_leds (omega arith)

api_logs_lem_example :
    api_logs board ≡ 91 ∷ (separated true (map quoted_line (log_lines board)) ++ codes "]")
api_logs_lem_example = api_logs_lem board
