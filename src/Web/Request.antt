-- ===== src/Web/Request.antt =====
-- services/bb-webd.c: parsing a request, the routes, and the files that are served.
pub mod Walk
pub mod Static
pub mod Answers
use nxp_imx95_building_block.Web.Http.{
  mime_of, mime_from, mime_by_ext, http_ok, http_nocache, content, http_error, http_not_found,
  http_method_not_allowed, http_server_error, read_file, first_line, read_proc_line,
}
use nxp_imx95_building_block.Web.Status.{
  SysInfo, StatFs, Board, wrap64, signed64, quot, uptime_text, uptime_calls, load_calls,
  memory_calls, line_call, disk_calls, volume_calls, temp_calls, system_calls, api_system,
  health_calls, api_health, add_partitions, api_partitions, minus64, slot_calls, version_text,
  mounts, partition_calls, add_partition,
}
use nxp_imx95_building_block.Web.Status.Tables.{
  scan_more, scan_u64s, read_text, lines_of, assigned, cpu_entry, is_core, cpu_entries, api_cpu,
  scan_name, network_entry, network_line, network_entries, api_network, proc_path, rss_calls,
  numbers_of, is_pid, process_entry, process_entries, names_in, api_processes,
}
use nxp_imx95_building_block.Web.Status.Devices.{
  led_entry, led_entries, api_leds, chip_entry, chip_entries, api_gpio, add_lines, api_logs,
  log_file, tail_of,
}
use nxp_imx95_building_block.Web.Form.{
  Effect, write_to, run, sync_disks, Answer, fields, LedForm, copy_value, led_pair, led_fields,
  led_form, is_empty, is_safe, write_if, led_file, led_effects, json_type, led_answer,
  handle_control_led, GpioForm, atoi_len, gpio_pair, gpio_fields, gpio_form, gpio_command,
  gpio_response, gpio_answer, handle_control_gpio, handle_control_reboot, set_led, set_val,
  set_trigger, set_chip, set_line, set_value, gpio_text,
}
use nxp_imx95_building_block.Common.{
  ℕ, zero, suc, ◌+◌, ◌-◌, ◌*◌, ◌/◌, ◌%◌, ◌^◌, ◌≤◌, ◌<◌, min, ◌≡◌, refl, sym, ap, ap₂, subst, ◌∙◌,
  ◌≢◌, ◌↔◌, ◌⊎◌, inl, inr, Bool, true, false, not, ◌&&◌, ◌||◌, Option, none, some, List, [], ◌∷◌,
  ◌++◌, map, append-nil, append_assoc, arith, ltb, leb, ◌==◌, if◌then◌else◌, ltb→lt, lt→ltb,
  le→not_ltb, leb→le, le→leb, ==_iff, ==_self, ==_ne, tests, Bool-cases, Option-cases, length,
  get_elem?, get_or, set, take, drop, replicate, length-append, length-set, get_elem?-set_self,
  get_elem?-set_ne, get_elem?_lt, get_elem?_ge, lt_of_get_elem?, take-append-drop, length-take,
  length-drop, take_all, drop_all, take-append_length, drop-append_length, length-replicate,
  length-map, All, All-append, length-take_le, All-take, All-drop, All-set, All-get, Bytes, codes,
  str_eq, starts_with, str_eq_refl, str_eq→eq, str_eq_ne, starts_with-append, all, all-append, ℤ,
  pos, negsuc, pos_part, neg_part, ltb_ℤ, leb_ℤ, eq_ℤ, sub_ℕ, ◌+ℤ◌, ◌-ℤ◌, int_max, fetch_inc,
  fetch_dec, fetch_inc_lt, fetch_dec_pos, is_space, skip_space, token, after_char, before_char,
  from_last, Files, write_file, delete_file, rename_file, extend_line, read_lines, read-write,
  read-write_ne, read-rename, read-rename_ne, is_digit, pow10, digits, decimal, print_int,
  scan_digits, no_digit, scan_digits-decimal, scan_digits-stop, signed_value, scan_int,
  length-digits, length-print_int, after_match, IsFirst, after_match-first, occurs, lower,
  after_match_case, push_token, scan_tokens, tokens, scan_number, unsigned_of, scan_u64, scan_u32,
  scan_char, scan_number-decimal,
}

-- What a handler asks of the system: the board, which files open for writing, which commands end with
-- 0, the text of `DASHBOARD_HTML`, and for which sizes `malloc` answers.
pub record Site : Type 0 where
  pub board : Board
  pub opens : Bytes → Bool
  pub succeeds : Bytes → Bool
  pub html : Bytes
  pub malloc_ok : ℕ → Bool

-- `http_req_t`
pub record HttpReq : Type 0 where
  pub method : Bytes
  pub path : Bytes
  pub headers_done : ℕ

-- `"%15s %255s"`
unfoldable pub request_line : Bytes → Bytes × Bytes
request_line raw =
    let first = token 15 (skip_space (before_char 0 raw)) in
    (first.0, (token 255 (skip_space first.1)).0)

-- `body ? (int)(body + 4 - raw) : len`
abbrev headers_end : ℕ → Option Bytes → ℕ
headers_end len none = len
headers_end len (some body) = len - length body

unfoldable pub parse_line : ℕ → Bytes → Bytes × Bytes → Option HttpReq
parse_line len rest (method, path) =
    if is_empty method || not (starts_with (codes "/") path)
    then none
    else some (record {
      method = method;
      path = path;
      headers_done = headers_end len (after_match (codes "\r\n\r\n") rest);
    })

-- `parse_http`; none is -1.
unfoldable pub parse_http : Bytes → Option HttpReq
unfolding request_line parse_line
parse_http raw = elim (after_match (codes "\r\n") raw) [
  | none ↦ none
  | some rest ↦ parse_line (length raw) rest (request_line raw)
]

-- The handlers that `routes` names.
pub data Handler : Type 0 where
  system cpu partitions network processes logs health leds gpio : Handler

abbrev pub routes : List (Bytes × Handler)
routes =
    (codes "/api/system", system)
    ∷ (codes "/api/cpu", cpu)
    ∷ (codes "/api/partitions", partitions)
    ∷ (codes "/api/network", network)
    ∷ (codes "/api/processes", processes)
    ∷ (codes "/api/logs", logs)
    ∷ (codes "/api/health", health)
    ∷ (codes "/api/leds", leds)
    ∷ (codes "/api/gpio", gpio)
    ∷ []

-- The loop over `routes`.
unfoldable pub find_route : Bytes → List (Bytes × Handler) → Option Handler
find_route path [] = none
find_route path ((p, h) ∷ rs) =
    let rest = find_route path rs in if str_eq path p then some h else rest

unfoldable pub api_json : Board → Handler → Bytes
unfolding api_system api_cpu api_partitions api_network api_processes api_logs api_health api_leds
    api_gpio
api_json b system = api_system b
api_json b cpu = api_cpu b
api_json b partitions = api_partitions b
api_json b network = api_network b
api_json b processes = api_processes b
api_json b logs = api_logs b
api_json b health = api_health b
api_json b leds = api_leds b
api_json b gpio = api_gpio b

-- The end of each API handler.
unfoldable pub api_answer : Board → Handler → Bytes
unfolding api_json http_nocache content
api_answer b h = http_nocache json_type ++ content (api_json b h)

-- `serve_dashboard`
unfoldable pub serve_dashboard : Site → Bytes
unfolding http_ok content
serve_dashboard site = http_ok (codes "text/html; charset=utf-8") ++ content site.html

-- `snprintf(fpath, 256, "%s%s", WWW_ROOT, path)`
unfoldable pub www_path : Bytes → Bytes
www_path path = take 255 (codes "/opt/building-blocks/www" ++ path)

-- The path that `serve_static_file` opens, none when it refuses.
unfoldable pub opened_path : Bytes → Option Bytes
unfolding www_path
opened_path path =
    if occurs (codes "..") path || occurs (codes "//") path then none else some (www_path path)

unfoldable pub static_content : Site → Bytes → Option Bytes → Bytes
unfolding serve_dashboard http_not_found http_ok content mime_by_ext
static_content site path none =
    if str_eq path (codes "/") || is_empty path then serve_dashboard site else http_not_found
static_content site path (some text) = http_ok (mime_by_ext path) ++ content text

unfoldable pub static_answer : Site → Bytes → Option Bytes → Bytes
unfolding static_content read_file http_not_found
static_answer site path none = http_not_found
static_answer site path (some fpath) =
    static_content site path (read_file site.malloc_ok site.board.files fpath (1024 * 1024))

-- `serve_static_file`
unfoldable pub serve_static_file : Site → Bytes → Bytes
unfolding opened_path static_answer
serve_static_file site path = static_answer site path (opened_path path)

unfoldable pub get_answer : Site → Bytes → Option Handler → Bytes
unfolding api_answer serve_dashboard serve_static_file
get_answer site path (some h) = api_answer site.board h
get_answer site path none =
    if str_eq path (codes "/") || str_eq path (codes "/index.html")
    then serve_dashboard site
    else serve_static_file site path

-- `handle_post_route`, and the answer when it finds no route.
unfoldable pub handle_post_route : Site → Bytes → Bytes → Option Answer
unfolding handle_control_led handle_control_gpio handle_control_reboot http_method_not_allowed
handle_post_route site path body =
    if str_eq path (codes "/api/control/led")
    then handle_control_led site.opens body
    else if str_eq path (codes "/api/control/gpio")
    then handle_control_gpio site.succeeds body
    else some (
        if str_eq path (codes "/api/control/reboot")
        then handle_control_reboot
        else (http_method_not_allowed, []))

-- `if (cl) { clen = atoi(cl + 15); if (clen < body_len) body_len = clen; }`
unfoldable pub trim_body : Option Bytes → Bytes → Bytes
trim_body none body = body
trim_body (some text) body =
    if ltb_ℤ (scan_int text) (pos (length body)) then take (pos_part (scan_int text)) body else body

abbrev pub length_field : Bytes → Option Bytes
length_field text = after_match_case (codes "Content-Length:") (before_char 0 text)

unfoldable pub post_answer : Site → Bytes → Bytes → Option Bytes → Option Answer
unfolding handle_post_route trim_body http_server_error
post_answer site path text none = some (http_server_error (codes "Incomplete request"), [])
post_answer site path text (some body) =
    handle_post_route site path (trim_body (length_field text) body)

unfoldable pub request_answer : Site → Bytes → Option HttpReq → Option Answer
unfolding get_answer post_answer find_route http_server_error http_method_not_allowed
request_answer site text none = some (http_server_error (codes "Bad request"), [])
request_answer site text (some req) =
    if str_eq req.method (codes "GET")
    then some (get_answer site req.path (find_route req.path routes), [])
    else if str_eq req.method (codes "POST")
    then post_answer site req.path text (after_match (codes "\r\n\r\n") text)
    else some (http_method_not_allowed, [])

-- `handle_request`: the response with its effects; none is a write outside a buffer or a number that C
-- does not define.
unfoldable pub handle_request : Site → Bytes → Option Answer
unfolding parse_http request_answer
handle_request site text = request_answer site text (parse_http text)
