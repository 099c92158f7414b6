-- ===== src/Web/Server.antt =====
-- services/bb-webd.c: the clients and the event loop of `main`. An event carries what accept and recv
-- return.
pub mod Loop
pub mod Events
pub mod Twice
use nxp_imx95_building_block.Web.Form.{
  Effect, write_to, run, sync_disks, Answer, fields, LedForm, copy_value, set_led, set_val,
  set_trigger, led_pair, led_fields, led_form, is_empty, is_safe, write_if, led_file, led_effects,
  json_type, led_answer, handle_control_led, GpioForm, atoi_len, set_chip, set_line, set_value,
  gpio_pair, gpio_fields, gpio_form, gpio_command, gpio_text, gpio_response, gpio_answer,
  handle_control_gpio, handle_control_reboot,
}
use nxp_imx95_building_block.Web.Request.{
  Site, HttpReq, request_line, parse_line, parse_http, Handler, system, cpu, partitions, network,
  processes, logs, health, leds, gpio, routes, find_route, api_json, api_answer, serve_dashboard,
  www_path, opened_path, static_content, static_answer, serve_static_file, get_answer,
  handle_post_route, trim_body, length_field, post_answer, request_answer, handle_request,
}
use nxp_imx95_building_block.Common.{
  ℕ, zero, suc, ◌+◌, ◌-◌, ◌*◌, ◌/◌, ◌%◌, ◌^◌, ◌≤◌, ◌<◌, min, ◌≡◌, refl, sym, ap, ap₂, subst, ◌∙◌,
  ◌≢◌, ◌↔◌, ◌⊎◌, inl, inr, Bool, true, false, not, ◌&&◌, ◌||◌, Option, none, some, List, [], ◌∷◌,
  ◌++◌, map, append-nil, append_assoc, arith, ltb, leb, ◌==◌, if◌then◌else◌, ltb→lt, lt→ltb,
  le→not_ltb, leb→le, le→leb, ==_iff, ==_self, ==_ne, tests, Bool-cases, Option-cases, length,
  get_elem?, get_or, set, take, drop, replicate, length-append, length-set, get_elem?-set_self,
  get_elem?-set_ne, get_elem?_lt, get_elem?_ge, lt_of_get_elem?, take-append-drop, length-take,
  length-drop, take_all, drop_all, take-append_length, drop-append_length, length-replicate,
  length-map, All, All-append, length-take_le, All-take, All-drop, All-set, All-get, Bytes, codes,
  str_eq, starts_with, str_eq_refl, str_eq→eq, str_eq_ne, starts_with-append, all, all-append, ℤ,
  pos, negsuc, pos_part, neg_part, ltb_ℤ, leb_ℤ, eq_ℤ, sub_ℕ, ◌+ℤ◌, ◌-ℤ◌, int_max, fetch_inc,
  fetch_dec, fetch_inc_lt, fetch_dec_pos, is_space, skip_space, token, after_char, before_char,
  from_last, Files, write_file, delete_file, rename_file, extend_line, read_lines, read-write,
  read-write_ne, read-rename, read-rename_ne, is_digit, pow10, digits, decimal, print_int,
  scan_digits, no_digit, scan_digits-decimal, scan_digits-stop, signed_value, scan_int, after_match,
  IsFirst, after_match-first, occurs, lower, after_match_case, push_token, scan_tokens, tokens,
}

-- `client_t` and `clients`; `header_len` is never read.
pub record WebClient : Type 0 where
  pub fd : ℤ
  pub buf : Bytes

pub record Server : Type 0 where
  pub clients : List WebClient
  pub num_clients : ℤ

abbrev pub max_web_clients : ℕ
max_web_clients = 64

abbrev pub web_buf_size : ℕ
web_buf_size = 16384

-- What the loop does with descriptors.
pub data Act : Type 0 where
  add_fd : ℤ → ℕ → Act
  del_fd : ℤ → Act
  close_fd : ℤ → Act
  answer : ℤ → Answer → Act

-- `memmove(&clients[idx], &clients[idx + 1], (num_clients - idx - 1) * sizeof(client_t))`
unfoldable pub shift_clients : ℕ → ℕ → List WebClient → List WebClient
shift_clients idx n cs = take idx cs ++ (take (n - idx - 1) (drop (idx + 1) cs) ++ drop (n - 1) cs)

abbrev pub moved : ℤ → ℕ → List WebClient → List WebClient
moved (pos n) idx cs = if ltb (idx + 1) n then shift_clients idx n cs else cs
moved (negsuc n) idx cs = cs

-- `remove_client`, for a slot of the array; it does not ask whether the slot is in use.
unfoldable pub remove_web_client : ℕ → WebClient → Server → Server × List Act
unfolding shift_clients
remove_web_client idx c s = (
  record { clients = moved s.num_clients idx s.clients; num_clients = s.num_clients -ℤ pos 1 },
  del_fd c.fd ∷ close_fd c.fd ∷ [],
)

-- The slot `clients[num_clients]` gets the new client; none is a write in front of the array.
unfoldable pub add_web_client : ℤ → Server → ℤ → Option (Server × List Act)
add_web_client fd s (negsuc n) = none
add_web_client fd s (pos n) = some (
  record { clients = set s.clients n (record { fd = fd; buf = [] }); num_clients = pos (n + 1) },
  add_fd fd n ∷ [],
)

-- The branch of the listening socket; none as above.
unfoldable pub accept_web : ℤ → Server → Option (Server × List Act)
unfolding add_web_client
accept_web cfd s =
    if leb_ℤ (pos 0) cfd && ltb_ℤ s.num_clients (pos max_web_clients)
    then add_web_client cfd s s.num_clients
    else some (s, if leb_ℤ (pos 0) cfd then close_fd cfd ∷ [] else [])

-- What the loop waits for: `body_len < expected`, when a Content-Length is found.
unfoldable pub waits : Option Bytes → Bytes → Bool
waits none body = false
waits (some text) body = ltb_ℤ (pos (length body)) (scan_int text)

-- The state, what was done, and whether `continue` skips the rest of the event.
abbrev pub Progress : Type 0
Progress = Server × List Act × Bool

abbrev pub removed : ℕ → WebClient → Server → List Act → Bool → Progress
removed idx c s acts skip = let r = remove_web_client idx c s in (r.0, acts ++ r.1, skip)

abbrev pub answered : ℕ → WebClient → Server → Option Answer → Option Progress
answered idx c s none = none
answered idx c s (some a) = some (removed idx c s (answer c.fd a ∷ []) false)

-- The head of a request is complete when a blank line was received.
unfoldable pub head_read : Site → ℕ → WebClient → Server → Option Bytes → Option Progress
unfolding remove_web_client waits handle_request
head_read site idx c s none =
    some (if ltb 8192 (length c.buf) then removed idx c s [] false else (s, [], false))
head_read site idx c s (some body) =
    if waits (length_field c.buf) body
    then some (s, [], true)
    else answered idx c s (handle_request site c.buf)

-- The client with what recv gave, none where it gave nothing.
unfoldable pub received : ℕ → WebClient → Bytes → Option WebClient
received idx c arrived = elim (take (web_buf_size - length c.buf - 1) arrived) [
  | [] ↦ none
  | x ∷ got ↦ some (record c { buf = c.buf ++ x ∷ got })
]

-- The body begins behind the first blank line of the string in the buffer, and goes on behind a NUL.
abbrev pub body_in : Bytes → Option Bytes
body_in text = elim (after_match (codes "\r\n\r\n") (before_char 0 text)) [
  | none ↦ none
  | some rest ↦ some (drop (length (before_char 0 text) - length rest) text)
]

unfoldable pub read_rest : Site → ℕ → WebClient → Server → Option WebClient → Option Progress
unfolding remove_web_client head_read
read_rest site idx c s none = some (removed idx c s [] true)
read_rest site idx c s (some d) =
    head_read site idx d (record s { clients = set s.clients idx d }) (body_in d.buf)

-- The EPOLLIN branch. No bytes: recv failed or the stream ended.
unfoldable pub read_web : Site → ℕ → WebClient → Server → Bytes → Option Progress
unfolding received read_rest
read_web site idx c s arrived = read_rest site idx c s (received idx c arrived)

abbrev pub dropped : ℕ → Server → List Act → Option WebClient → Option (Server × List Act)
dropped idx s acts none = none
dropped idx s acts (some c) = let r = remove_web_client idx c s in some (r.0, acts ++ r.1)

-- The EPOLLHUP and EPOLLERR branch, on the slot as it is then.
unfoldable pub hang_up_web : ℕ → Bool → Option Progress → Option (Server × List Act)
unfolding remove_web_client
hang_up_web idx hup none = none
hang_up_web idx hup (some (s, acts, true)) = some (s, acts)
hang_up_web idx false (some (s, acts, false)) = some (s, acts)
hang_up_web idx true (some (s, acts, false)) = dropped idx s acts (get_elem? s.clients idx)

-- An event of epoll: of the listening socket, or of a client with its flags.
pub data WebEvent : Type 0 where
  connection : ℤ → WebEvent
  ready : ℕ → Bool → Bytes → Bool → WebEvent

unfoldable pub client_event :
    Site → ℕ → Bool → Bytes → Bool → Server → Option WebClient → Option (Server × List Act)
unfolding read_web hang_up_web
client_event site idx in_flag arrived hup s none = none
client_event site idx in_flag arrived hup s (some c) =
    hang_up_web idx hup (if in_flag then read_web site idx c s arrived else some (s, [], false))

-- The body of the event loop; none is an access outside an array.
unfoldable pub web_event : Site → WebEvent → Server → Option (Server × List Act)
unfolding accept_web client_event
web_event site (connection cfd) s = accept_web cfd s
web_event site (ready idx in_flag arrived hup) s =
    if leb_ℤ s.num_clients (pos idx)
    then some (s, [])
    else client_event site idx in_flag arrived hup s (get_elem? s.clients idx)
