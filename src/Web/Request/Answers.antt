-- ===== src/Web/Request/Answers.antt =====
-- services/bb-webd.c: every response can be read by its Content-Length.
use nxp_imx95_building_block.Web.Http.{
  mime_by_ext, content, http_not_found, read_file, http_ok, http_method_not_allowed,
  http_server_error,
}
use nxp_imx95_building_block.Web.Http.Framed.{
  IsFramed, ok-IsFramed, nocache-IsFramed, not_found-IsFramed, mime_by_ext-lacks,
  server_error-IsFramed, method_not_allowed-IsFramed,
}
use nxp_imx95_building_block.Web.Status.{Board}
use nxp_imx95_building_block.Web.Status.Answers.{
  system-length, health-length, partitions-length, cpu-length, network-length, processes-length,
  leds-length, gpio-length, logs-length,
}
use nxp_imx95_building_block.Web.Form.{
  is_empty, json_type, run, Answer, LedForm, led_form, led_effects, led_answer, handle_control_led,
  GpioForm, gpio_form, gpio_command, gpio_response, gpio_answer, handle_control_gpio,
  handle_control_reboot, gpio_text,
}
use nxp_imx95_building_block.Web.Request.{
  Site, Handler, system, cpu, partitions, network, processes, logs, health, leds, gpio, api_json,
  api_answer, serve_dashboard, opened_path, static_content, static_answer, serve_static_file,
  get_answer, HttpReq, parse_http, routes, find_route, handle_post_route, trim_body, post_answer,
  request_answer, handle_request, length_field,
}
use nxp_imx95_building_block.Common.{
  ◌+◌, ℕ, ◌*◌, ◌≤◌, ◌<◌, ◌≡◌, refl, Bool, true, false, not, ◌&&◌, ◌||◌, Option, none, some, [], ◌∷◌,
  ◌++◌, arith, ltb, if◌then◌else◌, length, length-take_le, Bytes, codes, str_eq, all, pos, ltb_ℤ,
  eq_ℤ, pow10, after_match, lacks,
}

-- A response whose length is that of the body that a reader finds.
abbrev pub HasBody : Bytes → Type 0
HasBody response = (body : Bytes) × IsFramed response body

json-lacks : (lacks 13 json_type ≡ true) × (lacks 67 json_type ≡ true)
unfolding all
json-lacks = (refl, refl)

html-lacks :
    (lacks 13 (codes "text/html; charset=utf-8") ≡ true)
    × (lacks 67 (codes "text/html; charset=utf-8") ≡ true)
unfolding all
html-lacks = (refl, refl)

length-api_json : (b : Board) (h : Handler) → length (api_json b h) < 8192
unfolding api_json
length-api_json b system = omega (arith, system-length b)
length-api_json b cpu = omega (arith, cpu-length b)
length-api_json b partitions = omega (arith, partitions-length b)
length-api_json b network = omega (arith, network-length b)
length-api_json b processes = omega (arith, processes-length b)
length-api_json b logs = omega (arith, logs-length b)
length-api_json b health = omega (arith, health-length b)
length-api_json b leds = omega (arith, leds-length b)
length-api_json b gpio = omega (arith, gpio-length b)

api_answer-HasBody : (b : Board) (h : Handler) → HasBody (api_answer b h)
unfolding api_answer
api_answer-HasBody b h = (
  api_json b h,
  nocache-IsFramed json_type (api_json b h) json-lacks.0 json-lacks.1
      (omega (arith, length-api_json b h)),
)

module _ (site : Site) (small : length site.html < pow10 20) where
  dashboard-HasBody : HasBody (serve_dashboard site)
  unfolding serve_dashboard
  dashboard-HasBody = (
    site.html,
    ok-IsFramed (codes "text/html; charset=utf-8") site.html html-lacks.0 html-lacks.1 small,
  )

  not_found-HasBody : HasBody http_not_found
  not_found-HasBody = (codes "{\"error\":\"not found\"}", not_found-IsFramed)

  one_of : (b : Bool) (x y : Bytes) → HasBody x → HasBody y → HasBody (if b then x else y)
  one_of true x y h k = h
  one_of false x y h k = k

  content-HasBody :
      (path : Bytes) (o : Option Bytes)
      → ((text : Bytes) → o ≡ some text → length text ≤ 1024 * 1024)
      → HasBody (static_content site path o)
  unfolding static_content
  content-HasBody path none h =
      one_of (str_eq path (codes "/") || is_empty path) (serve_dashboard site) http_not_found
        dashboard-HasBody not_found-HasBody
  content-HasBody path (some text) h =
      let (m, k) = mime_by_ext-lacks path in
      (text, ok-IsFramed (mime_by_ext path) text m k (omega (arith, h text refl)))

  read_file-length :
      (o : Option Bytes) (size : ℕ) (text : Bytes)
      → (elim o [
        | none ↦ none
        | some content ↦
            if ltb size (length content)
            then none
            else if site.malloc_ok (length content + 1)
            then some content
            else none
      ])
        ≡ some text
      → length text ≤ size
  read_file-length none size text h = cc
  read_file-length (some content) size text h = ground arith

  static-HasBody : (path : Bytes) (o : Option Bytes) → HasBody (static_answer site path o)
  unfolding static_answer read_file
  static-HasBody path none = not_found-HasBody
  static-HasBody path (some fpath) =
      content-HasBody path (read_file site.malloc_ok site.board.files fpath (1024 * 1024))
        (λ text e. read_file-length (site.board.files fpath) (1024 * 1024) text e)

  get-HasBody : (path : Bytes) (o : Option Handler) → HasBody (get_answer site path o)
  unfolding get_answer serve_static_file
  get-HasBody path (some h) = api_answer-HasBody site.board h
  get-HasBody path none =
      one_of (str_eq path (codes "/") || str_eq path (codes "/index.html")) (serve_dashboard site)
        (serve_static_file site path) dashboard-HasBody (static-HasBody path (opened_path path))

-- The answers of the control API, where there is one.
abbrev pub Answered : Option Answer → Type 0
Answered none = Unit {0}
Answered (some a) = HasBody a.0

error-HasBody : (msg : Bytes) → length msg < pow10 20 → HasBody (http_server_error msg)
error-HasBody msg n = (msg, server_error-IsFramed msg n)

one_answer :
    (b : Bool) (x y : Option Answer) → Answered x → Answered y → Answered (if b then x else y)
one_answer true x y h k = h
one_answer false x y h k = k

json-HasBody : (body : Bytes) → length body < pow10 20 → HasBody (http_ok json_type ++ content body)
json-HasBody body n = (body, ok-IsFramed json_type body json-lacks.0 json-lacks.1 n)

either_answer :
    (b : Bool) (x y : Answer) → HasBody x.0 → HasBody y.0 → HasBody (if b then x else y).0
either_answer true x y h k = h
either_answer false x y h k = k

led-Answered : (opens : Bytes → Bool) (o : Option LedForm) → Answered (led_answer opens o)
unfolding led_answer
led-Answered opens none = tt
led-Answered opens (some f) =
    either_answer (is_empty f.led) (http_server_error (codes "Missing 'led' parameter"), [])
      (http_ok json_type ++ content (codes "{\"ok\":true}"), led_effects opens f)
      (error-HasBody (codes "Missing 'led' parameter") (omega arith))
      (json-HasBody (codes "{\"ok\":true}") (omega arith))

gpio-Answered : (ok : Bytes → Bool) (o : Option GpioForm) → Answered (gpio_answer ok o)
unfolding gpio_answer gpio_response
gpio-Answered ok none = tt
gpio-Answered ok (some f) =
    let text = gpio_response (ok (gpio_command f)) f in
    let done : Answer = (http_ok json_type ++ content text, run (gpio_command f) ∷ []) in
    let wrong : Answer = (http_server_error (codes "value must be 0 or 1"), []) in
    either_answer (ltb_ℤ f.chip (pos 0) || ltb_ℤ f.line (pos 0))
      (http_server_error (codes "Missing chip/line"), [])
      (if not (eq_ℤ f.value (pos 0)) && not (eq_ℤ f.value (pos 1)) then wrong else done)
      (error-HasBody (codes "Missing chip/line") (omega arith))
      (either_answer (not (eq_ℤ f.value (pos 0)) && not (eq_ℤ f.value (pos 1))) wrong done
        (error-HasBody (codes "value must be 0 or 1") (omega arith))
        (json-HasBody text (omega (arith, length-take_le 127 (gpio_text (ok (gpio_command f)) f)))))

-- The Content-Length of every response is the length of its body, for every request, whatever route
-- it takes and whatever the handlers find, errors included: a reader that takes the first blank line
-- for the end of the head finds the body, and the number behind the first "Content-Length: " is its
-- length, provided the page of the dashboard is shorter than 10^20 bytes.
pub handle_request-Answered :
    (site : Site) (text : Bytes) → length site.html < pow10 20 → Answered (handle_request site text)
unfolding handle_request request_answer post_answer handle_post_route handle_control_led
    handle_control_gpio handle_control_reboot
handle_request-Answered site text small = of_request (parse_http text)
  where
    denied : Answered (some (http_method_not_allowed, []))
    denied = (codes "{\"error\":\"method not allowed\"}", method_not_allowed-IsFramed)

    of_route : (path body : Bytes) → Answered (handle_post_route site path body)
    of_route path body =
        one_answer (str_eq path (codes "/api/control/led")) (handle_control_led site.opens body) _
          (led-Answered site.opens (led_form body))
          (one_answer (str_eq path (codes "/api/control/gpio"))
            (handle_control_gpio site.succeeds body) _
            (gpio-Answered site.succeeds (gpio_form body))
            (either_answer (str_eq path (codes "/api/control/reboot")) handle_control_reboot
              (http_method_not_allowed, [])
              (json-HasBody (codes "{\"ok\":true,\"action\":\"rebooting\"}") (omega arith)) denied))

    of_post : (path : Bytes) (o : Option Bytes) → Answered (post_answer site path text o)
    of_post path none = error-HasBody (codes "Incomplete request") (omega arith)
    of_post path (some body) = of_route path (trim_body (length_field text) body)

    of_request : (o : Option HttpReq) → Answered (request_answer site text o)
    of_request none = error-HasBody (codes "Bad request") (omega arith)
    of_request (some req) =
        one_answer (str_eq req.method (codes "GET"))
          (some (get_answer site req.path (find_route req.path routes), [])) _
          (get-HasBody site small req.path (find_route req.path routes))
          (one_answer (str_eq req.method (codes "POST"))
            (post_answer site req.path text (after_match (codes "\r\n\r\n") text)) _
            (of_post req.path (after_match (codes "\r\n\r\n") text)) denied)
