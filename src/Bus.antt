-- ===== src/Bus.antt =====
-- libbb/bb_bus.c: the client of the message bus. What the calls of the socket answer is an argument;
-- what they send is a result.
pub mod Receive
mod Tests
use nxp_imx95_building_block.Framing.{lines}
use nxp_imx95_building_block.Common.{
  ℕ, zero, suc, ◌+◌, ◌-◌, ◌*◌, ◌/◌, ◌%◌, ◌^◌, ◌≤◌, ◌<◌, min, ◌≡◌, refl, sym, ap, ap₂, subst, ◌∙◌,
  ◌≢◌, ◌↔◌, ◌⊎◌, inl, inr, Bool, true, false, not, ◌&&◌, ◌||◌, Option, none, some, List, [], ◌∷◌,
  ◌++◌, map, append-nil, append_assoc, arith, ltb, leb, ◌==◌, if◌then◌else◌, ltb→lt, lt→ltb,
  le→not_ltb, leb→le, le→leb, ==_iff, ==_self, ==_ne, tests, Bool-cases, Option-cases, length,
  get_elem?, get_or, set, take, drop, replicate, length-append, length-set, get_elem?-set_self,
  get_elem?-set_ne, get_elem?_lt, get_elem?_ge, lt_of_get_elem?, take-append-drop, length-take,
  length-drop, take_all, drop_all, take-append_length, drop-append_length, length-replicate,
  length-map, All, All-append, Bytes, codes, str_eq, starts_with, str_eq_refl, str_eq→eq, str_eq_ne,
  starts_with-append, all, all-append, ℤ, pos, negsuc, pos_part, neg_part, ltb_ℤ, leb_ℤ, eq_ℤ,
  sub_ℕ, ◌+ℤ◌, ◌-ℤ◌, int_max, fetch_inc, fetch_dec, fetch_inc_lt, fetch_dec_pos, is_space,
  skip_space, token, after_char, before_char, Files, write_file, delete_file, rename_file,
  extend_line, read_lines, read-write, read-write_ne, read-rename, read-rename_ne,
}

-- `BB_MAX_LINE`
abbrev pub max_line : ℕ
max_line = 128 + 4096 + 64

-- `bb_bus_t` and the static buffer of `bb_bus_poll`, as the bytes that are in it.
pub record Bus : Type 0 where
  pub fd : ℤ
  pub handler : Bool
  pub buf : Bytes

-- `bb_bus_connect`, from what socket and connect return.
unfoldable pub bus_connect : Bus → ℤ → ℤ → ℤ × Bus
bus_connect bus opened connected =
    if ltb_ℤ opened (pos 0)
    then (negsuc 0, record bus { fd = opened; handler = false })
    else if ltb_ℤ connected (pos 0)
    then (negsuc 0, record bus { fd = negsuc 0; handler = false })
    else (pos 0, record bus { fd = opened; handler = false })

-- `send_line`: the value returned and what is handed to send, which returns `sent`.
unfoldable pub send_line : Bus → Bytes → ℤ → ℤ × Bytes
send_line bus line sent =
    if ltb_ℤ bus.fd (pos 0)
    then (negsuc 0, [])
    else (if ltb_ℤ (pos 0) sent then pos 0 else negsuc 0, line ++ 10 ∷ [])

-- `bb_bus_publish`
unfoldable pub bus_publish : Bus → Bytes → Bytes → ℤ → ℤ × Bytes
unfolding send_line
bus_publish bus topic payload sent =
    send_line bus (take (max_line - 1) (codes "PUB " ++ (topic ++ 32 ∷ payload))) sent

-- `bb_bus_subscribe`
unfoldable pub bus_subscribe : Bus → Bytes → ℤ → ℤ × Bytes
unfolding send_line
bus_subscribe bus topic sent = send_line bus (take (max_line - 1) (codes "SUB " ++ topic)) sent

-- `bb_bus_unsubscribe`
unfoldable pub bus_unsubscribe : Bus → Bytes → ℤ → ℤ × Bytes
unfolding send_line
bus_unsubscribe bus topic sent = send_line bus (take (max_line - 1) (codes "UNSUB " ++ topic)) sent

-- The end of `bb_bus_ping`: what was received, empty when recv fails or the socket is closed.
unfoldable pub pong : ℤ → Bytes → ℤ
pong (pos n) arrived = if starts_with (codes "PONG") (take 63 arrived) then pos 0 else negsuc 0
pong (negsuc n) arrived = negsuc 0

-- `bb_bus_ping`
unfoldable pub bus_ping : Bus → ℤ → Bytes → ℤ × Bytes
unfolding send_line pong
bus_ping bus sent arrived =
    let line = send_line bus (codes "PING") sent in (pong line.0 arrived, line.1)

-- The call of the handler for a payload that was found.
unfoldable pub deliver : Bool → Bytes → Option Bytes → List (Bytes × Bytes)
deliver handler topic none = []
deliver handler topic (some payload) = if handler then (topic, payload) ∷ [] else []

-- The body of the line loop of `bb_bus_poll`: the calls of the handler with topic and payload.
unfoldable pub dispatch : Bool → Bytes → List (Bytes × Bytes)
unfolding deliver
dispatch handler line =
    if starts_with (codes "PUB ") line
    then deliver handler (before_char 32 (drop 4 line)) (after_char 32 (drop 4 line))
    else []

unfoldable pub dispatch_all : Bool → List Bytes → List (Bytes × Bytes)
unfolding dispatch
dispatch_all handler [] = []
dispatch_all handler (l ∷ ls) = dispatch handler l ++ dispatch_all handler ls

-- `bb_bus_poll` behind recv, which gave these bytes; none are an error or the end of the stream.
unfoldable pub receive : Bus → Bytes → ℤ × Bus × List (Bytes × Bytes)
unfolding dispatch_all
receive bus [] = (negsuc 0, bus, [])
receive bus (c ∷ chunk) =
    let split = lines (bus.buf ++ c ∷ chunk) in
    (pos 0, record bus { buf = split.1 }, dispatch_all bus.handler split.0)

-- `bb_bus_poll`, from what select returns and the bytes that wait; recv takes what there is room for.
unfoldable pub bus_poll : Bus → ℤ → Bytes → ℤ × Bus × List (Bytes × Bytes)
unfolding receive
bus_poll bus selected arrived =
    if ltb_ℤ bus.fd (pos 0)
    then (negsuc 0, bus, [])
    else if leb_ℤ selected (pos 0)
    then (selected, bus, [])
    else receive bus (take (max_line - 1 - length bus.buf) arrived)

-- `bb_bus_close`
unfoldable pub bus_close : Bus → Bus
bus_close bus = if leb_ℤ (pos 0) bus.fd then record bus { fd = negsuc 0 } else bus
