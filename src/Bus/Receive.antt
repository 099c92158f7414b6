-- ===== src/Bus/Receive.antt =====
-- libbb/bb_bus.c: the messages that `bb_bus_poll` hands to the handler.
use nxp_imx95_building_block.Bus.{Bus, max_line, deliver, dispatch, dispatch_all, receive, bus_poll}
use nxp_imx95_building_block.Framing.{
  lines, then_lines, join_lines, is_text, lines-append, lines-join, lines-rest,
}
use nxp_imx95_building_block.Common.{
  ◌+◌, ◌-◌, ◌≤◌, ◌<◌, ◌≡◌, refl, sym, ap, ap₂, subst, ◌∙◌, inl, inr, Bool, true, false, not, some,
  List, [], ◌∷◌, ◌++◌, map, append-nil, append_assoc, arith, ◌==◌, Bool-cases, length, take_all,
  All, Bytes, codes, starts_with, all, pos, negsuc, ltb_ℤ, after_char, before_char,
}

-- A line that carries a message.
abbrev pub message_line : Bytes × Bytes → Bytes
message_line (topic, payload) = codes "PUB " ++ (topic ++ 32 ∷ payload)

-- A topic without a space, and neither a line end nor a NUL.
abbrev pub IsMessage : Bytes × Bytes → Type 0
IsMessage (topic, payload) =
    (all (λ c. not (c == 32)) topic ≡ true) × (all is_text (message_line (topic, payload)) ≡ true)

before-space :
    (topic payload : Bytes)
    → all (λ c. not (c == 32)) topic ≡ true
    → before_char 32 (topic ++ 32 ∷ payload) ≡ topic
unfolding before_char all
before-space [] payload h = refl
before-space (c ∷ t) payload h =
    let n : (c == 32) ≡ false = ground arith in
    rw n (ap (◌∷◌ c) (before-space t payload (ground arith)))

after-space :
    (topic payload : Bytes)
    → all (λ c. not (c == 32)) topic ≡ true
    → after_char 32 (topic ++ 32 ∷ payload) ≡ some payload
unfolding after_char all
after-space [] payload h = refl
after-space (c ∷ t) payload h =
    let n : (c == 32) ≡ false = ground arith in rw n (after-space t payload (ground arith))

dispatch-message : (m : Bytes × Bytes) → IsMessage m → dispatch true (message_line m) ≡ m ∷ []
unfolding dispatch deliver starts_with
dispatch-message (topic, payload) h =
    rw (before-space topic payload h.0, after-space topic payload h.0) refl

dispatch_all-messages :
    (ms : List (Bytes × Bytes)) → All IsMessage ms → dispatch_all true (map message_line ms) ≡ ms
unfolding dispatch_all
dispatch_all-messages [] h = refl
dispatch_all-messages (m ∷ ms) h = rw (dispatch-message m h.0, dispatch_all-messages ms h.1) refl

messages-text :
    (ms : List (Bytes × Bytes))
    → All IsMessage ms
    → All (λ l. all is_text l ≡ true) (map message_line ms)
messages-text [] h = tt
messages-text (m ∷ ms) h = (h.0.1, messages-text ms h.1)

-- The calls of the handler and the bytes left over when a stream comes in chunks, each read by one
-- call of `bb_bus_poll` for which select reports the socket.
unfoldable pub polls : Bus → List Bytes → List (Bytes × Bytes) × Bus
unfolding bus_poll
polls bus [] = ([], bus)
polls bus (chunk ∷ chunks) =
    let step = bus_poll bus (pos 1) chunk in
    let more = polls step.1 chunks in (step.2 ++ more.0, more.1)

unfoldable pub stream : List Bytes → Bytes
stream [] = []
stream (chunk ∷ chunks) = chunk ++ stream chunks

dispatch_all-append :
    (h : Bool) (xs ys : List Bytes)
    → dispatch_all h (xs ++ ys) ≡ dispatch_all h xs ++ dispatch_all h ys
unfolding dispatch_all
dispatch_all-append h [] ys = refl
dispatch_all-append h (x ∷ xs) ys =
    rw (dispatch_all-append h xs ys)
      (sym (append_assoc (dispatch h x) (dispatch_all h xs) (dispatch_all h ys)))

-- No chunk is empty, and each fits into the buffer behind what the ones before it left.
abbrev pub Fits : Bytes → List Bytes → Type 0
Fits buf [] = Unit
Fits buf (chunk ∷ chunks) =
    (0 < length chunk)
    × (length buf + length chunk < max_line)
    × Fits (lines (buf ++ chunk)).1 chunks

poll_chunk :
    (bus : Bus) (chunk : Bytes)
    → ltb_ℤ bus.fd (pos 0) ≡ false
    → 0 < length chunk
    → length bus.buf + length chunk < max_line
    → bus_poll bus (pos 1) chunk ≡ (
      pos 0,
      record bus { buf = (lines (bus.buf ++ chunk)).1 },
      dispatch_all bus.handler (lines (bus.buf ++ chunk)).0,
    )
unfolding bus_poll receive
poll_chunk bus [] o h k = absurd (omega arith)
poll_chunk bus (c ∷ chunk) o h k =
    rw (o, take_all (max_line - 1 - length bus.buf) (c ∷ chunk) (omega arith)) refl

-- The handler is called for the same messages however the stream is cut into chunks, and the bytes
-- behind the last line end are kept; when the bus is connected, no whole line waits in the buffer at
-- first, no chunk is empty and each fits into the buffer.
pub polls_lem :
    (bus : Bus) (chunks : List Bytes)
    → ltb_ℤ bus.fd (pos 0) ≡ false
    → lines bus.buf ≡ ([], bus.buf)
    → Fits bus.buf chunks
    → polls bus chunks ≡ (
      dispatch_all bus.handler (lines (bus.buf ++ stream chunks)).0,
      record bus { buf = (lines (bus.buf ++ stream chunks)).1 },
    )
unfolding polls stream dispatch_all
polls_lem bus [] o w f = rw (append-nil bus.buf, w) refl
polls_lem bus (chunk ∷ chunks) o w f =
    let split = lines (bus.buf ++ chunk) in
    let next : Bus = record bus { buf = split.1 } in
    let rest = polls_lem next chunks o (lines-rest (bus.buf ++ chunk)) f.2 in
    let whole : lines (bus.buf ++ (chunk ++ stream chunks)) ≡ then_lines split (stream chunks) =
      ap lines (sym (append_assoc bus.buf chunk (stream chunks)))
      ∙ lines-append (bus.buf ++ chunk) (stream chunks) in
    rw (poll_chunk bus chunk o f.0 f.1, rest, whole)
      (ap (λ x. (x, record bus { buf = (lines (split.1 ++ stream chunks)).1 }))
        (sym (dispatch_all-append bus.handler split.0 (lines (split.1 ++ stream chunks)).0)))

no_lines : lines [] ≡ ([], [])
unfolding lines
no_lines = refl

-- Messages that are sent as lines reach the handler, each once, in their order, with topic and
-- payload as they were sent, and nothing is left over, however the stream is cut: for topics without
-- a space and messages without a line end or a NUL, on a connected bus with a handler and an empty
-- buffer, when no chunk is empty and each fits into the buffer.
pub polls-messages :
    (bus : Bus) (chunks : List Bytes) (ms : List (Bytes × Bytes))
    → ltb_ℤ bus.fd (pos 0) ≡ false
    → bus.handler ≡ true
    → bus.buf ≡ []
    → Fits [] chunks
    → All IsMessage ms
    → stream chunks ≡ join_lines (map message_line ms)
    → polls bus chunks ≡ (ms, bus)
polls-messages bus chunks ms o h e f m s =
    let whole : lines (bus.buf ++ stream chunks) ≡ (map message_line ms, []) =
      ap₂ (λ b t. lines (b ++ t)) e s ∙ lines-join (map message_line ms) (messages-text ms m) in
    let sent : dispatch_all bus.handler (lines (bus.buf ++ stream chunks)).0 ≡ ms =
      ap₂ (λ b x. dispatch_all b x.0) h whole ∙ dispatch_all-messages ms m in
    polls_lem bus chunks o (subst (λ b. lines b ≡ ([], b)) (sym e) no_lines)
      (subst (λ b. Fits b chunks) (sym e) f)
    ∙ ap₂ (λ x b. (x, record bus { buf = b })) sent (ap (λ x. x.1) whole ∙ sym e)

poll_full :
    (bus : Bus) (arrived : Bytes)
    → max_line ≤ length bus.buf + 1
    → bus_poll bus (pos 1) arrived ≡ (negsuc 0, bus, [])
unfolding bus_poll receive
poll_full bus arrived k =
    let full : max_line - 1 - length bus.buf ≡ 0 = omega arith in
    elim (Bool-cases (ltb_ℤ bus.fd (pos 0))) [ inl e ↦ rw e refl | inr e ↦ rw (e, full) refl ]

-- When no room is left in the buffer, the connection is stuck: every later call that is
-- told of bytes returns -1, and after any number of them no handler was called and the buffer is the
-- same, whatever arrives.
pub polls_stall :
    (bus : Bus) (arrived : Bytes) (chunks : List Bytes)
    → max_line ≤ length bus.buf + 1
    → ((bus_poll bus (pos 1) arrived).0 ≡ negsuc 0) × (polls bus chunks ≡ ([], bus))
unfolding polls
polls_stall bus arrived [] k = (ap (λ r. r.0) (poll_full bus arrived k), refl)
polls_stall bus arrived (chunk ∷ chunks) k = (
  ap (λ r. r.0) (poll_full bus arrived k),
  rw (poll_full bus chunk k) (ap (λ r. ([] ++ r.0, r.1)) (polls_stall bus arrived chunks k).1),
)
