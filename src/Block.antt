-- ===== src/Block.antt =====
-- libbb/bb_block.c: the life of a building block on the bus. What the block does is a list of acts; the
-- result none is a text that the JSON writer does not keep inside its buffer.
pub mod Loop
pub mod Driver
pub mod Led
mod Tests
use nxp_imx95_building_block.Json.{
  Writer, store, json_init, put, start_object, print, then_print, add_key, add_string, add_int,
  add_bool, drop_comma, close_object, end_object, skip_colon, find_key, unescape, copy_string,
  string_at, get_string, bool_at, get_bool, get_int,
}
use nxp_imx95_building_block.Json.Object.{
  Field, string_field, int_field, write_object, bool_field, add_field, add_fields, then_end,
  then_start, key_text, value_text, members, object_text, trailing, add_field-print, IsWritten,
  write_object_lem, add_fields-Shows, fresh, opened-Shows,
}
use nxp_imx95_building_block.Common.{
  ℕ, zero, suc, ◌+◌, ◌-◌, ◌*◌, ◌/◌, ◌%◌, ◌^◌, ◌≤◌, ◌<◌, min, ◌≡◌, refl, sym, ap, ap₂, subst, ◌∙◌,
  ◌≢◌, ◌↔◌, ◌⊎◌, inl, inr, Bool, true, false, not, ◌&&◌, ◌||◌, Option, none, some, List, [], ◌∷◌,
  ◌++◌, map, append-nil, append_assoc, arith, ltb, leb, ◌==◌, if◌then◌else◌, ltb→lt, lt→ltb,
  le→not_ltb, leb→le, le→leb, ==_iff, ==_self, ==_ne, tests, Bool-cases, Option-cases, length,
  get_elem?, get_or, set, take, drop, replicate, length-append, length-set, get_elem?-set_self,
  get_elem?-set_ne, get_elem?_lt, get_elem?_ge, lt_of_get_elem?, take-append-drop, length-take,
  length-drop, take_all, drop_all, take-append_length, drop-append_length, length-replicate,
  length-map, All, All-append, length-take_le, All-take, All-drop, All-set, All-get, Bytes, codes,
  str_eq, starts_with, str_eq_refl, str_eq→eq, str_eq_ne, starts_with-append, all, all-append, ℤ,
  pos, negsuc, pos_part, neg_part, ltb_ℤ, leb_ℤ, eq_ℤ, sub_ℕ, ◌+ℤ◌, ◌-ℤ◌, int_max, fetch_inc,
  fetch_dec, fetch_inc_lt, fetch_dec_pos, is_space, skip_space, token, after_char, before_char,
  from_last, Files, write_file, delete_file, rename_file, extend_line, read_lines, read-write,
  read-write_ne, read-rename, read-rename_ne, is_digit, pow10, digits, decimal, print_int,
  scan_digits, no_digit, scan_digits-decimal, scan_digits-stop, signed_value, scan_int,
  length-digits, length-print_int, after_match, IsFirst, after_match-first, occurs, lower,
  after_match_case, push_token, scan_tokens, tokens, scan_number, unsigned_of, scan_u64, scan_u32,
  scan_char, scan_number-decimal, scan_u64-decimal, scan_u32-decimal, scan_number-print_int,
  scan_number-space, lacks, IsFirst-lacks, IsFirst-append, is_first, IsFirst-test, digits-lacks,
  decimal-lacks, after_match-append, before_char-lacks, after_char-lacks,
}

-- `bb_state_t`
pub data BlockState : Type 0 where
  state_init state_ready state_running state_stopping state_stopped state_error : BlockState

-- The switch of `bb_block_publish_state`.
abbrev pub state_str : BlockState → Bytes
state_str state_init = codes "init"
state_str state_ready = codes "ready"
state_str state_running = codes "running"
state_str state_stopping = codes "stopping"
state_str state_stopped = codes "stopped"
state_str state_error = codes "error"

-- What a block does in order: its calls of the bus client and of its own functions, and what it stores
-- into its fields `running` and `state`.
pub data BlockAct : Type 0 where
  connect_to : Bytes → BlockAct
  subscribe_to : Bytes → BlockAct
  publish_on : Bytes → Bytes → BlockAct
  poll_bus : BlockAct
  close_bus : BlockAct
  call_init : BlockAct
  call_run : BlockAct
  call_stop : BlockAct
  set_running : ℕ → BlockAct
  set_state : BlockState → BlockAct

-- `block->id`, which of its functions are set, and what the arrays on the stack hold. `running` and
-- `state` are stored by acts; the loop reads `running` as its rounds say.
pub record Block : Type 0 where
  pub id : Bytes
  pub has_init : Bool
  pub has_run : Bool
  pub has_stop : Bool
  pub payload : Bytes

-- `snprintf(topic, 128, "/dev/%s/...", block->id)`
abbrev pub block_topic : Bytes → Bytes → Bytes
block_topic id name = take 127 (codes "/dev/" ++ (id ++ name))

-- The string in the buffer of a writer.
abbrev pub text_written : Option Writer → Option Bytes
text_written none = none
text_written (some w) = some (before_char 0 w.buf)

abbrev pub state_fields : Bytes → ℤ → BlockState → List Field
state_fields id now state =
    string_field (codes "block") (some id)
    ∷ int_field (codes "ts") now
    ∷ string_field (codes "status") (some (state_str state))
    ∷ []

abbrev pub publish_text : Bytes → Option Bytes → Option BlockAct
publish_text topic none = none
publish_text topic (some text) = some (publish_on topic text)

abbrev pub stated : BlockState → Option BlockAct → Option (List BlockAct)
stated state none = none
stated state (some act) = some (set_state state ∷ act ∷ [])

-- `bb_block_publish_state`, at a time.
unfoldable pub publish_state : Block → ℤ → BlockState → Option (List BlockAct)
publish_state block now state = stated state (
    publish_text (block_topic block.id (codes "/state"))
      (text_written (write_object block.payload (state_fields block.id now state))))

-- `bb_block_publish_event`
unfoldable pub publish_event : Block → Bytes → BlockAct
publish_event block event_json = publish_on (block_topic block.id (codes "/event")) event_json

abbrev pub if_set : Bool → BlockAct → List BlockAct
if_set b act = if b then act ∷ [] else []

abbrev started : Block → Bytes → Option (List BlockAct) → Option (ℤ × List BlockAct)
started block path none = none
started block path (some ready) = some (
  pos 0,
  set_running 1
      ∷ set_state state_init
      ∷ connect_to path
      ∷ subscribe_to (block_topic block.id (codes "/cmd"))
      ∷ subscribe_to (codes "/system/broadcast")
      ∷ (if_set block.has_init call_init ++ ready),
)

-- `bb_block_start`, with the value returned; whether the bus is connected is an argument.
unfoldable pub block_start : Block → Bytes → ℤ → Bool → Option (ℤ × List BlockAct)
unfolding publish_state
block_start block path now connected =
    if connected
    then started block path (publish_state block now state_ready)
    else some (negsuc 0, set_running 1 ∷ set_state state_init ∷ connect_to path ∷ [])

-- One round of the loop: whether `running` is 0 when it is tested next (a signal, or
-- `bb_block_stop`), and whether `run` returned another value than 0.
pub record Round : Type 0 where
  pub cleared : Bool
  pub broke : Bool

abbrev pub round_acts : Block → List BlockAct
round_acts block = poll_bus ∷ if_set block.has_run call_run

abbrev pub ends : Block → Round → Bool
ends block r = block.has_run && r.broke || r.cleared

-- The loop of `bb_block_main_loop`, over the rounds that are given: what was done, and whether it
-- was left.
unfoldable pub block_rounds : Block → List Round → List BlockAct × Bool
block_rounds block [] = ([], false)
block_rounds block (r ∷ rs) =
    let rest = block_rounds block rs in
    if ends block r then (round_acts block, true) else (round_acts block ++ rest.0, rest.1)

abbrev pub closed :
    Block → List BlockAct → Option (List BlockAct) → Option (List BlockAct) → Option (List BlockAct)
closed block acts none o = none
closed block acts (some run) none = none
closed block acts (some run) (some stopped) = some (
    set_state state_running
    ∷ (run
        ++ (acts
            ++ (set_state state_stopping
                ∷ (if_set block.has_stop call_stop ++ (stopped ++ close_bus ∷ []))))))

abbrev waiting : List BlockAct → Option (List BlockAct) → Option (List BlockAct)
waiting acts none = none
waiting acts (some run) = some (set_state state_running ∷ (run ++ acts))

-- `bb_block_main_loop`, with the times of its two messages; the second argument is whether
-- `running` is set when it is tested first.
unfoldable pub block_main_loop : Block → Bool → ℤ → ℤ → List Round → Option (List BlockAct)
unfolding publish_state block_rounds
block_main_loop block running now later rounds =
    let (acts, left) = if running then block_rounds block rounds else ([], true) in
    if left
    then closed block acts (publish_state block now state_running)
        (publish_state block later state_stopped)
    else waiting acts (publish_state block now state_running)
