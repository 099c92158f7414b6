-- ===== src/Block/Loop.antt =====
-- libbb/bb_block.c: what a block says on the bus, and how its main loop ends.
use nxp_imx95_building_block.Block.{
  BlockState, BlockAct, publish_on, set_state, stated, Block, block_topic, state_fields, state_init,
  state_ready, state_running, state_stopping, state_stopped, state_error, state_str, close_bus,
  call_stop, text_written, publish_text, publish_state, if_set, Round, round_acts, ends,
  block_rounds, block_main_loop,
}
use nxp_imx95_building_block.Json.Object.{
  object_text, Field, write_object, key_text, value_text, members, write_object_lem,
}
use nxp_imx95_building_block.Common.{
  ℕ, zero, suc, ◌+◌, ◌≤◌, ◌<◌, ◌≡◌, refl, sym, ap, ◌∙◌, true, false, not, some, List, [], ◌∷◌, ◌++◌,
  append-nil, arith, ◌==◌, length, length-append, All, Bytes, codes, all, all-append, ℤ, pos,
  negsuc, before_char, print_int, length-print_int, lacks, decimal-lacks, before_char-lacks,
}

-- The message for a state, as a JSON text.
abbrev pub state_message : Block → ℤ → BlockState → BlockAct
state_message block now state =
    publish_on (block_topic block.id (codes "/state"))
      (object_text (state_fields block.id now state))

-- What `bb_block_publish_state` does for a state.
abbrev pub state_acts : Block → ℤ → BlockState → List BlockAct
state_acts block now state = set_state state ∷ state_message block now state ∷ []

lacks-append : (a b : Bytes) → lacks 0 a ≡ true → lacks 0 b ≡ true → lacks 0 (a ++ b) ≡ true
lacks-append a b h k = all-append (λ c. not (0 == c)) a b ∙ rw (h, k) refl

lacks-print_int : (v : ℤ) → lacks 0 (print_int v) ≡ true
unfolding print_int all
lacks-print_int (pos n) = decimal-lacks 0 n refl
lacks-print_int (negsuc n) = decimal-lacks 0 (n + 1) refl

lacks-state_str : (state : BlockState) → lacks 0 (state_str state) ≡ true
unfolding all
lacks-state_str state_init = refl
lacks-state_str state_ready = refl
lacks-state_str state_running = refl
lacks-state_str state_stopping = refl
lacks-state_str state_stopped = refl
lacks-state_str state_error = refl

length-state_str : (state : BlockState) → length (state_str state) ≤ 8
length-state_str state_init = omega arith
length-state_str state_ready = omega arith
length-state_str state_running = omega arith
length-state_str state_stopping = omega arith
length-state_str state_stopped = omega arith
length-state_str state_error = omega arith

-- What a client leaves in its buffer when the text of an object fits.
pub text_written-object :
    (cells : Bytes) (fs : List Field)
    → length (object_text fs) < length cells
    → lacks 0 (object_text fs) ≡ true
    → text_written (write_object cells fs) ≡ some (object_text fs)
text_written-object cells fs h k =
    let (w, rest, e, b, p) = write_object_lem cells fs h in
    ap text_written e
    ∙ ap (λ t. some (before_char 0 t)) b
    ∙ ap some (before_char-lacks 0 (object_text fs) rest k)

-- A block whose identifier fits the messages with room to spare.
pub record IsBlock (block : Block) : Type 0 where
  pub cells : length block.payload ≡ 4096
  pub short_id : length block.id ≤ 4000
  pub text_id : lacks 0 block.id ≡ true

pub publish_state_lem :
    (block : Block) (now : ℤ) (state : BlockState)
    → IsBlock block
    → publish_state block now state ≡ some (state_acts block now state)
unfolding publish_state object_text members key_text value_text all
publish_state_lem block now state h =
    let word = state_str state in
    let last = codes "\"status\":" ++ (34 ∷ word ++ codes "\"") in
    let second = codes "\"ts\":" ++ print_int now in
    let first = codes "\"block\":" ++ (34 ∷ block.id ++ codes "\"") in
    let fs = state_fields block.id now state in
    let fits : length (object_text fs) < length block.payload = omega (
      arith,
      h.cells,
      h.short_id,
      length-append (first ++ 44 ∷ (second ++ 44 ∷ last)) (125 ∷ []),
      length-append first (44 ∷ (second ++ 44 ∷ last)),
      length-append second (44 ∷ last),
      length-append word (codes "\""),
      length-append block.id (codes "\""),
      length-print_int now,
      length-state_str state,
    ) in
    let clean : lacks 0 (object_text fs) ≡ true =
      lacks-append (first ++ 44 ∷ (second ++ 44 ∷ last)) (125 ∷ [])
        (lacks-append first (44 ∷ (second ++ 44 ∷ last))
          (lacks-append block.id (codes "\"") h.text_id refl)
          (lacks-append second (44 ∷ last) (lacks-print_int now)
            (lacks-append word (codes "\"") (lacks-state_str state) refl)))
        refl in
    ap (λ t. stated state (publish_text (block_topic block.id (codes "/state")) t))
      (text_written-object block.payload fs fits clean)

abbrev pub repeat_acts : ℕ → List BlockAct → List BlockAct
repeat_acts zero acts = []
repeat_acts (suc n) acts = acts ++ repeat_acts n acts

block_rounds-end :
    (block : Block) (before : List Round) (r : Round) (more : List Round)
    → All (λ q. ends block q ≡ false) before
    → ends block r ≡ true
    → block_rounds block (before ++ r ∷ more)
      ≡ (repeat_acts (suc (length before)) (round_acts block), true)
unfolding block_rounds
block_rounds-end block [] r more h e =
    rw e (ap (λ t. (t, true)) (sym (append-nil (round_acts block))))
block_rounds-end block (q ∷ before) r more h e =
    rw (h.0, block_rounds-end block before r more h.1 e) refl

-- The end of the loop, behind what its rounds did.
abbrev pub stopping_acts : Block → ℤ → List BlockAct
stopping_acts block later =
    set_state state_stopping
    ∷ (if_set block.has_stop call_stop ++ (state_acts block later state_stopped ++ close_bus ∷ []))

-- The main loop says that the block runs, polls the bus and calls `run` until the first round in
-- which `run` fails or `running` is cleared, that round included, or not at all when `running` was
-- cleared before; it then stops the block, says so and leaves the bus, in this order, with the state
-- that it stores at each of these steps; for a block whose messages fit.
pub block_main_loop_lem :
    (block : Block) (now later : ℤ) (before : List Round) (r : Round) (more : List Round)
    → IsBlock block
    → All (λ q. ends block q ≡ false) before
    → ends block r ≡ true
    → (block_main_loop block true now later (before ++ r ∷ more)
        ≡ some (
            set_state state_running
            ∷ (state_acts block now state_running
                ++ (repeat_acts (suc (length before)) (round_acts block)
                    ++ stopping_acts block later))))
      × (block_main_loop block false now later (before ++ r ∷ more)
          ≡ some (
              set_state state_running
              ∷ (state_acts block now state_running ++ stopping_acts block later)))
unfolding block_main_loop
block_main_loop_lem block now later before r more h k e =
    let run = publish_state_lem block now state_running h in
    let stopped = publish_state_lem block later state_stopped h in
    (rw (block_rounds-end block before r more k e, run, stopped) refl, rw (run, stopped) refl)
