-- ===== src/Busd.antt =====
-- services/bb-busd.c: the message bus daemon. File descriptors are numbers; a string is its bytes
-- before the NUL. Each function takes the tables it reads and returns the tables it leaves.
pub mod Ids
pub mod Subscribe
pub mod Deliver
pub mod Remove
pub mod Bounds
pub mod Events
mod Tests
use nxp_imx95_building_block.Common.{
  ℕ, zero, suc, ◌+◌, ◌-◌, ◌*◌, ◌/◌, ◌%◌, ◌^◌, ◌≤◌, ◌<◌, min, ◌≡◌, refl, sym, ap, ap₂, subst, ◌∙◌,
  ◌≢◌, ◌↔◌, ◌⊎◌, inl, inr, Bool, true, false, not, ◌&&◌, ◌||◌, Option, none, some, List, [], ◌∷◌,
  ◌++◌, map, append-nil, append_assoc, arith, ltb, leb, ◌==◌, if◌then◌else◌, ltb→lt, lt→ltb,
  le→not_ltb, leb→le, le→leb, ==_iff, ==_self, ==_ne, tests, Bool-cases, Option-cases, length,
  get_elem?, get_or, set, take, drop, replicate, length-append, length-set, get_elem?-set_self,
  get_elem?-set_ne, get_elem?_lt, get_elem?_ge, lt_of_get_elem?, take-append-drop, length-take,
  length-drop, take_all, drop_all, take-append_length, drop-append_length, length-replicate,
  length-map, All, Bytes, codes, str_eq, starts_with, str_eq_refl, str_eq→eq, str_eq_ne,
  starts_with-append, all, ℤ, pos, negsuc, pos_part, neg_part, ltb_ℤ, leb_ℤ, eq_ℤ, sub_ℕ, ◌+ℤ◌,
  ◌-ℤ◌, int_max, fetch_inc, fetch_dec, fetch_inc_lt, fetch_dec_pos, is_space, skip_space, token,
  after_char, before_char,
}
use nxp_imx95_building_block.Framing.{lines}

abbrev pub max_clients : ℕ
max_clients = 64

abbrev pub max_subs : ℕ
max_subs = 256

abbrev pub buf_size : ℕ
buf_size = 8192

-- `client_t`: `buf` holds the `buf_len` bytes received and not yet handled.
pub record Client : Type 0 where
  pub fd : ℕ
  pub buf : Bytes

-- `sub_t`: `client_ids` holds its first `count` entries.
pub record Sub : Type 0 where
  pub topic : Bytes
  pub client_ids : List ℕ

-- A call that the daemon makes on a socket.
pub data Action : Type 0 where
  send : ℕ → Bytes → Action
  close : ℕ → Action

-- `find_sub`: the index of the first entry with the topic.
unfoldable pub find_sub : List Sub → Bytes → Option ℕ
find_sub [] topic = none
find_sub (s ∷ ss) topic =
    let rest = find_sub ss topic in
    if str_eq s.topic topic then some 0 else elim rest [ none ↦ none | some i ↦ some (suc i) ]

-- `pattern[plen - 1]`, where there is one.
abbrev pub last_byte : Bytes → ℕ
last_byte [] = 0
last_byte (c ∷ []) = c
last_byte (c ∷ d ∷ s) = last_byte (d ∷ s)

-- `topic_match`
unfoldable pub topic_match : Bytes → Bytes → Bool
topic_match pattern_ topic =
    str_eq pattern_ topic
    || (ltb 0 (length pattern_) && last_byte pattern_ == b'#')
      && starts_with (take (length pattern_ - 1) pattern_) topic

-- The line that `publish` sends.
abbrev pub pub_line : Bytes → Bytes → Bytes
pub_line topic payload = codes "PUB " ++ (topic ++ (32 ∷ (payload ++ (10 ∷ []))))

-- The inner loop of `publish`: a send to each subscriber but the sender.
unfoldable pub send_each : Bytes → ℕ → List ℕ → List Action
send_each msg sender [] = []
send_each msg sender (c ∷ cs) =
    let rest = send_each msg sender cs in if c == sender then rest else send c msg ∷ rest

-- The outer loop of `publish`.
unfoldable pub send_all : List Sub → Bytes → Bytes → ℕ → List Action
unfolding send_each
send_all [] topic msg sender = []
send_all (s ∷ ss) topic msg sender =
    let rest = send_all ss topic msg sender in
    if topic_match s.topic topic then send_each msg sender s.client_ids ++ rest else rest

-- `publish`: a line that does not fit in `msg` is not sent.
unfoldable pub publish : List Sub → Bytes → Bytes → ℕ → List Action
unfolding send_all
publish subs topic payload sender =
    let msg = pub_line topic payload in
    if leb buf_size (length msg) then [] else send_all subs topic msg sender

unfoldable pub contains : ℕ → List ℕ → Bool
contains c [] = false
contains c (x ∷ xs) = x == c || contains c xs

-- The end of the SUB branch: the descriptor is added unless it is there or the entry is full.
unfoldable pub add_client : ℕ → List ℕ → List ℕ
unfolding contains
add_client fd ids =
    if ltb (length ids) max_clients then if contains fd ids then ids else ids ++ fd ∷ [] else ids

-- A change of the descriptors of entry `i`.
unfoldable pub modify : (List ℕ → List ℕ) → List Sub → ℕ → List Sub
modify f [] i = []
modify f (s ∷ ss) zero = record s { client_ids = f s.client_ids } ∷ ss
modify f (s ∷ ss) (suc i) = s ∷ modify f ss i

-- The SUB branch of `handle_line`; `strncpy` keeps 127 bytes of the topic.
unfoldable pub subscribe : List Sub → Bytes → ℕ → List Sub
unfolding find_sub add_client modify
subscribe subs topic fd = elim (find_sub subs topic) [
  | some i ↦ modify (add_client fd) subs i
  | none ↦
      if ltb (length subs) max_subs
      then subs ++ record { topic = take 127 topic; client_ids = add_client fd [] } ∷ []
      else subs
]

-- `x` behind the first entry.
abbrev pub put_second : ℕ → List ℕ → List ℕ
put_second x [] = x ∷ []
put_second x (l ∷ ls) = l ∷ x ∷ ls

-- What `a[j] = a[--count]` leaves from place `j` on, given the entries behind it: the last of them
-- moves to the front.
unfoldable pub bring_last : List ℕ → List ℕ
bring_last [] = []
bring_last (x ∷ []) = x ∷ []
bring_last (x ∷ y ∷ ys) = put_second x (bring_last (y ∷ ys))

-- The UNSUB branch of `handle_line` removes the first occurrence.
unfoldable pub remove_first : ℕ → List ℕ → List ℕ
unfolding bring_last
remove_first fd [] = []
remove_first fd (x ∷ xs) = if x == fd then bring_last xs else x ∷ remove_first fd xs

unfoldable pub unsubscribe : List Sub → Bytes → ℕ → List Sub
unfolding find_sub modify remove_first
unsubscribe subs topic fd = elim (find_sub subs topic) [
  | some i ↦ modify (remove_first fd) subs i
  | none ↦ subs
]

-- `p` of the PUB branch: what stands behind the first space after the command.
unfoldable pub payload_of : Bytes → Bytes
payload_of line = elim (after_char 32 (drop 4 line)) [ none ↦ [] | some p ↦ p ]

-- The topic that `%255s` reads behind a command of `n` letters.
unfoldable pub topic_of : ℕ → Bytes → Bytes × Bytes
topic_of n line = token 255 (skip_space (drop n line))

abbrev pub is_empty : Bytes → Bool
is_empty [] = true
is_empty (c ∷ s) = false

-- `handle_line`
unfoldable pub handle_line : List Sub → ℕ → Bytes → List Sub × List Action
unfolding topic_of payload_of
handle_line subs fd line =
    if starts_with (codes "PUB ") line
    then (
      subs,
      if is_empty (topic_of 3 line).0 || is_empty (skip_space (topic_of 3 line).1)
          then []
          else publish subs (topic_of 3 line).0 (payload_of line) fd,
    )
    else if starts_with (codes "SUB ") line && not (is_empty (topic_of 3 line).0)
    then (subscribe subs (topic_of 3 line).0 fd, [])
    else if starts_with (codes "UNSUB ") line && not (is_empty (topic_of 5 line).0)
    then (unsubscribe subs (topic_of 5 line).0 fd, [])
    else if str_eq line (codes "PING")
    then (subs, send fd (codes "PONG" ++ 10 ∷ []) ∷ [])
    else (subs, [])

-- The lines of one read, in order.
unfoldable pub handle_lines : List Sub → ℕ → List Bytes → List Sub × List Action
unfolding handle_line
handle_lines subs fd [] = (subs, [])
handle_lines subs fd (l ∷ ls) =
    let one = handle_line subs fd l in
    let more = handle_lines one.0 fd ls in (more.0, one.1 ++ more.1)

-- The loop of `remove_client` over one entry: after an exchange the same place is read again. The
-- first argument is the fuel, of which the length of the list is enough.
unfoldable pub remove_all : ℕ → ℕ → List ℕ → List ℕ
unfolding bring_last
remove_all zero fd xs = xs
remove_all (suc n) fd [] = []
remove_all (suc n) fd (x ∷ xs) =
    let again = remove_all n fd (bring_last xs) in
    let on = remove_all n fd xs in if x == fd then again else x ∷ on

unfoldable pub remove_subs : ℕ → List Sub → List Sub
unfolding remove_all
remove_subs fd [] = []
remove_subs fd (s ∷ ss) =
    record s { client_ids = remove_all (length s.client_ids) fd s.client_ids } ∷ remove_subs fd ss
