-- ===== src/Busd/Events.antt =====
-- The main loop of services/bb-busd.c: one event of `epoll_wait` at a time.
pub mod Invariant
pub mod Total
pub mod Chunks
pub mod Stale
use nxp_imx95_building_block.Common.{
  ℕ, zero, suc, ◌+◌, ◌-◌, ◌*◌, ◌/◌, ◌%◌, ◌^◌, ◌≤◌, ◌<◌, min, ◌≡◌, refl, sym, ap, ap₂, subst, ◌∙◌,
  ◌≢◌, ◌↔◌, ◌⊎◌, inl, inr, Bool, true, false, not, ◌&&◌, ◌||◌, Option, none, some, List, [], ◌∷◌,
  ◌++◌, map, append-nil, append_assoc, arith, ltb, leb, ◌==◌, if◌then◌else◌, ltb→lt, lt→ltb,
  le→not_ltb, leb→le, le→leb, ==_iff, ==_self, ==_ne, tests, Bool-cases, Option-cases, length,
  get_elem?, get_or, set, take, drop, replicate, length-append, length-set, get_elem?-set_self,
  get_elem?-set_ne, get_elem?_lt, get_elem?_ge, lt_of_get_elem?, take-append-drop, length-take,
  length-drop, take_all, drop_all, take-append_length, drop-append_length, length-replicate,
  length-map, All, Bytes, codes, str_eq, starts_with, str_eq_refl, str_eq→eq, str_eq_ne,
  starts_with-append, all, ℤ, pos, negsuc, pos_part, neg_part, ltb_ℤ, leb_ℤ, eq_ℤ, sub_ℕ, ◌+ℤ◌,
  ◌-ℤ◌, int_max, fetch_inc, fetch_dec, fetch_inc_lt, fetch_dec_pos, is_space, skip_space, token,
  after_char, before_char,
}
use nxp_imx95_building_block.Framing.{lines}
use nxp_imx95_building_block.Busd.{
  Client, Sub, Action, close, handle_lines, remove_subs, max_clients, buf_size,
}

-- The daemon: the array `clients` with `num_clients`, the table, and what `epoll` knows: for each
-- registered descriptor the `data` that an event of it carries.
pub record Daemon : Type 0 where
  pub srv : ℕ
  pub clients : List Client
  pub num_clients : ℕ
  pub subs : List Sub
  pub registered : List (ℕ × ℕ)

-- An event: the word of its `data`, which the loop reads as `fd` and as `u32`; its flags; what
-- `accept` answers if it is asked, and what `recv` returns if it is.
pub record Event : Type 0 where
  pub word : ℕ
  pub readable : Bool
  pub hung_up : Bool
  pub accepted : Option ℕ
  pub received : Option Bytes

-- `epoll_ctl(epfd, EPOLL_CTL_DEL, fd, NULL)`
unfoldable pub unregister : ℕ → List (ℕ × ℕ) → List (ℕ × ℕ)
unregister fd [] = []
unregister fd ((f, w) ∷ rs) = if f == fd then unregister fd rs else (f, w) ∷ unregister fd rs

-- `memmove(&clients[idx], &clients[idx + 1], (num_clients - idx - 1) * sizeof(client_t))`
unfoldable pub shift_down : List Client → ℕ → ℕ → List Client
shift_down cs idx n =
    if ltb (idx + 1) n
    then take idx cs ++ (take (n - idx - 1) (drop (idx + 1) cs) ++ drop (n - 1) cs)
    else cs

-- The state that `remove_client` leaves, given the client at the index.
abbrev pub without : Daemon → ℕ → Client → Daemon
without d idx c = record d {
  clients = shift_down d.clients idx d.num_clients;
  num_clients = d.num_clients - 1;
  subs = remove_subs c.fd d.subs;
  registered = unregister c.fd d.registered;
}

-- `remove_client`; `none` is an access outside `clients`, or a `num_clients` below 0.
unfoldable pub remove_client : Daemon → ℕ → Option (Daemon × List Action)
unfolding shift_down unregister
remove_client d idx = elim (get_elem? d.clients idx) [
  | none ↦ none
  | some c ↦ if ltb 0 d.num_clients then some (without d idx c, close c.fd ∷ []) else none
]

-- The branch of the listening socket.
unfoldable pub accept_client : Daemon → Option ℕ → Daemon
accept_client d none = d
accept_client d (some cfd) =
    if ltb d.num_clients max_clients
    then record d {
      clients = set d.clients d.num_clients (record { fd = cfd; buf = [] });
      num_clients = d.num_clients + 1;
      registered = d.registered ++ (cfd, d.num_clients) ∷ [];
    }
    else d

-- `recv` into the free part of the buffer, of `avail` bytes: what is stored, or `none` for an answer
-- of 0 or less.
unfoldable pub take_chunk : Client → Option Bytes → Option Bytes
take_chunk c none = none
take_chunk c (some chunk) =
    let got = take (buf_size - length c.buf - 1) chunk in
    elim got [ [] ↦ none | x ∷ xs ↦ some (x ∷ xs) ]

-- The EPOLLIN branch on client `idx`: the state, the actions, and whether the client was removed.
unfoldable pub read_client :
    Daemon → ℕ → Client → Option Bytes → Option (Daemon × List Action × Bool)
unfolding take_chunk remove_client
read_client d idx c received = elim (take_chunk c received) [
  | none ↦ elim (remove_client d idx) [ none ↦ none | some (d', acts) ↦ some (d', acts, true) ]
  | some chunk ↦
      let split = lines (c.buf ++ chunk) in
      let done = handle_lines d.subs c.fd split.0 in
      some (
        record d { clients = set d.clients idx (record c { buf = split.1 }); subs = done.0 },
        done.1,
        false,
      )
]

-- The EPOLLHUP and EPOLLERR branch.
unfoldable pub hang_up : ℕ → Bool → Daemon × List Action × Bool → Option (Daemon × List Action)
unfolding remove_client
hang_up idx false (d, acts, removed) = some (d, acts)
hang_up idx true (d, acts, true) = some (d, acts)
hang_up idx true (d, acts, false) = elim (remove_client d idx) [
  | none ↦ none
  | some (d', more) ↦ some (d', acts ++ more)
]

-- The body of the loop over the events. `none` is an access outside `clients`, or a removal that
-- leaves `num_clients` below 0.
unfoldable pub handle_event : Daemon → Event → Option (Daemon × List Action)
unfolding accept_client read_client hang_up
handle_event d e =
    if e.word == d.srv
    then some (accept_client d e.accepted, [])
    else if e.readable
    then elim (get_elem? d.clients e.word) [
      | none ↦ none
      | some c ↦ elim (read_client d e.word c e.received) [
        | none ↦ none
        | some r ↦ hang_up e.word e.hung_up r
      ]
    ]
    else hang_up e.word e.hung_up (d, [], false)
