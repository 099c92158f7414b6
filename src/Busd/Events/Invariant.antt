-- ===== src/Busd/Events/Invariant.antt =====
-- The bounds of the daemon's arrays through the main loop of services/bb-busd.c.
use nxp_imx95_building_block.Common.{
  ℕ, ◌+◌, ◌-◌, ◌≤◌, ◌<◌, ◌≡◌, refl, subst, ◌∙◌, inl, inr, Bool, true, false, Option, none, some,
  List, [], ◌∷◌, ◌++◌, arith, ltb, ◌==◌, ltb→lt, Bool-cases, Option-cases, length, get_elem?, take,
  drop, length-append, length-set, length-take, length-drop, All, All-append, All-take, All-drop,
  All-set, All-get, Bytes,
}
use nxp_imx95_building_block.Framing.{lines, length-rest}
use nxp_imx95_building_block.Busd.{Client, Action, max_clients, buf_size}
use nxp_imx95_building_block.Busd.Bounds.{IsTable, handle_lines-IsTable, remove_subs-IsTable}
use nxp_imx95_building_block.Busd.Events.{
  Daemon, Event, shift_down, without, remove_client, accept_client, take_chunk, read_client,
  hang_up, handle_event,
}

-- A buffer keeps a byte for its NUL.
abbrev pub IsBuffered : Client → Type 0
IsBuffered c = length c.buf < buf_size

pub record IsDaemon (d : Daemon) : Type 0 where
  pub slots : length d.clients ≡ max_clients
  pub few : d.num_clients ≤ max_clients
  pub table : IsTable d.subs
  pub buffers : All IsBuffered d.clients

length-shift_down :
    (cs : List Client) (idx n : ℕ) → n ≤ length cs → length (shift_down cs idx n) ≡ length cs
unfolding shift_down
length-shift_down cs idx n h = elim (Bool-cases (ltb (idx + 1) n)) [
  | inl y ↦
      let l = ltb→lt (idx + 1) n y in
      rw y (
        omega (
          arith,
          length-append (take idx cs) (take (n - idx - 1) (drop (idx + 1) cs) ++ drop (n - 1) cs),
          length-append (take (n - idx - 1) (drop (idx + 1) cs)) (drop (n - 1) cs),
          length-take idx cs,
          length-take (n - idx - 1) (drop (idx + 1) cs),
          length-drop (idx + 1) cs,
          length-drop (n - 1) cs,
        ))
  | inr k ↦ rw k refl
]

shift_down-buffers :
    (cs : List Client) (idx n : ℕ) → All IsBuffered cs → All IsBuffered (shift_down cs idx n)
unfolding shift_down
shift_down-buffers cs idx n h = elim (Bool-cases (ltb (idx + 1) n)) [
  | inl y ↦ rw y (
      All-append IsBuffered (take idx cs) _ (All-take IsBuffered idx cs h) (
        All-append IsBuffered (take (n - idx - 1) (drop (idx + 1) cs)) _
          (All-take IsBuffered _ _ (All-drop IsBuffered (idx + 1) cs h))
          (All-drop IsBuffered (n - 1) cs h)))
  | inr k ↦ rw k h
]

without-IsDaemon : (d : Daemon) (idx : ℕ) (c : Client) → IsDaemon d → IsDaemon (without d idx c)
without-IsDaemon d idx c v = record {
  slots = length-shift_down d.clients idx d.num_clients (omega (arith, v.slots, v.few)) ∙ v.slots;
  few = omega (arith, v.few);
  table = remove_subs-IsTable c.fd d.subs v.table;
  buffers = shift_down-buffers d.clients idx d.num_clients v.buffers;
}

-- What the state after an operation satisfies, if there is one.
abbrev pub Leaves {ℓ} : {A : Type ℓ} → (A → Type 0) → Option A → Type 0
Leaves P none = Unit
Leaves P (some a) = P a

remove_client-IsDaemon :
    (d : Daemon) (idx : ℕ) → IsDaemon d → Leaves (λ r. IsDaemon r.0) (remove_client d idx)
unfolding remove_client
remove_client-IsDaemon d idx v = elim (Option-cases (get_elem? d.clients idx)) [
  | inl e ↦ rw (e, remove_client) tt
  | inr (c, e) ↦ elim (Bool-cases (ltb 0 d.num_clients)) [
    | inl y ↦ rw (e, remove_client) (rw (y, remove_client) (without-IsDaemon d idx c v))
    | inr n ↦ rw (e, remove_client) (rw (n, remove_client) tt)
  ]
]

accept_client-IsDaemon : (d : Daemon) (cfd : Option ℕ) → IsDaemon d → IsDaemon (accept_client d cfd)
unfolding accept_client
accept_client-IsDaemon d none v = v
accept_client-IsDaemon d (some cfd) v = elim (Bool-cases (ltb d.num_clients max_clients)) [
  | inl y ↦
      let l = ltb→lt d.num_clients max_clients y in
      let c : Client = record { fd = cfd; buf = [] } in
      rw y (record {
        slots = length-set d.clients d.num_clients c ∙ v.slots;
        few = omega arith;
        table = v.table;
        buffers = All-set IsBuffered d.clients d.num_clients c v.buffers (omega arith);
      })
  | inr n ↦ rw n v
]

take_chunk_bound :
    (c : Client) (r : Option Bytes) (chunk : Bytes)
    → IsBuffered c
    → take_chunk c r ≡ some chunk
    → length c.buf + length chunk < buf_size
unfolding take_chunk
take_chunk_bound c none chunk v e = cc
take_chunk_bound c (some bytes) chunk v e =
    from_taken (take (buf_size - length c.buf - 1) bytes)
      (omega (arith, length-take (buf_size - length c.buf - 1) bytes)) e
  where
    from_taken :
        (got : Bytes)
        → length c.buf + length got < buf_size
        → elim got as (λ x. Option Bytes) [ [] ↦ none | x ∷ xs ↦ some (x ∷ xs) ] ≡ some chunk
        → length c.buf + length chunk < buf_size
    from_taken [] l e = cc
    from_taken (x ∷ xs) l e =
        let g : x ∷ xs ≡ chunk = ground arith in subst (λ b. length c.buf + length b < buf_size) g l

left_bound :
    (c : Client) (chunk : Bytes)
    → length c.buf + length chunk < buf_size
    → length (lines (c.buf ++ chunk)).1 < buf_size
left_bound c chunk h = omega (arith, length-rest (c.buf ++ chunk), length-append c.buf chunk)

read_client-IsDaemon :
    (d : Daemon) (idx : ℕ) (c : Client) (r : Option Bytes)
    → IsDaemon d
    → IsBuffered c
    → Leaves (λ x. IsDaemon x.0) (read_client d idx c r)
unfolding read_client
read_client-IsDaemon d idx c r v b = elim (Option-cases (take_chunk c r)) [
  | inl e ↦ rw (e, read_client) (removed (remove_client d idx) (remove_client-IsDaemon d idx v))
  | inr (chunk, e) ↦
      let s = lines (c.buf ++ chunk) in
      let c' : Client = record c { buf = s.1 } in
      rw (e, read_client)
        (record {
          slots = length-set d.clients idx c' ∙ v.slots;
          few = v.few;
          table = handle_lines-IsTable d.subs c.fd s.0 v.table;
          buffers =
              All-set IsBuffered d.clients idx c' v.buffers
                (left_bound c chunk (take_chunk_bound c r chunk b e));
        })
]
  where
    removed :
        (o : Option (Daemon × List Action))
        → Leaves (λ x. IsDaemon x.0) o
        → Leaves
            (λ x. IsDaemon x.0)
            (elim o as (λ x. Option (Daemon × List Action × Bool)) [
              | none ↦ none
              | some (d', acts) ↦ some (d', acts, true)
            ])
    removed none h = h
    removed (some (d', acts)) h = h

hang_up-IsDaemon :
    (idx : ℕ) (hung_up : Bool) (r : Daemon × List Action × Bool)
    → IsDaemon r.0
    → Leaves (λ x. IsDaemon x.0) (hang_up idx hung_up r)
unfolding hang_up
hang_up-IsDaemon idx false (d, acts, removed) v = v
hang_up-IsDaemon idx true (d, acts, true) v = v
hang_up-IsDaemon idx true (d, acts, false) v =
    dropped (remove_client d idx) (remove_client-IsDaemon d idx v)
  where
    dropped :
        (o : Option (Daemon × List Action))
        → Leaves (λ x. IsDaemon x.0) o
        → Leaves
            (λ x. IsDaemon x.0)
            (elim o as (λ x. Option (Daemon × List Action)) [
              | none ↦ none
              | some (d', more) ↦ some (d', acts ++ more)
            ])
    dropped none h = h
    dropped (some (d', more)) h = h

-- Every event that the loop handles, whatever its word, flags, bytes and order, leaves the daemon's
-- arrays within their bounds: 64 client slots of which at most 64 are in use, each buffer with a byte
-- left for its NUL, and the table of subscriptions within `subs`.
pub handle_event-IsDaemon :
    (d : Daemon) (e : Event) → IsDaemon d → Leaves (λ r. IsDaemon r.0) (handle_event d e)
unfolding handle_event
handle_event-IsDaemon d e v = elim (Bool-cases (e.word == d.srv)) [
  | inl y ↦ rw y (accept_client-IsDaemon d e.accepted v)
  | inr n ↦ elim (Bool-cases e.readable) [
    | inr k ↦ rw (n, k) (hang_up-IsDaemon e.word e.hung_up (d, [], false) v)
    | inl k ↦ elim (Option-cases (get_elem? d.clients e.word)) [
      | inl g ↦ rw (n, k) (rw (g, handle_event) tt)
      | inr (c, g) ↦
          rw (n, k)
            (rw (g, handle_event)
              (read (read_client d e.word c e.received) (
                read_client-IsDaemon d e.word c e.received v
                  (All-get IsBuffered d.clients e.word c v.buffers g))))
    ]
  ]
]
  where
    read :
        (o : Option (Daemon × List Action × Bool))
        → Leaves (λ x. IsDaemon x.0) o
        → Leaves
            (λ x. IsDaemon x.0)
            (elim o as (λ x. Option (Daemon × List Action)) [
              | none ↦ none
              | some r ↦ hang_up e.word e.hung_up r
            ])
    read none h = h
    read (some r) h = hang_up-IsDaemon e.word e.hung_up r h
