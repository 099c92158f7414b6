-- ===== src/Busd/Events/Total.antt =====
-- The main loop of services/bb-busd.c on events that name a client in use: it stays inside `clients`.
use nxp_imx95_building_block.Common.{
  ℕ, ◌<◌, ◌≡◌, refl, subst, ◌≢◌, ◌⊎◌, inl, inr, Bool, true, false, Option, none, some, List, [],
  ◌∷◌, ◌++◌, arith, ◌==◌, lt→ltb, Bool-cases, Option-cases, length, set, length-set, get_elem?_lt,
  Bytes,
}
use nxp_imx95_building_block.Framing.{lines}
use nxp_imx95_building_block.Busd.{Client, Sub, Action, handle_lines, close}
use nxp_imx95_building_block.Busd.Events.{
  Daemon, Event, without, remove_client, take_chunk, read_client, hang_up, handle_event,
}
use nxp_imx95_building_block.Busd.Events.Invariant.{IsDaemon, Leaves, handle_event-IsDaemon}

module _ (d : Daemon) (idx : ℕ) (v : IsDaemon d) (l : idx < d.num_clients) where
  remove_client-some :
      (c : Client) × (remove_client d idx ≡ some (without d idx c, close c.fd ∷ []))
  unfolding remove_client
  remove_client-some =
      let (c, e) = get_elem?_lt d.clients idx (omega (arith, v.slots, v.few)) in
      (c, rw (e, remove_client) (rw (lt→ltb 0 d.num_clients (omega arith)) refl))

  -- A read answers, and leaves the count of clients alone unless it removes the client.
  read_client-some :
      (c : Client) (r : Option Bytes)
      → ((d' : Daemon) × (acts : List Action) × (read_client d idx c r ≡ some (d', acts, true)))
        ⊎ ((cs : List Client) × (subs : List Sub) × (acts : List Action) × (length cs
              ≡ length d.clients)
            × (read_client d idx c r ≡ some (record d { clients = cs; subs = subs }, acts, false)))
  unfolding read_client
  read_client-some c r = elim (Option-cases (take_chunk c r)) [
    | inl e ↦
        let (c', e') = remove_client-some in
        inl (without d idx c', close c'.fd ∷ [], rw (e, read_client) (rw (e', read_client) refl))
    | inr (chunk, e) ↦
        let s = lines (c.buf ++ chunk) in
        let c' : Client = record c { buf = s.1 } in
        inr (
          set d.clients idx c',
          (handle_lines d.subs c.fd s.0).0,
          (handle_lines d.subs c.fd s.0).1,
          length-set d.clients idx c',
          rw (e, read_client) refl,
        )
  ]

hang_up_some :
    (d : Daemon) (idx : ℕ) (cs : List Client) (subs : List Sub) (acts : List Action)
    (hung_up : Bool)
    → IsDaemon d
    → idx < d.num_clients
    → length cs ≡ length d.clients
    → hang_up idx hung_up (record d { clients = cs; subs = subs }, acts, false) ≢ none
unfolding hang_up remove_client
hang_up_some d idx cs subs acts false v l h = λ e. cc
hang_up_some d idx cs subs acts true v l h =
    let (c, e) = get_elem?_lt cs idx (omega (arith, v.slots, v.few)) in
    rw (e, hang_up) (rw (lt→ltb 0 d.num_clients (omega arith), hang_up) (λ z. cc))

hang_up_removed :
    (idx : ℕ) (hung_up : Bool) (d : Daemon) (acts : List Action)
    → hang_up idx hung_up (d, acts, true) ≢ none
unfolding hang_up
hang_up_removed idx false d acts = λ e. cc
hang_up_removed idx true d acts = λ e. cc

handle_event-ne-none :
    (d : Daemon) (e : Event)
    → IsDaemon d
    → (e.word ≡ d.srv) ⊎ (e.word < d.num_clients)
    → handle_event d e ≢ none
unfolding handle_event
handle_event-ne-none d e v w = elim (Bool-cases (e.word == d.srv)) [
  | inl y ↦ rw y (λ z. cc)
  | inr n ↦
      let l : e.word < d.num_clients = in_use n w in
      elim (Bool-cases e.readable) [
        | inr k ↦ rw (n, k) (hang_up_some d e.word d.clients d.subs [] e.hung_up v l refl)
        | inl k ↦
            let (c, g) = get_elem?_lt d.clients e.word (omega (arith, v.slots, v.few)) in
            elim (read_client-some d e.word v l c e.received) [
              | inl (d', acts, r) ↦
                  rw (n, k)
                    (rw (g, handle_event)
                      (rw (r, handle_event) (hang_up_removed e.word e.hung_up d' acts)))
              | inr (cs, subs, acts, h, r) ↦
                  rw (n, k)
                    (rw (g, handle_event)
                      (rw (r, handle_event) (hang_up_some d e.word cs subs acts e.hung_up v l h)))
            ]
      ]
]
  where
    in_use :
        (e.word == d.srv) ≡ false
        → (e.word ≡ d.srv) ⊎ (e.word < d.num_clients)
        → e.word < d.num_clients
    in_use n (inl y) = absurd (ground (arith, y, n))
    in_use n (inr l) = l

-- An event of the listening socket, or one whose word is the index of a client in use, is handled: no
-- access leaves `clients`, and the daemon's arrays are within their bounds again after it, with 64
-- client slots of which at most 64 are in use, each buffer with a byte left for its NUL, and the table
-- of subscriptions within `subs`.
pub handle_event_lem :
    (d : Daemon) (e : Event)
    → IsDaemon d
    → (e.word ≡ d.srv) ⊎ (e.word < d.num_clients)
    → (r : Daemon × List Action) × (handle_event d e ≡ some r) × IsDaemon r.0
handle_event_lem d e v w = elim (Option-cases (handle_event d e)) [
  | inl n ↦ absurd (handle_event-ne-none d e v w n)
  | inr (r, h) ↦
      let p = handle_event-IsDaemon d e v in
      (r, h, subst (Leaves (λ (x : Daemon × List Action). IsDaemon x.0)) h p)
]
