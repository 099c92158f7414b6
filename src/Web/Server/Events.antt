-- ===== src/Web/Server/Events.antt =====
-- services/bb-webd.c: the event loop keeps the clients in order, but for one pair of flags.

use nxp_imx95_building_block.Web.Request.{Site, length_field, handle_request}
use nxp_imx95_building_block.Web.Server.{
  WebClient, Server, max_web_clients, Act, add_web_client, accept_web, waits, Progress, received,
  body_in, read_rest, read_web, dropped, hang_up_web, WebEvent, connection, ready, client_event,
  web_event,
}
use nxp_imx95_building_block.Web.Server.Loop.{
  IsWebBuffer, IsServer, remove-IsServer, Kept, stored-IsServer, received-IsWebBuffer, head-Kept,
}
use nxp_imx95_building_block.Common.{
  ℕ, ◌+◌, ◌<◌, ◌≡◌, refl, sym, subst, ◌∙◌, inl, inr, Bool, true, false, ◌&&◌, Option, none, some,
  List, [], arith, if◌then◌else◌, Bool-cases, get_elem?, set, length-set, get_elem?_lt, All-set,
  All-get, Bytes, ℤ, pos, negsuc, ltb_ℤ, leb_ℤ,
}

-- The bytes that arrive complete a request of this client, and its handler leaves a buffer of its own
-- or computes a number that an `int` does not hold.
abbrev pub Fails : Site → ℕ → Bytes → Server → Type 0
Fails site idx arrived s =
    (c : WebClient) × (d : WebClient) × (body : Bytes) × (get_elem? s.clients idx ≡ some c)
    × (received idx c arrived ≡ some d)
    × (body_in d.buf ≡ some body)
    × (waits (length_field d.buf) body ≡ false)
    × (handle_request site d.buf ≡ none)

-- Why the loop can leave an array: for a connection there is no reason.
abbrev pub Reason : Site → WebEvent → Server → Type 0
Reason site (connection cfd) s = ⊥
Reason site (ready idx in_flag arrived hup) s = (in_flag ≡ true) × Fails site idx arrived s

module _ (site : Site) (idx : ℕ) where
  rest-Kept :
      (reason : Type 0) (c : WebClient) (s : Server) (n : ℕ)
      → IsServer s
      → s.num_clients ≡ pos n
      → 0 < n
      → IsWebBuffer c
      → (arrived : Bytes) (o : Option WebClient) → received idx c arrived ≡ o
      → ((d : WebClient) (body : Bytes)
          → o ≡ some d
          → body_in d.buf ≡ some body
          → waits (length_field d.buf) body ≡ false
          → handle_request site d.buf ≡ none
          → reason)
      → Kept {A = Progress} reason (λ r. r.0) (read_rest site idx c s o)
  unfolding read_rest
  rest-Kept reason c s n h e p k arrived none q why = remove-IsServer idx c s n h e p
  rest-Kept reason c s n h e p k arrived (some d) q why =
      head-Kept site idx (record s { clients = set s.clients idx d }) n
        (stored-IsServer idx d s h (received-IsWebBuffer idx c arrived d k q)) e p reason d
        (body_in d.buf) (λ body. why d body refl)

  -- The state when the flags come one at a time.
  hang_up-Kept :
      (reason : Type 0) (s : Server) (n : ℕ)
      → IsServer s
      → s.num_clients ≡ pos n
      → 0 < n
      → idx < max_web_clients
      → (hup : Bool)
      → Kept {A = Server × List Act} reason (λ r. r.0) (hang_up_web idx hup (some (s, [], false)))
  unfolding hang_up_web
  hang_up-Kept reason s n h e p l false = h
  hang_up-Kept reason s n h e p l true =
      let (c, g) = get_elem?_lt s.clients idx (omega (arith, l, h.slots)) in
      subst (λ o. Kept {A = Server × List Act} reason (λ r. r.0) (dropped idx s [] o)) (sym g)
        (remove-IsServer idx c s n h e p)

  quiet-Kept :
      (reason : Type 0) (o : Option Progress)
      → Kept {A = Progress} reason (λ r. r.0) o
      → Kept {A = Server × List Act} reason (λ r. r.0) (hang_up_web idx false o)
  unfolding hang_up_web
  quiet-Kept reason none k = k
  quiet-Kept reason (some (s, acts, true)) k = k
  quiet-Kept reason (some (s, acts, false)) k = k

  client-Kept :
      (s : Server) (n : ℕ)
      → IsServer s
      → s.num_clients ≡ pos n
      → 0 < n
      → idx < max_web_clients
      → (in_flag hup : Bool) (arrived : Bytes) → (in_flag && hup) ≡ false
      → (o : Option WebClient) → get_elem? s.clients idx ≡ o
      → Kept {A = Server × List Act}
          ((in_flag ≡ true) × Fails site idx arrived s)
          (λ r. r.0)
          (client_event site idx in_flag arrived hup s o)
  unfolding client_event read_web
  client-Kept s n h e p l in_flag hup arrived f none q = absurd (omega (arith, no_slot))
    where
      no_slot : idx < idx
      no_slot = let (c, g) = get_elem?_lt s.clients idx (omega (arith, l, h.slots)) in cc
  client-Kept s n h e p l false hup arrived f (some c) q =
      hang_up-Kept ((false ≡ true) × Fails site idx arrived s) s n h e p l hup
  client-Kept s n h e p l true true arrived f (some c) q = cc
  client-Kept s n h e p l true false arrived f (some c) q =
      let reason : Type 0 = (true ≡ true) × Fails site idx arrived s in
      quiet-Kept reason (read_rest site idx c s (received idx c arrived)) (
        rest-Kept reason c s n h e p (All-get IsWebBuffer s.clients idx c h.buffers q) arrived
          (received idx c arrived) refl (λ d body r b w t. (refl, (c, d, body, q, r, b, w, t))))

one_of :
    (a b : Bool) (x y : Option (Server × List Act))
    → (b ≡ true → Kept {A = Server × List Act} ⊥ (λ r. r.0) x)
    → Kept {A = Server × List Act} ⊥ (λ r. r.0) y
    → Kept {A = Server × List Act} ⊥ (λ r. r.0) (if a && b then x else y)
one_of true true x y h k = h refl
one_of true false x y h k = k
one_of false b x y h k = k

added-Kept :
    (cfd : ℤ) (s : Server) (v : ℤ)
    → IsServer s
    → s.num_clients ≡ v
    → ltb_ℤ v (pos max_web_clients) ≡ true
    → Kept {A = Server × List Act} ⊥ (λ r. r.0) (add_web_client cfd s v)
unfolding add_web_client
added-Kept cfd s (negsuc n) h e l = let (m, q, b) = h.used in no_sign (sym q ∙ e)
  where
    no_sign : {m n : ℕ} → pos m ≡ negsuc n → ⊥
    no_sign q = cc
added-Kept cfd s (pos n) h e l = record {
  slots = length-set s.clients n (record { fd = cfd; buf = [] }) ∙ h.slots;
  used = (n + 1, refl, ground (arith, l));
  buffers = All-set IsWebBuffer s.clients n (record { fd = cfd; buf = [] }) h.buffers (omega arith);
}

accept-Kept :
    (cfd : ℤ) (s : Server)
    → IsServer s
    → Kept {A = Server × List Act} ⊥ (λ r. r.0) (accept_web cfd s)
unfolding accept_web
accept-Kept cfd s h =
    one_of (leb_ℤ (pos 0) cfd) (ltb_ℤ s.num_clients (pos max_web_clients))
      (add_web_client cfd s s.num_clients) _ (λ l. added-Kept cfd s s.num_clients h refl l) h

-- Not data together with the end of the stream.
abbrev pub OneFlag : WebEvent → Type 0
OneFlag (connection cfd) = Unit
OneFlag (ready idx in_flag arrived hup) = (in_flag && hup) ≡ false

-- For every event but one that reports data and the end of a stream at once, the loop stays inside the
-- array of clients and its buffers, and the array, its count and its buffers are within their bounds
-- again, or the event completes a request, of the client that it is about, whose own handler leaves a
-- buffer or the range of an `int`; a new connection is always handled.
pub web_event_lem :
    (site : Site) (ev : WebEvent) (s : Server)
    → IsServer s
    → OneFlag ev
    → Kept {A = Server × List Act} (Reason site ev s) (λ r. r.0) (web_event site ev s)
unfolding web_event
web_event_lem site (connection cfd) s h f = accept-Kept cfd s h
web_event_lem site (ready idx in_flag arrived hup) s h f =
    let (n, e, l) = h.used in
    elim (Bool-cases (leb_ℤ s.num_clients (pos idx))) [
      | inl q ↦ rw q h
      | inr q ↦
          let below : idx < n = index_below idx n s.num_clients e q in
          rw q (
            client-Kept site idx s n h e (omega (arith, below)) (omega (arith, below, l)) in_flag
              hup arrived f (get_elem? s.clients idx) refl)
    ]
  where
    index_below : (idx n : ℕ) (v : ℤ) → v ≡ pos n → leb_ℤ v (pos idx) ≡ false → idx < n
    index_below idx n v e q = ground (arith, subst (λ w. leb_ℤ w (pos idx) ≡ false) e q)
