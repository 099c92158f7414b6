-- ===== src/Busd/Events/Stale.antt =====
-- What `epoll` carries back to services/bb-busd.c after a client has gone: the index that a client
-- had when it came, and a word that can be the listening socket's.
use nxp_imx95_building_block.Common.{
  ℕ, zero, suc, ◌+◌, ◌-◌, ◌≤◌, ◌<◌, ◌≡◌, refl, sym, ap, ◌∙◌, ◌≢◌, Bool, true, false, Option, none,
  some, List, [], ◌∷◌, ◌++◌, arith, ◌==◌, if◌then◌else◌, lt→ltb, ==_ne, length, get_elem?, take,
  drop, length-take, length-drop,
}
use nxp_imx95_building_block.Busd.{max_clients, Client, Action, close}
use nxp_imx95_building_block.Busd.Events.{
  Daemon, Event, unregister, shift_down, without, remove_client, accept_client, read_client,
  hang_up, handle_event,
}

-- The word that an event of the descriptor carries.
unfoldable pub word_of : ℕ → List (ℕ × ℕ) → Option ℕ
word_of fd [] = none
word_of fd ((f, w) ∷ rs) = if f == fd then some w else word_of fd rs

word_of-unregister :
    (fd gone : ℕ) (rs : List (ℕ × ℕ)) → fd ≢ gone → word_of fd (unregister gone rs) ≡ word_of fd rs
unfolding word_of unregister
word_of-unregister fd gone [] h = refl
word_of-unregister fd gone ((f, w) ∷ rs) h = ground (arith, word_of-unregister fd gone rs h)

word_of-snoc :
    (fd w : ℕ) (rs : List (ℕ × ℕ)) → word_of fd rs ≡ none → word_of fd (rs ++ (fd, w) ∷ []) ≡ some w
unfolding word_of
word_of-snoc fd w [] h = ground arith
word_of-snoc fd w ((f, v) ∷ rs) h = ground (arith, word_of-snoc fd w rs)

module _ {ℓ} {A : Type ℓ} where
  get-append_left :
      (xs ys : List A) (i : ℕ) → i < length xs → get_elem? (xs ++ ys) i ≡ get_elem? xs i
  get-append_left [] ys i h = absurd (omega arith)
  get-append_left (x ∷ xs) ys zero h = refl
  get-append_left (x ∷ xs) ys (suc i) h = get-append_left xs ys i (omega arith)

  get-append_right :
      (xs ys : List A) (i : ℕ) → get_elem? (xs ++ ys) (length xs + i) ≡ get_elem? ys i
  get-append_right [] ys i = ap (get_elem? ys) (omega arith)
  get-append_right (x ∷ xs) ys i =
      ap (get_elem? (x ∷ xs ++ ys))
        (let e : suc (length xs) + i ≡ suc (length xs + i) = omega arith in e)
      ∙ get-append_right xs ys i

  get-take : (n i : ℕ) (xs : List A) → i < n → get_elem? (take n xs) i ≡ get_elem? xs i
  get-take zero i xs h = absurd (omega arith)
  get-take (suc n) i [] h = refl
  get-take (suc n) zero (x ∷ xs) h = refl
  get-take (suc n) (suc i) (x ∷ xs) h = get-take n i xs (omega arith)

  get-drop : (n i : ℕ) (xs : List A) → get_elem? (drop n xs) i ≡ get_elem? xs (n + i)
  get-drop zero i xs = ap (get_elem? xs) (omega arith)
  get-drop (suc n) i [] = refl
  get-drop (suc n) i (x ∷ xs) =
      get-drop n i xs ∙ ap (get_elem? (x ∷ xs)) (let e : suc (n + i) ≡ suc n + i = omega arith in e)

-- `memmove` brings each later client one slot down.
shift_down-get :
    (cs : List Client) (idx j n : ℕ)
    → n ≤ length cs
    → idx ≤ j
    → j + 1 < n
    → get_elem? (shift_down cs idx n) j ≡ get_elem? cs (j + 1)
unfolding shift_down
shift_down-get cs idx j n l a b =
    let t : length (take idx cs) ≡ idx = omega (arith, length-take idx cs) in
    let m = take (n - idx - 1) (drop (idx + 1) cs) in
    let lm : length m ≡ n - idx - 1 =
      omega (arith, length-take (n - idx - 1) (drop (idx + 1) cs), length-drop (idx + 1) cs) in
    rw (lt→ltb (idx + 1) n (omega arith)) (
      ap (get_elem? (take idx cs ++ (m ++ drop (n - 1) cs)))
        (let e : j ≡ length (take idx cs) + (j - idx) = omega arith in e)
      ∙ get-append_right (take idx cs) (m ++ drop (n - 1) cs) (j - idx)
      ∙ get-append_left m (drop (n - 1) cs) (j - idx) (omega arith)
      ∙ get-take (n - idx - 1) (j - idx) (drop (idx + 1) cs) (omega arith)
      ∙ get-drop (idx + 1) (j - idx) cs
      ∙ ap (get_elem? cs) (omega arith))

-- What the loop does with the answer of `read_client`.
abbrev pub then_hang_up :
    ℕ → Bool → Option (Daemon × List Action × Bool) → Option (Daemon × List Action)
then_hang_up word hung none = none
then_hang_up word hung (some r) = hang_up word hung r

handle_event_read :
    (d : Daemon) (e : Event) (c : Client)
    → e.word ≢ d.srv
    → e.readable ≡ true
    → get_elem? d.clients e.word ≡ some c
    → handle_event d e ≡ then_hang_up e.word e.hung_up (read_client d e.word c e.received)
unfolding handle_event
handle_event_read d e c n r g =
    let other : (e.word == d.srv) ≡ false = ==_ne e.word d.srv n in
    rw (other, r, g) (same (read_client d e.word c e.received))
  where
    same :
        (o : Option (Daemon × List Action × Bool))
        → (elim o [ none ↦ none | some r ↦ hang_up e.word e.hung_up r ])
          ≡ then_hang_up e.word e.hung_up o
    same none = refl
    same (some r) = refl

-- When a client goes, a client `c` behind it moves one slot down, but `epoll` still carries the index
-- under which `c` was registered: the next event that says that `c` sent something is handled as one of
-- `next`, the client that was behind `c` and now stands in that slot; when `c` was registered under its
-- index and has another descriptor than the client that goes, there is such a client `next`, and the
-- index is not the number of the listening socket.
pub remove_client_stale :
    (d : Daemon) (idx j : ℕ) (gone c next : Client) (e : Event)
    → d.num_clients ≤ length d.clients
    → idx ≤ j
    → j + 2 < d.num_clients
    → get_elem? d.clients idx ≡ some gone
    → get_elem? d.clients (j + 1) ≡ some c
    → get_elem? d.clients (j + 2) ≡ some next
    → c.fd ≢ gone.fd
    → word_of c.fd d.registered ≡ some (j + 1)
    → e.word ≡ j + 1
    → j + 1 ≢ d.srv
    → e.readable ≡ true
    → (remove_client d idx ≡ some (without d idx gone, close gone.fd ∷ []))
      × (get_elem? (without d idx gone).clients j ≡ some c)
      × (word_of c.fd (without d idx gone).registered ≡ some e.word)
      × (handle_event (without d idx gone) e
          ≡ then_hang_up e.word e.hung_up (read_client (without d idx gone) e.word next e.received))
unfolding remove_client
remove_client_stale d idx j gone c next e l a b eg ec en ne w is_old other readable =
    let two : j + 1 + 1 ≡ j + 2 = omega arith in
    let slot : get_elem? (without d idx gone).clients (j + 1) ≡ some next =
      shift_down-get d.clients idx (j + 1) d.num_clients l (omega arith) (omega arith)
      ∙ ap (get_elem? d.clients) two
      ∙ en in
    (
      rw (eg, remove_client) (rw (lt→ltb 0 d.num_clients (omega arith)) refl),
      shift_down-get d.clients idx j d.num_clients l a (omega arith) ∙ ec,
      word_of-unregister c.fd gone.fd d.registered ne ∙ w ∙ ap some (sym is_old),
      handle_event_read (without d idx gone) e next (λ q. other (sym is_old ∙ q)) readable
          (ap (get_elem? (without d idx gone).clients) is_old ∙ slot),
    )

srv-accept : (d : Daemon) (cfd : Option ℕ) → (accept_client d cfd).srv ≡ d.srv
unfolding accept_client
srv-accept d none = refl
srv-accept d (some cfd) = ground arith

registered-accept :
    (d : Daemon) (cfd : ℕ)
    → d.num_clients < max_clients
    → (accept_client d (some cfd)).registered ≡ d.registered ++ (cfd, d.num_clients) ∷ []
unfolding accept_client
registered-accept d cfd h = rw (lt→ltb d.num_clients max_clients h) refl

handle_event_srv :
    (d : Daemon) (e : Event)
    → e.word ≡ d.srv
    → handle_event d e ≡ some (accept_client d e.accepted, [])
unfolding handle_event
handle_event_srv d e h = let y : (e.word == d.srv) ≡ true = ground arith in rw y refl

-- The client that comes when as many clients are connected as the number of the listening socket is
-- registered under a word that the loop takes for that socket: its events are handled as calls of
-- `accept`, and nothing that it sends is read.
pub accept_client_collides :
    (d : Daemon) (cfd : ℕ) (e : Event)
    → d.num_clients ≡ d.srv
    → d.num_clients < max_clients
    → word_of cfd d.registered ≡ none
    → let d' = accept_client d (some cfd) in
      word_of cfd d'.registered ≡ some e.word
      → handle_event d' e ≡ some (accept_client d' e.accepted, [])
accept_client_collides d cfd e n l fresh w =
    let r : word_of cfd (accept_client d (some cfd)).registered ≡ some d.num_clients =
      ap (word_of cfd) (registered-accept d cfd l)
      ∙ word_of-snoc cfd d.num_clients d.registered fresh in
    handle_event_srv (accept_client d (some cfd)) e
      (let k : e.word ≡ d.num_clients = ground arith in k ∙ n ∙ sym (srv-accept d (some cfd)))
