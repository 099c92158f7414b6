-- ===== src/Web/Server/Loop.antt =====
-- services/bb-webd.c: what one event does to the clients.
use nxp_imx95_building_block.Web.Form.{Answer}
use nxp_imx95_building_block.Web.Request.{Site, length_field, handle_request}
use nxp_imx95_building_block.Web.Server.{
  WebClient, Server, max_web_clients, web_buf_size, shift_clients, moved, remove_web_client, waits,
  Progress, removed, answered, head_read, received,
}
use nxp_imx95_building_block.Common.{
  ℕ, ◌+◌, ◌-◌, ◌≤◌, ◌<◌, ◌≡◌, refl, sym, ap, subst, ◌∙◌, inl, inr, Bool, true, false, Option, none,
  some, List, [], ◌∷◌, ◌++◌, arith, ltb, leb, if◌then◌else◌, ltb→lt, Bool-cases, length, set, take,
  drop, length-append, length-set, length-take, length-drop, All, All-append, length-take_le,
  All-take, All-drop, All-set, Bytes, pos, ◌-ℤ◌,
}

-- A buffer keeps a byte for its NUL.
abbrev pub IsWebBuffer : WebClient → Type 0
IsWebBuffer c = length c.buf < web_buf_size

-- Between two events: the array has its 64 slots, between 0 and 64 of them are in use, and no buffer is
-- over its end.
pub record IsServer (s : Server) : Type 0 where
  pub slots : length s.clients ≡ max_web_clients
  pub used : (n : ℕ) × (s.num_clients ≡ pos n) × (n ≤ max_web_clients)
  pub buffers : All IsWebBuffer s.clients

shift_clients-length :
    (idx n : ℕ) (cs : List WebClient)
    → idx + 1 < n
    → n ≤ length cs
    → length (shift_clients idx n cs) ≡ length cs
unfolding shift_clients
shift_clients-length idx n cs h k =
    let middle = take (n - idx - 1) (drop (idx + 1) cs) in
    omega (
      arith,
      length-append (take idx cs) (middle ++ drop (n - 1) cs),
      length-append middle (drop (n - 1) cs),
      length-take idx cs,
      length-take (n - idx - 1) (drop (idx + 1) cs),
      length-drop (idx + 1) cs,
      length-drop (n - 1) cs,
    )

shift_clients-buffers :
    (idx n : ℕ) (cs : List WebClient)
    → All IsWebBuffer cs
    → All IsWebBuffer (shift_clients idx n cs)
unfolding shift_clients
shift_clients-buffers idx n cs h =
    All-append IsWebBuffer (take idx cs) _ (All-take IsWebBuffer idx cs h) (
      All-append IsWebBuffer (take (n - idx - 1) (drop (idx + 1) cs)) _
        (All-take IsWebBuffer (n - idx - 1) (drop (idx + 1) cs)
          (All-drop IsWebBuffer (idx + 1) cs h))
        (All-drop IsWebBuffer (n - 1) cs h))

moved-length :
    (n idx : ℕ) (cs : List WebClient) → n ≤ length cs → length (moved (pos n) idx cs) ≡ length cs
moved-length n idx cs h = elim (Bool-cases (ltb (idx + 1) n)) [
  | inl e ↦ rw e (shift_clients-length idx n cs (ltb→lt (idx + 1) n e) h)
  | inr e ↦ rw e refl
]

moved-buffers :
    (n idx : ℕ) (cs : List WebClient) → All IsWebBuffer cs → All IsWebBuffer (moved (pos n) idx cs)
moved-buffers n idx cs h = elim (Bool-cases (ltb (idx + 1) n)) [
  | inl e ↦ rw e (shift_clients-buffers idx n cs h)
  | inr e ↦ rw e h
]

minus_one : (n : ℕ) → 0 < n → pos n -ℤ pos 1 ≡ pos (n - 1)
unfolding ◌-ℤ◌
minus_one n h =
    let e : leb 1 n ≡ true = ground (arith, h) in let z : n + 0 ≡ n = omega arith in rw (z, e) refl

pub remove-IsServer :
    (idx : ℕ) (c : WebClient) (s : Server) (n : ℕ)
    → IsServer s
    → s.num_clients ≡ pos n
    → 0 < n
    → IsServer (remove_web_client idx c s).0
unfolding remove_web_client
remove-IsServer idx c s n h e p =
    let (m, em, bm) = h.used in
    let small : n ≤ max_web_clients = omega (arith, bm, pos_injective n m (sym e ∙ em)) in
    record {
      slots =
          ap (λ k. length (moved k idx s.clients)) e
          ∙ moved-length n idx s.clients (omega (arith, small, h.slots))
          ∙ h.slots;
      used = (n - 1, ap (λ k. k -ℤ pos 1) e ∙ minus_one n p, omega (arith, small));
      buffers =
          subst (λ k. All IsWebBuffer (moved k idx s.clients)) (sym e)
            (moved-buffers n idx s.clients h.buffers);
    }
  where
    pos_injective : (a b : ℕ) → pos a ≡ pos b → a ≡ b
    pos_injective a b q = cc

-- A step that ends has kept the invariant; one that does not has a reason.
abbrev pub Kept {ℓ} : {A : Type ℓ} → Type 0 → (A → Server) → Option A → Type 0
Kept reason state none = reason
Kept reason state (some a) = IsServer (state a)

pub stored-IsServer :
    (idx : ℕ) (d : WebClient) (s : Server)
    → IsServer s
    → IsWebBuffer d
    → IsServer (record s { clients = set s.clients idx d })
stored-IsServer idx d s h k = record {
  slots = length-set s.clients idx d ∙ h.slots;
  used = h.used;
  buffers = All-set IsWebBuffer s.clients idx d h.buffers k;
}

pub received-IsWebBuffer :
    (idx : ℕ) (c : WebClient) (arrived : Bytes) (d : WebClient)
    → IsWebBuffer c
    → received idx c arrived ≡ some d
    → IsWebBuffer d
unfolding received
received-IsWebBuffer idx c arrived d h e =
    go (take (web_buf_size - length c.buf - 1) arrived)
      (length-take_le (web_buf_size - length c.buf - 1) arrived) e
  where
    go :
        (got : Bytes)
        → length got ≤ web_buf_size - length c.buf - 1
        → (elim got [ [] ↦ none | x ∷ xs ↦ some (record c { buf = c.buf ++ x ∷ xs }) ]) ≡ some d
        → IsWebBuffer d
    go [] l q = cc
    go (x ∷ xs) l q =
        let same : record c { buf = c.buf ++ x ∷ xs } ≡ d = cc in
        subst IsWebBuffer same (omega (arith, h, l, length-append c.buf (x ∷ xs)))

module _ (site : Site) (idx : ℕ) (s : Server) (n : ℕ) (h : IsServer s) (e : s.num_clients ≡ pos n)
    (p : 0 < n) where
  answered-Kept :
      (reason : Type 0) (d : WebClient) (o : Option Answer)
      → (o ≡ none → reason)
      → Kept {A = Progress} reason (λ r. r.0) (answered idx d s o)
  answered-Kept reason d none why = why refl
  answered-Kept reason d (some a) why = remove-IsServer idx d s n h e p

  pub head-Kept :
      (reason : Type 0) (d : WebClient) (o : Option Bytes)
      → ((body : Bytes)
          → o ≡ some body
          → waits (length_field d.buf) body ≡ false
          → handle_request site d.buf ≡ none
          → reason)
      → Kept {A = Progress} reason (λ r. r.0) (head_read site idx d s o)
  unfolding head_read
  head-Kept reason d none why = go (ltb 8192 (length d.buf))
    where
      go : (b : Bool) → IsServer (if b then removed idx d s [] false else (s, [], false)).0
      go true = remove-IsServer idx d s n h e p
      go false = h
  head-Kept reason d (some body) why = elim (Bool-cases (waits (length_field d.buf) body)) [
    | inl w ↦ rw w h
    | inr w ↦ rw w (answered-Kept reason d (handle_request site d.buf) (λ q. why body refl w q))
  ]
