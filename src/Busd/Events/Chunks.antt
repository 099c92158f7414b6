-- ===== src/Busd/Events/Chunks.antt =====
-- The reads of services/bb-busd.c: how a client's bytes are cut into chunks does not matter.
use nxp_imx95_building_block.Common.{
  ℕ, zero, suc, ◌+◌, ◌-◌, ◌<◌, ◌≡◌, refl, sym, ap, ap₂, ◌∙◌, ◌≢◌, false, some, List, [], ◌∷◌, ◌++◌,
  append_assoc, arith, length, get_elem?, set, length-append, get_elem?-set_self, lt_of_get_elem?,
  take_all, Bytes,
}
use nxp_imx95_building_block.Framing.{lines, lines-append, then_lines, length-rest}
use nxp_imx95_building_block.Busd.{Client, Sub, Action, handle_line, handle_lines, buf_size}
use nxp_imx95_building_block.Busd.Events.{Daemon, take_chunk, read_client}

-- What a second batch of lines adds.
abbrev pub then_handle : List Sub × List Action → ℕ → List Bytes → List Sub × List Action
then_handle a fd ls = ((handle_lines a.0 fd ls).0, a.1 ++ (handle_lines a.0 fd ls).1)

pub handle_lines-append :
    (subs : List Sub) (fd : ℕ) (ls ms : List Bytes)
    → handle_lines subs fd (ls ++ ms) ≡ then_handle (handle_lines subs fd ls) fd ms
unfolding handle_lines
handle_lines-append subs fd [] ms = refl
handle_lines-append subs fd (l ∷ ls) ms =
    let ih = handle_lines-append (handle_line subs fd l).0 fd ls ms in
    rw ih (
      ap₂ (λ (a : List Sub) (b : List Action). (a, b)) refl
        (sym (
          append_assoc (handle_line subs fd l).1 (handle_lines (handle_line subs fd l).0 fd ls).1
            (handle_lines (handle_lines (handle_line subs fd l).0 fd ls).0 fd ms).1)))

-- What one read of `chunk` on client `idx` leaves, and the actions.
abbrev pub fed : Daemon → ℕ → Client → Bytes → Daemon × List Action
fed d idx c chunk =
    let split = lines (c.buf ++ chunk) in
    let done = handle_lines d.subs c.fd split.0 in
    (record d { clients = set d.clients idx (record c { buf = split.1 }); subs = done.0 }, done.1)

take_chunk_fits :
    (c : Client) (chunk : Bytes)
    → chunk ≢ []
    → length c.buf + length chunk < buf_size
    → take_chunk c (some chunk) ≡ some chunk
unfolding take_chunk
take_chunk_fits c [] ne h = absurd (ne refl)
take_chunk_fits c (x ∷ xs) ne h =
    rw (take_all (buf_size - length c.buf - 1) (x ∷ xs) (omega arith), take_chunk) refl

pub read_client_fits :
    (d : Daemon) (idx : ℕ) (c : Client) (chunk : Bytes)
    → chunk ≢ []
    → length c.buf + length chunk < buf_size
    → read_client d idx c (some chunk) ≡ some ((fed d idx c chunk).0, (fed d idx c chunk).1, false)
unfolding read_client
read_client_fits d idx c chunk ne h = rw (take_chunk_fits c chunk ne h, read_client) refl

set-set {ℓ} : {A : Type ℓ} (xs : List A) (i : ℕ) (a b : A) → set (set xs i a) i b ≡ set xs i b
set-set [] i a b = refl
set-set (x ∷ xs) zero a b = refl
set-set (x ∷ xs) (suc i) a b = ap (◌∷◌ x) (set-set xs i a b)

-- The buffer that a read leaves.
abbrev pub left_by : Client → Bytes → Client
left_by c chunk = record c { buf = (lines (c.buf ++ chunk)).1 }

fed-append :
    (d : Daemon) (idx : ℕ) (c : Client) (a b : Bytes)
    → fed d idx c (a ++ b) ≡ (
      (fed (fed d idx c a).0 idx (left_by c a) b).0,
      (fed d idx c a).1 ++ (fed (fed d idx c a).0 idx (left_by c a) b).1,
    )
fed-append d idx c a b =
    let e : lines (c.buf ++ (a ++ b)) ≡ then_lines (lines (c.buf ++ a)) b =
      ap lines (sym (append_assoc c.buf a b)) ∙ lines-append (c.buf ++ a) b in
    let s = lines (c.buf ++ a) in
    let m = lines (s.1 ++ b) in
    rw
      (
        e,
        handle_lines-append d.subs c.fd s.0 m.0,
        set-set d.clients idx (record c { buf = s.1 }) (record c { buf = m.1 }),
      )
      refl

append-ne {ℓ} : {A : Type ℓ} (xs ys : List A) → xs ≢ [] → xs ++ ys ≢ []
append-ne [] ys h = absurd (h refl)
append-ne (x ∷ xs) ys h = λ e. cc

-- Two reads that fit the buffer together do what one read of both chunks does: they succeed, with the
-- same tables and bytes left at the end, and the actions of the first before those of the second.
pub read_client_chunks :
    (d : Daemon) (idx : ℕ) (c : Client) (a b : Bytes)
    → a ≢ []
    → b ≢ []
    → length c.buf + (length a + length b) < buf_size
    → get_elem? d.clients idx ≡ some c
    → let one = fed d idx c a in
      let c' = left_by c a in
      let two = fed one.0 idx c' b in
      (read_client d idx c (some a) ≡ some (one.0, one.1, false))
      × (get_elem? one.0.clients idx ≡ some c')
      × (read_client one.0 idx c' (some b) ≡ some (two.0, two.1, false))
      × (read_client d idx c (some (a ++ b)) ≡ some (two.0, one.1 ++ two.1, false))
read_client_chunks d idx c a b na nb h g =
    let one = fed d idx c a in
    let c' = left_by c a in
    (
      read_client_fits d idx c a na (omega arith),
      get_elem?-set_self d.clients idx c' (lt_of_get_elem? d.clients idx c g),
      read_client_fits one.0 idx c' b nb
          (omega (arith, length-rest (c.buf ++ a), length-append c.buf a)),
      read_client_fits d idx c (a ++ b) (append-ne a b na) (omega (arith, length-append a b))
          ∙ ap (λ (x : Daemon × List Action). some (x.0, x.1, false)) (fed-append d idx c a b),
    )
