-- ===== src/Framing.antt =====
-- The line loop that services/bb-busd.c (in `main`) and libbb/bb_bus.c (in `bb_bus_poll`) run over a
-- receive buffer: `while ((nl = strchr(start, '\n')) != NULL)`.
use nxp_imx95_building_block.Common.{
  ℕ, suc, ◌≤◌, ◌≡◌, refl, ap, ap₂, ◌∙◌, ◌≢◌, inl, inr, Bool, true, false, not, ◌&&◌, List, [], ◌∷◌,
  ◌++◌, arith, ◌==◌, if◌then◌else◌, ==_ne, Bool-cases, length, All, Bytes, all,
}

-- A byte before the first line end, put in front of what the rest of the buffer gives.
unfoldable pub push_byte : ℕ → List Bytes × Bytes → List Bytes × Bytes
push_byte c ([], rest) = ([], c ∷ rest)
push_byte c (l ∷ ls, rest) = ((c ∷ l) ∷ ls, rest)

-- The lines that the loop takes from the front of the buffer, and what it leaves. `strchr` stops at
-- a NUL that was received, so nothing behind one is a line.
unfoldable pub lines : Bytes → List Bytes × Bytes
unfolding push_byte
lines [] = ([], [])
lines (c ∷ s) =
    let more = lines s in
    if c == 0 then ([], c ∷ s) else if c == 10 then ([] ∷ more.0, more.1) else push_byte c more

-- What a second chunk adds to what a first one gave.
abbrev pub then_lines : List Bytes × Bytes → Bytes → List Bytes × Bytes
then_lines a b = (a.0 ++ (lines (a.1 ++ b)).0, (lines (a.1 ++ b)).1)

then_lines-push :
    (c : ℕ) (x : List Bytes × Bytes) (b : Bytes)
    → c ≢ 0
    → c ≢ 10
    → push_byte c (then_lines x b) ≡ then_lines (push_byte c x) b
unfolding lines
then_lines-push c ([], rest) b h k = rw (==_ne c 0 h, ==_ne c 10 k) refl
then_lines-push c (l ∷ ls, rest) b h k = refl

-- Splitting is incremental: the lines of two chunks are those of the first, followed by those of
-- what the first left with the second behind it; and what is left is what the latter leaves.
pub lines-append : (a b : Bytes) → lines (a ++ b) ≡ then_lines (lines a) b
unfolding lines
lines-append [] b = refl
lines-append (c ∷ a) b = elim (Bool-cases (c == 0)) [
  | inl z ↦ rw z (rw z refl)
  | inr nz ↦ elim (Bool-cases (c == 10)) [
    | inl e ↦ rw (nz, e) (rw (lines-append a b) refl)
    | inr ne ↦
        rw (nz, ne)
          (ap (push_byte c) (lines-append a b)
            ∙ then_lines-push c (lines a) b (λ h. ground (arith, nz)) (λ h. ground (arith, ne)))
  ]
]

-- The bytes of lines, each with its line end.
unfoldable pub join_lines : List Bytes → Bytes
join_lines [] = []
join_lines (l ∷ ls) = l ++ 10 ∷ join_lines ls

-- A byte that a line may hold.
abbrev pub is_text : ℕ → Bool
is_text c = not (c == 0) && not (c == 10)

lines_one :
    (l s : Bytes) → all is_text l ≡ true → lines (l ++ 10 ∷ s) ≡ (l ∷ (lines s).0, (lines s).1)
unfolding lines all
lines_one [] s h = refl
lines_one (c ∷ l) s h =
    let e : all is_text l ≡ true = ground arith in
    let z : (c == 0) ≡ false = ground arith in
    let n : (c == 10) ≡ false = ground arith in rw (z, n) (rw (lines_one l s e) refl)

-- Lines that hold neither a line end nor a NUL are read back as they were sent, and nothing is left.
pub lines-join :
    (ls : List Bytes) → All (λ l. all is_text l ≡ true) ls → lines (join_lines ls) ≡ (ls, [])
unfolding lines join_lines
lines-join [] h = refl
lines-join (l ∷ ls) h = rw (lines_one l (join_lines ls) h.0, lines-join ls h.1) refl

-- Nothing is lost: the lines with their ends, and what is left, are the buffer.
pub join-lines : (s : Bytes) → join_lines (lines s).0 ++ (lines s).1 ≡ s
unfolding lines join_lines
join-lines [] = refl
join-lines (c ∷ s) = elim (Bool-cases (c == 0)) [
  | inl z ↦ rw z refl
  | inr nz ↦ elim (Bool-cases (c == 10)) [
    | inl e ↦ rw (nz, e) (ap₂ ◌∷◌ (ground (arith, e)) (join-lines s))
    | inr ne ↦ rw (nz, ne) (pushed c (lines s) ∙ ap (◌∷◌ c) (join-lines s))
  ]
]
  where
    pushed :
        (c : ℕ) (x : List Bytes × Bytes)
        → join_lines (push_byte c x).0 ++ (push_byte c x).1 ≡ c ∷ (join_lines x.0 ++ x.1)
    pushed c ([], rest) = refl
    pushed c (l ∷ ls, rest) = refl

length-push_byte : (c : ℕ) (x : List Bytes × Bytes) → length (push_byte c x).1 ≤ suc (length x.1)
unfolding push_byte
length-push_byte c ([], rest) = omega arith
length-push_byte c (l ∷ ls, rest) = omega arith

pub length-rest : (s : Bytes) → length (lines s).1 ≤ length s
unfolding lines
length-rest [] = omega arith
length-rest (c ∷ s) = ground (arith, length-rest s, length-push_byte c (lines s))

-- What is left holds no whole line.
pub lines-rest : (s : Bytes) → lines (lines s).1 ≡ ([], (lines s).1)
unfolding lines
lines-rest [] = refl
lines-rest (c ∷ s) = elim (Bool-cases (c == 0)) [
  | inl z ↦ rw z (rw z refl)
  | inr nz ↦ elim (Bool-cases (c == 10)) [
    | inl e ↦ rw (nz, e) (lines-rest s)
    | inr ne ↦ rw (nz, ne) (pushed (lines s) nz ne (lines-rest s))
  ]
]
  where
    pushed :
        (x : List Bytes × Bytes)
        → (c == 0) ≡ false
        → (c == 10) ≡ false
        → lines x.1 ≡ ([], x.1)
        → lines (push_byte c x).1 ≡ ([], (push_byte c x).1)
    pushed ([], rest) a b h = rw (a, b) (rw h refl)
    pushed (l ∷ ls, rest) a b h = h
