-- ===== src/Busd/Bounds.antt =====
-- The bounds of the tables of services/bb-busd.c, and that every command keeps them.
use nxp_imx95_building_block.Common.{
  ℕ, zero, suc, ◌+◌, ◌≤◌, ◌<◌, min, ◌≡◌, refl, ap, inl, inr, false, none, List, [], ◌∷◌, ◌++◌,
  arith, ltb, ltb→lt, Bool-cases, Option-cases, length, take, length-append, length-take, All,
  Bytes, str_eq, str_eq→eq,
}
use nxp_imx95_building_block.Busd.{
  Sub, find_sub, modify, add_client, subscribe, unsubscribe, remove_first, remove_all, remove_subs,
  handle_line, handle_lines, max_clients, max_subs, topic_of,
}
use nxp_imx95_building_block.Busd.Ids.{
  count, count_nil, count-add_client, length-add_client, count-remove_first, length-remove_first,
  count-remove_all, length-remove_all,
}

-- An entry within its arrays that names each client once at most.
pub record IsEntry (s : Sub) : Type 0 where
  pub short : length s.topic ≤ 127
  pub fits : length s.client_ids ≤ max_clients
  pub single : (c : ℕ) → count c s.client_ids ≤ 1

-- A table within `subs`.
pub record IsTable (subs : List Sub) : Type 0 where
  pub few : length subs ≤ max_subs
  pub entries : All IsEntry subs

add_client-single : (c fd : ℕ) (ids : List ℕ) → count c ids ≤ 1 → count c (add_client fd ids) ≤ 1
add_client-single c fd ids h = ground (arith, count-add_client c fd ids)

remove_first-single :
    (c fd : ℕ) (ids : List ℕ) → count c ids ≤ 1 → count c (remove_first fd ids) ≤ 1
remove_first-single c fd ids h = ground (arith, count-remove_first c fd ids)

remove_all-single :
    (c fd : ℕ) (ids : List ℕ) → count c ids ≤ 1 → count c (remove_all (length ids) fd ids) ≤ 1
remove_all-single c fd ids h = ground (arith, count-remove_all (length ids) c fd ids)

-- A change of the descriptors that keeps an entry within its bounds.
abbrev Keeps : (List ℕ → List ℕ) → Type 0
Keeps g =
    (ids : List ℕ)
    → length ids ≤ max_clients
    → ((c : ℕ) → count c ids ≤ 1)
    → (length (g ids) ≤ max_clients) × ((c : ℕ) → count c (g ids) ≤ 1)

length-modify :
    (g : List ℕ → List ℕ) (subs : List Sub) (i : ℕ) → length (modify g subs i) ≡ length subs
unfolding modify
length-modify g [] i = refl
length-modify g (s ∷ ss) zero = refl
length-modify g (s ∷ ss) (suc i) = ap suc (length-modify g ss i)

modify-entries :
    (g : List ℕ → List ℕ) (subs : List Sub) (i : ℕ)
    → Keeps g
    → All IsEntry subs
    → All IsEntry (modify g subs i)
unfolding modify
modify-entries g [] i k h = h
modify-entries g (s ∷ ss) zero k h =
    let (a, b) = k s.client_ids h.0.fits h.0.single in
    (record { short = h.0.short; fits = a; single = b }, h.1)
modify-entries g (s ∷ ss) (suc i) k h = (h.0, modify-entries g ss i k h.1)

modify-IsTable :
    (g : List ℕ → List ℕ) (subs : List Sub) (i : ℕ)
    → Keeps g
    → IsTable subs
    → IsTable (modify g subs i)
modify-IsTable g subs i k v = record {
  few = omega (arith, length-modify g subs i, v.few);
  entries = modify-entries g subs i k v.entries;
}

All-snoc {ℓ κ} :
    {A : Type ℓ} (P : A → Type κ) (xs : List A) (a : A) → All P xs → P a → All P (xs ++ a ∷ [])
All-snoc P [] a h p = (p, tt)
All-snoc P (x ∷ xs) a h p = (h.0, All-snoc P xs a h.1 p)

add_client-Keeps : (fd : ℕ) → Keeps (add_client fd)
add_client-Keeps fd ids h k = (length-add_client fd ids h, λ c. add_client-single c fd ids (k c))

pub subscribe-IsTable :
    (subs : List Sub) (t : Bytes) (fd : ℕ) → IsTable subs → IsTable (subscribe subs t fd)
unfolding subscribe
subscribe-IsTable subs t fd v = elim (Option-cases (find_sub subs t)) [
  | inl e ↦ elim (Bool-cases (ltb (length subs) max_subs)) [
    | inl y ↦
        let (a, b) = add_client-Keeps fd [] (omega arith) (λ c. omega (arith, count_nil c)) in
        let s : Sub = record { topic = take 127 t; client_ids = add_client fd [] } in
        rw (e, subscribe)
          (rw (y, subscribe)
            (record {
              few = ground (arith, length-append subs (s ∷ []));
              entries =
                  All-snoc IsEntry subs s v.entries
                    (record { short = omega (arith, length-take 127 t); fits = a; single = b });
            }))
    | inr n ↦ rw (e, subscribe) (rw (n, subscribe) v)
  ]
  | inr (i, e) ↦ rw (e, subscribe) (modify-IsTable (add_client fd) subs i (add_client-Keeps fd) v)
]

pub unsubscribe-IsTable :
    (subs : List Sub) (t : Bytes) (fd : ℕ) → IsTable subs → IsTable (unsubscribe subs t fd)
unfolding unsubscribe
unsubscribe-IsTable subs t fd v = elim (Option-cases (find_sub subs t)) [
  | inl e ↦ rw (e, unsubscribe) v
  | inr (i, e) ↦
      rw (e, unsubscribe)
        (modify-IsTable (remove_first fd) subs i
          (λ ids h k.
            (omega (arith, length-remove_first fd ids), λ c. remove_first-single c fd ids (k c)))
          v)
]

-- Every line that a client sends leaves the table within its arrays: at most 256 entries, each with a
-- topic of at most 127 bytes and at most 64 descriptors, none of them twice.
pub handle_line-IsTable :
    (subs : List Sub) (fd : ℕ) (line : Bytes) → IsTable subs → IsTable (handle_line subs fd line).0
unfolding handle_line
handle_line-IsTable subs fd line v = ground (
  arith,
  subscribe-IsTable subs (topic_of 3 line).0 fd v,
  unsubscribe-IsTable subs (topic_of 5 line).0 fd v,
)

pub handle_lines-IsTable :
    (subs : List Sub) (fd : ℕ) (ls : List Bytes)
    → IsTable subs
    → IsTable (handle_lines subs fd ls).0
unfolding handle_lines
handle_lines-IsTable subs fd [] v = v
handle_lines-IsTable subs fd (l ∷ ls) v =
    handle_lines-IsTable (handle_line subs fd l).0 fd ls (handle_line-IsTable subs fd l v)

length-remove_subs : (fd : ℕ) (subs : List Sub) → length (remove_subs fd subs) ≡ length subs
unfolding remove_subs
length-remove_subs fd [] = refl
length-remove_subs fd (s ∷ ss) = ap suc (length-remove_subs fd ss)

remove_subs-entries :
    (fd : ℕ) (subs : List Sub) → All IsEntry subs → All IsEntry (remove_subs fd subs)
unfolding remove_subs
remove_subs-entries fd [] h = h
remove_subs-entries fd (s ∷ ss) h = (
  record {
    short = h.0.short;
    fits = omega (arith, h.0.fits, length-remove_all (length s.client_ids) fd s.client_ids);
    single = λ c. remove_all-single c fd s.client_ids (h.0.single c);
  },
  remove_subs-entries fd ss h.1,
)

pub remove_subs-IsTable : (fd : ℕ) (subs : List Sub) → IsTable subs → IsTable (remove_subs fd subs)
remove_subs-IsTable fd subs v = record {
  few = omega (arith, length-remove_subs fd subs, v.few);
  entries = remove_subs-entries fd subs v.entries;
}

str_eq_longer : (a b : Bytes) → length a < length b → str_eq a b ≡ false
str_eq_longer a b h = ground (arith, str_eq→eq a b)

find_sub_long :
    (subs : List Sub) (t : Bytes) → All IsEntry subs → 127 < length t → find_sub subs t ≡ none
unfolding find_sub
find_sub_long [] t h l = refl
find_sub_long (s ∷ ss) t h l =
    let e = str_eq_longer s.topic t (omega (arith, h.0.short)) in
    rw (e, find_sub_long ss t h.1 l) refl

-- SUB of a topic of 128 bytes or more takes a new entry each time, also when the same client repeats
-- it, until the table is full.
pub subscribe_long :
    (subs : List Sub) (t : Bytes) (fd : ℕ)
    → IsTable subs
    → 127 < length t
    → length (subscribe subs t fd) ≡ min max_subs (length subs + 1)
unfolding subscribe
subscribe_long subs t fd v h =
    let e = find_sub_long subs t v.entries h in
    let s : Sub = record { topic = take 127 t; client_ids = add_client fd [] } in
    elim (Bool-cases (ltb (length subs) max_subs)) [
      | inl y ↦
          let l = ltb→lt (length subs) max_subs y in
          rw (e, subscribe) (rw (y, subscribe) (omega (arith, length-append subs (s ∷ []))))
      | inr n ↦
          let g : max_subs ≤ length subs = ground arith in
          rw (e, subscribe) (rw (n, subscribe) (omega (arith, v.few)))
    ]
