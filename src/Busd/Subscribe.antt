-- ===== src/Busd/Subscribe.antt =====
-- SUB and UNSUB of services/bb-busd.c: what they change in the table of subscriptions.
use nxp_imx95_building_block.Common.{
  ℕ, zero, suc, ◌-◌, ◌≤◌, ◌≡◌, refl, ap, ◌∙◌, inl, inr, Bool, not, ◌&&◌, Option, none, some, List,
  [], ◌∷◌, ◌++◌, arith, ltb, ◌==◌, if◌then◌else◌, Bool-cases, Option-cases, length, take, take_all,
  Bytes, str_eq, str_eq_refl, str_eq→eq,
}
use nxp_imx95_building_block.Busd.{
  Sub, find_sub, modify, contains, add_client, subscribe, unsubscribe, remove_first, max_clients,
  max_subs,
}
use nxp_imx95_building_block.Busd.Ids.{
  count, count-add_client, count-remove_first, count_nil, contains-count,
}

-- The subscribers that `find_sub` leads to for a topic.
unfoldable pub ids_of : List Sub → Bytes → List ℕ
ids_of [] t = []
ids_of (s ∷ ss) t = if str_eq s.topic t then s.client_ids else ids_of ss t

-- Whether SUB has a place for one more subscriber of the topic.
abbrev pub has_room : List Sub → Bytes → Bool
has_room subs t = elim (find_sub subs t) [
  | none ↦ ltb (length subs) max_subs
  | some i ↦ ltb (length (ids_of subs t)) max_clients
]

-- What `find_sub` finds behind the first entry.
abbrev shifted : Option ℕ → Option ℕ
shifted none = none
shifted (some i) = some (suc i)

find_sub-cons :
    (s : Sub) (ss : List Sub) (t : Bytes)
    → find_sub (s ∷ ss) t ≡ (if str_eq s.topic t then some 0 else shifted (find_sub ss t))
unfolding find_sub
find_sub-cons s ss t = ground arith

ids_of-none : (subs : List Sub) (t : Bytes) → find_sub subs t ≡ none → ids_of subs t ≡ []
unfolding ids_of
ids_of-none [] t h = refl
ids_of-none (s ∷ ss) t h = ground (arith, find_sub-cons s ss t, ids_of-none ss t)

ids_of-snoc :
    (subs : List Sub) (t t' : Bytes) (ids : List ℕ)
    → find_sub subs t ≡ none
    → ids_of (subs ++ record { topic = t; client_ids = ids } ∷ []) t'
      ≡ (if str_eq t t' then ids else ids_of subs t')
unfolding ids_of
ids_of-snoc [] t t' ids h = refl
ids_of-snoc (s ∷ ss) t t' ids h = ground (
  arith,
  find_sub-cons s ss t,
  str_eq→eq s.topic t',
  str_eq→eq t t',
  str_eq_refl t,
  ids_of-snoc ss t t' ids,
)

ids_of-modify :
    (g : List ℕ → List ℕ) (subs : List Sub) (t t' : Bytes) (i : ℕ)
    → find_sub subs t ≡ some i
    → ids_of (modify g subs i) t' ≡ (if str_eq t t' then g (ids_of subs t) else ids_of subs t')
unfolding find_sub ids_of modify
ids_of-modify g [] t t' i h = cc
ids_of-modify g (s ∷ ss) t t' zero h = ground (arith, find_sub-cons s ss t, str_eq→eq s.topic t)
ids_of-modify g (s ∷ ss) t t' (suc i) h = ground (
  arith,
  find_sub-cons s ss t,
  str_eq→eq s.topic t',
  str_eq→eq t t',
  str_eq_refl t,
  ids_of-modify g ss t t' i,
)

subscribe-found :
    (subs : List Sub) (t : Bytes) (fd i : ℕ)
    → find_sub subs t ≡ some i
    → subscribe subs t fd ≡ modify (add_client fd) subs i
unfolding subscribe
subscribe-found subs t fd i e = rw (e, subscribe) refl

subscribe-absent :
    (subs : List Sub) (t : Bytes) (fd : ℕ)
    → find_sub subs t ≡ none
    → subscribe subs t fd ≡ (
        if ltb (length subs) max_subs
        then subs ++ record { topic = take 127 t; client_ids = add_client fd [] } ∷ []
        else subs)
unfolding subscribe
subscribe-absent subs t fd e = rw (e, subscribe) refl

ids_of-subscribe_found :
    (subs : List Sub) (t t' : Bytes) (fd i : ℕ)
    → find_sub subs t ≡ some i
    → ids_of (subscribe subs t fd) t'
      ≡ (if str_eq t t' then add_client fd (ids_of subs t) else ids_of subs t')
ids_of-subscribe_found subs t t' fd i e =
    ap (λ l. ids_of l t') (subscribe-found subs t fd i e)
    ∙ ids_of-modify (add_client fd) subs t t' i e

ids_of-subscribe_absent :
    (subs : List Sub) (t t' : Bytes) (fd : ℕ)
    → find_sub subs t ≡ none
    → length t ≤ 127
    → ids_of (subscribe subs t fd) t'
      ≡ (if ltb (length subs) max_subs && str_eq t t' then add_client fd [] else ids_of subs t')
ids_of-subscribe_absent subs t t' fd e h = elim (Bool-cases (ltb (length subs) max_subs)) [
  | inl y ↦
      rw (subscribe-absent subs t fd e, y, take_all 127 t h)
        (ids_of-snoc subs t t' (add_client fd []) e)
  | inr n ↦ rw (subscribe-absent subs t fd e, n) refl
]

-- SUB of a topic of at most 127 bytes makes the client a subscriber of that topic, once, if it was
-- none before and there is room; every other client, and every other topic, keeps its subscriptions.
pub subscribe_lem :
    (subs : List Sub) (t t' : Bytes) (fd c : ℕ)
    → length t ≤ 127
    → count c (ids_of (subscribe subs t fd) t') ≡ (
        if (str_eq t t' && (c == fd)) && (not (contains fd (ids_of subs t)) && has_room subs t)
        then 1
        else count c (ids_of subs t'))
subscribe_lem subs t t' fd c h = elim (Option-cases (find_sub subs t)) [
  | inl e ↦ ground (
    arith,
    ids_of-subscribe_absent subs t t' fd e h,
    ids_of-none subs t e,
    str_eq→eq t t',
    count-add_client c fd [],
    contains-count c [],
  )
  | inr (i, e) ↦ ground (
    arith,
    ids_of-subscribe_found subs t t' fd i e,
    str_eq→eq t t',
    count-add_client c fd (ids_of subs t),
  )
]

-- UNSUB removes one subscription of the client to the topic, if there is one; every other client, and
-- every other topic, keeps its subscriptions.
pub unsubscribe_lem :
    (subs : List Sub) (t t' : Bytes) (fd c : ℕ)
    → count c (ids_of (unsubscribe subs t fd) t') ≡ (
        if str_eq t t' && (c == fd) then count c (ids_of subs t') - 1 else count c (ids_of subs t'))
unfolding unsubscribe
unsubscribe_lem subs t t' fd c = elim (Option-cases (find_sub subs t)) [
  | inl e ↦ ground (arith, e, ids_of-none subs t e, str_eq→eq t t', count_nil c)
  | inr (i, e) ↦ ground (
    arith,
    e,
    ids_of-modify (remove_first fd) subs t t' i e,
    str_eq→eq t t',
    count-remove_first c fd (ids_of subs t),
  )
]
