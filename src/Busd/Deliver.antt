-- ===== src/Busd/Deliver.antt =====
-- PUB of services/bb-busd.c: who receives a message, how often, and what it says.
use nxp_imx95_building_block.Common.{
  ℕ, zero, suc, ◌+◌, ◌-◌, ◌<◌, ◌≡◌, refl, sym, ap, ap₂, ◌∙◌, ◌↔◌, inl, inr, true, ◌||◌, List, [],
  ◌∷◌, ◌++◌, arith, leb, ◌==◌, if◌then◌else◌, Bool-cases, length, take, drop, replicate,
  length-append, take-append_length, Bytes, str_eq, starts_with, str_eq_refl, str_eq→eq,
  starts_with-append,
}
use nxp_imx95_building_block.Busd.{
  Sub, Action, send, close, topic_match, last_byte, pub_line, send_each, send_all, publish,
  buf_size,
}
use nxp_imx95_building_block.Busd.Ids.{count}

-- The messages that the actions send to `c`, in order.
unfoldable pub sent_to : ℕ → List Action → List Bytes
sent_to c [] = []
sent_to c (send d m ∷ xs) = if d == c then m ∷ sent_to c xs else sent_to c xs
sent_to c (close d ∷ xs) = sent_to c xs

-- How often `c` subscribes to entries that match the topic.
unfoldable pub matches : ℕ → Bytes → List Sub → ℕ
matches c t [] = 0
matches c t (s ∷ ss) = (if topic_match s.topic t then count c s.client_ids else 0) + matches c t ss

sent_to-append : (c : ℕ) (xs ys : List Action) → sent_to c (xs ++ ys) ≡ sent_to c xs ++ sent_to c ys
unfolding sent_to
sent_to-append c [] ys = refl
sent_to-append c (send d m ∷ xs) ys = ground (arith, sent_to-append c xs ys)
sent_to-append c (close d ∷ xs) ys = sent_to-append c xs ys

replicate-add {ℓ} :
    {A : Type ℓ} (m n : ℕ) (a : A) → replicate (m + n) a ≡ replicate m a ++ replicate n a
replicate-add zero n a = ap (λ k. replicate k a) (omega arith)
replicate-add (suc m) n a =
    ap (λ k. replicate k a) (let e : suc m + n ≡ suc (m + n) = omega arith in e)
    ∙ ap (◌∷◌ a) (replicate-add m n a)

sent_to-each :
    (c : ℕ) (msg : Bytes) (sender : ℕ) (ids : List ℕ)
    → sent_to c (send_each msg sender ids)
      ≡ (if c == sender then [] else replicate (count c ids) msg)
unfolding sent_to send_each count
sent_to-each c msg sender [] = ground arith
sent_to-each c msg sender (x ∷ xs) = ground (
  arith,
  sent_to-each c msg sender xs,
  replicate-add 1 (count c xs) msg,
  replicate-add 0 (count c xs) msg,
)

sent_to-all :
    (c : ℕ) (subs : List Sub) (t msg : Bytes) (sender : ℕ)
    → sent_to c (send_all subs t msg sender)
      ≡ (if c == sender then [] else replicate (matches c t subs) msg)
unfolding sent_to send_all matches
sent_to-all c [] t msg sender = ground arith
sent_to-all c (s ∷ ss) t msg sender = ground (
  arith,
  sent_to-all c ss t msg sender,
  sent_to-append c (send_each msg sender s.client_ids) (send_all ss t msg sender),
  sent_to-each c msg sender s.client_ids,
  replicate-add (count c s.client_ids) (matches c t ss) msg,
  replicate-add 0 (matches c t ss) msg,
)

-- A message whose line fits in the daemon's buffer goes to each client but its sender, once for
-- each subscription of the client that matches the topic, as the line "PUB topic payload"; a longer
-- one goes to nobody.
pub publish_lem :
    (c : ℕ) (subs : List Sub) (t p : Bytes) (sender : ℕ)
    → sent_to c (publish subs t p sender) ≡ (
        if leb buf_size (length (pub_line t p)) || (c == sender)
        then []
        else replicate (matches c t subs) (pub_line t p))
unfolding publish sent_to
publish_lem c subs t p sender = ground (arith, sent_to-all c subs t (pub_line t p) sender)

-- A pattern stands for a topic that it equals, or that begins with what it has before a final '#'.
pub data Matches (pat topic : Bytes) : Type 0 where
  exact : pat ≡ topic → Matches pat topic
  wild : (pre rest : Bytes) → pat ≡ pre ++ (b'#' ∷ []) → topic ≡ pre ++ rest → Matches pat topic

starts_with→append : (p s : Bytes) → starts_with p s ≡ true → s ≡ p ++ drop (length p) s
unfolding starts_with
starts_with→append [] s h = refl
starts_with→append (x ∷ p) [] h = cc
starts_with→append (x ∷ p) (y ∷ s) h =
    let e : x ≡ y = ground arith in ap₂ ◌∷◌ (sym e) (starts_with→append p s (ground arith))

take-last : (p : Bytes) → 0 < length p → p ≡ take (length p - 1) p ++ last_byte p ∷ []
take-last [] h = absurd (omega arith)
take-last (x ∷ []) h = refl
take-last (x ∷ y ∷ p) h =
    let e : suc (suc (length p)) - 1 ≡ suc (length p) = omega arith in
    let e' : suc (length p) - 1 ≡ length p = omega arith in
    rw e (ap (◌∷◌ x) (take-last (y ∷ p) (omega arith) ∙ (rw e' refl)))

last_byte-snoc : (p : Bytes) (c : ℕ) → last_byte (p ++ c ∷ []) ≡ c
last_byte-snoc [] c = refl
last_byte-snoc (x ∷ []) c = refl
last_byte-snoc (x ∷ y ∷ p) c = last_byte-snoc (y ∷ p) c

take-snoc : (p : Bytes) (c : ℕ) → take (length (p ++ c ∷ []) - 1) (p ++ c ∷ []) ≡ p
take-snoc p c =
    ap (λ n. take n (p ++ c ∷ [])) (omega (arith, length-append p (c ∷ [])))
    ∙ take-append_length p (c ∷ [])

wild_match : (pre rest : Bytes) → topic_match (pre ++ b'#' ∷ []) (pre ++ rest) ≡ true
unfolding topic_match
wild_match pre rest = ground (
  arith,
  last_byte-snoc pre b'#',
  take-snoc pre b'#',
  starts_with-append pre rest,
  length-append pre (b'#' ∷ []),
)

-- `topic_match` answers 1 exactly when the pattern is the topic, or a prefix of it followed by '#'.
pub topic_match_iff : (pat topic : Bytes) → (topic_match pat topic ≡ true) ↔ Matches pat topic
unfolding topic_match
topic_match_iff pat topic = (sound, complete)
  where
    sound : topic_match pat topic ≡ true → Matches pat topic
    sound h = elim (Bool-cases (str_eq pat topic)) [
      | inl y ↦ exact (str_eq→eq pat topic y)
      | inr n ↦
          let p : 0 < length pat = ground arith in
          let l : last_byte pat ≡ b'#' = ground arith in
          let q : starts_with (take (length pat - 1) pat) topic ≡ true = ground arith in
          wild (take (length pat - 1) pat) (drop (length (take (length pat - 1) pat)) topic)
            (take-last pat p ∙ ap (λ c. take (length pat - 1) pat ++ c ∷ []) l)
            (starts_with→append (take (length pat - 1) pat) topic q)
    ]

    complete : Matches pat topic → topic_match pat topic ≡ true
    complete (exact e) = ground (arith, str_eq_refl topic)
    complete (wild pre rest e f) = ap₂ topic_match e f ∙ wild_match pre rest
