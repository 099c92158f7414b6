-- ===== src/Web/Builder/Writes.antt =====
-- services/bb-webd.c: what the calls of the JSON builder append, when it fits.
use nxp_imx95_building_block.Web.Builder.{
  Jw, jw_raw, jw_obj_start, jw_obj_end, jw_arr_start, jw_arr_end, jw_comma, jw_push, jw_kv_str,
  jw_kv_int, jw_kv_double,
}
use nxp_imx95_building_block.Common.{
  ℕ, ◌+◌, ◌<◌, ◌≡◌, refl, sym, ap, subst, ◌∙◌, Bool, true, false, [], ◌∷◌, ◌++◌, append-nil,
  append_assoc, arith, lt→ltb, length, length-append, Bytes, codes, ℤ, print_int,
}

-- A call that begins with `first` at `b` appends the text and leaves `first` at `b'`, whenever the
-- text fits into the buffer with its NUL.
abbrev pub Writes : (Jw → Jw) → Bool → Bool → Bytes → Type 0
Writes f b b' t =
    (text : Bytes) (cap : ℕ)
    → length text + length t < cap
    → f (record { text = text; cap = cap; first = b })
      ≡ record { text = text ++ t; cap = cap; first = b' }

abbrev pub jw_of : Bytes → ℕ → Bool → Jw
jw_of text cap first = record { text = text; cap = cap; first = first }

-- One call behind the other.
pub Writes-then :
    (f g : Jw → Jw) {b b' b'' : Bool} {t u : Bytes}
    → Writes f b b' t
    → Writes g b' b'' u
    → Writes (λ j. g (f j)) b b'' (t ++ u)
Writes-then f g {b = b} {b' = b'} {b'' = b''} {t = t} {u = u} wf wg text cap h =
    ap g (wf text cap (omega (arith, length-append t u)))
    ∙ wg (text ++ t) cap (omega (arith, length-append t u, length-append text t))
    ∙ ap (λ x. jw_of x cap b'') (append_assoc text t u)

pub nothing-Writes : (b : Bool) → Writes (λ j. j) b b []
nothing-Writes b text cap h = ap (λ x. jw_of x cap b) (sym (append-nil text))

pub raw-Writes : (s : Bytes) (b : Bool) → Writes (jw_raw s) b b s
unfolding jw_raw
raw-Writes s b text cap h = rw (lt→ltb (length text + length s) cap h) refl

pub push-Writes : (c : ℕ) (b : Bool) → Writes (jw_push c) b b (c ∷ [])
unfolding jw_push
push-Writes c b text cap h = rw (lt→ltb (length text + 1) cap h) refl

pub obj_start-Writes : (b : Bool) → Writes jw_obj_start b true (codes "{")
unfolding jw_obj_start
obj_start-Writes b text cap h =
    ap (λ (j : Jw). record j { first = true }) (raw-Writes (codes "{") b text cap h)

pub obj_end-Writes : (b : Bool) → Writes jw_obj_end b false (codes "}")
unfolding jw_obj_end
obj_end-Writes b text cap h =
    ap (λ (j : Jw). record j { first = false }) (raw-Writes (codes "}") b text cap h)

pub arr_start-Writes : (b : Bool) → Writes jw_arr_start b true (codes "[")
unfolding jw_arr_start
arr_start-Writes b text cap h =
    ap (λ (j : Jw). record j { first = true }) (raw-Writes (codes "[") b text cap h)

pub arr_end-Writes : (b : Bool) → Writes jw_arr_end b false (codes "]")
unfolding jw_arr_end
arr_end-Writes b text cap h =
    ap (λ (j : Jw). record j { first = false }) (raw-Writes (codes "]") b text cap h)

-- The comma in front of a member that is not the first.
abbrev pub comma : Bool → Bytes
comma true = []
comma false = codes ","

pub comma-Writes : (b : Bool) → Writes jw_comma b false (comma b)
unfolding jw_comma
comma-Writes true text cap h = ap (λ x. jw_of x cap false) (sym (append-nil text))
comma-Writes false text cap h =
    ap (λ (j : Jw). record j { first = false }) (raw-Writes (codes ",") false text cap h)

key-Writes :
    (k : Bytes) (b : Bool)
    → Writes
        (λ j. jw_raw k (jw_raw (codes "\"") (jw_comma j)))
        b
        false
        ((comma b ++ codes "\"") ++ k)
key-Writes k b =
    Writes-then (λ j. jw_raw (codes "\"") (jw_comma j)) (jw_raw k)
      (Writes-then jw_comma (jw_raw (codes "\"")) (comma-Writes b) (raw-Writes (codes "\"") false))
      (raw-Writes k false)

-- A member: its key in quotes, a colon, and the text of its value.
abbrev pub member : Bytes → Bytes → Bytes
member k v = 34 ∷ (k ++ 34 ∷ 58 ∷ v)

member-joined : (k v x : Bytes) → (((x ++ codes "\"") ++ k) ++ codes "\":") ++ v ≡ x ++ member k v
member-joined k v x =
    ap (λ t. (t ++ codes "\":") ++ v) (append_assoc x (codes "\"") k)
    ∙ ap (λ t. t ++ v) (append_assoc x (34 ∷ k) (codes "\":"))
    ∙ append_assoc x (34 ∷ (k ++ codes "\":")) v
    ∙ ap (λ t. x ++ 34 ∷ t) (append_assoc k (codes "\":") v)

number-Writes :
    (k num : Bytes) (b : Bool)
    → Writes
        (λ j. jw_raw num (jw_raw (codes "\":") (jw_raw k (jw_raw (codes "\"") (jw_comma j)))))
        b
        false
        (comma b ++ member k num)
number-Writes k num b =
    let key = λ (j : Jw). jw_raw k (jw_raw (codes "\"") (jw_comma j)) in
    let colon = λ (j : Jw). jw_raw (codes "\":") (key j) in
    subst (Writes (λ j. jw_raw num (colon j)) b false) (member-joined k num (comma b)) (
      Writes-then colon (jw_raw num)
        (Writes-then key (jw_raw (codes "\":")) (key-Writes k b) (raw-Writes (codes "\":") false))
        (raw-Writes num false))

pub int-Writes :
    (k : Bytes) (v : ℤ) (b : Bool)
    → Writes (jw_kv_int k v) b false (comma b ++ member k (print_int v))
unfolding jw_kv_int
int-Writes k v b = number-Writes k (print_int v) b

pub double-Writes :
    (k num : Bytes) (b : Bool) → Writes (jw_kv_double k num) b false (comma b ++ member k num)
unfolding jw_kv_double
double-Writes k num b = number-Writes k num b

string-joined :
    (k v x : Bytes)
    → ((((x ++ codes "\"") ++ k) ++ codes "\":\"") ++ v) ++ codes "\""
      ≡ x ++ member k (34 ∷ (v ++ codes "\""))
string-joined k v x =
    append_assoc (((x ++ codes "\"") ++ k) ++ codes "\":\"") v (codes "\"")
    ∙ ap (λ t. t ++ (v ++ codes "\""))
        (sym (append_assoc ((x ++ codes "\"") ++ k) (codes "\":") (codes "\"")))
    ∙ append_assoc (((x ++ codes "\"") ++ k) ++ codes "\":") (codes "\"") (v ++ codes "\"")
    ∙ member-joined k (34 ∷ (v ++ codes "\"")) x

pub str-Writes :
    (k v : Bytes) (b : Bool)
    → Writes (jw_kv_str k v) b false (comma b ++ member k (34 ∷ (v ++ codes "\"")))
unfolding jw_kv_str
str-Writes k v b =
    let key = λ (j : Jw). jw_raw k (jw_raw (codes "\"") (jw_comma j)) in
    let colon = λ (j : Jw). jw_raw (codes "\":\"") (key j) in
    let val = λ (j : Jw). jw_raw v (colon j) in
    subst (Writes (λ j. jw_raw (codes "\"") (val j)) b false) (string-joined k v (comma b)) (
      Writes-then val (jw_raw (codes "\""))
        (Writes-then colon (jw_raw v)
          (Writes-then key (jw_raw (codes "\":\"")) (key-Writes k b)
            (raw-Writes (codes "\":\"") false))
          (raw-Writes v false))
        (raw-Writes (codes "\"") false))
