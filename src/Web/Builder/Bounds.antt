-- ===== src/Web/Builder/Bounds.antt =====
-- services/bb-webd.c: no call of the JSON builder leaves its buffer.
use nxp_imx95_building_block.Web.Builder.{
  Jw, jw_raw, jw_obj_start, jw_obj_end, jw_arr_start, jw_arr_end, jw_comma, jw_kv_str, jw_kv_int,
  jw_kv_double, jw_push, escape_byte, escape_bytes, json_escape_str, Call, kv_str, kv_int,
  kv_double, run_call, run_calls, build_object, build_objects, build_array,
}
use nxp_imx95_building_block.Common.{
  ℕ, ◌+◌, ◌<◌, ◌≡◌, refl, ◌∙◌, inl, inr, Bool, true, false, List, [], ◌∷◌, arith, ltb, ◌==◌, ltb→lt,
  Bool-cases, length, length-append, Bytes, codes, print_int,
}

-- The text and its NUL are inside the buffer after a call when they were before, and the size of the
-- buffer is the same.
abbrev pub Keeps : (Jw → Jw) → Type 0
Keeps f = (j : Jw) → length j.text < j.cap → (length (f j).text < (f j).cap) × ((f j).cap ≡ j.cap)

pub Keeps-then : (f g : Jw → Jw) → Keeps f → Keeps g → Keeps (λ j. g (f j))
Keeps-then f g kf kg j h = let (a, b) = kf j h in let (c, d) = kg (f j) a in (c, d ∙ b)

pub raw-Keeps : (s : Bytes) → Keeps (jw_raw s)
unfolding jw_raw
raw-Keeps s j h = elim (Bool-cases (ltb (length j.text + length s) j.cap)) [
  | inl e ↦
      rw e (omega (arith, length-append j.text s, ltb→lt (length j.text + length s) j.cap e), refl)
  | inr e ↦ rw e (h, refl)
]

push-Keeps : (c : ℕ) → Keeps (jw_push c)
unfolding jw_push
push-Keeps c j h = elim (Bool-cases (ltb (length j.text + 1) j.cap)) [
  | inl e ↦
      rw e (omega (arith, length-append j.text (c ∷ []), ltb→lt (length j.text + 1) j.cap e), refl)
  | inr e ↦ rw e (h, refl)
]

pub obj_start-Keeps : Keeps jw_obj_start
unfolding jw_obj_start
obj_start-Keeps j h = raw-Keeps (codes "{") j h

pub obj_end-Keeps : Keeps jw_obj_end
unfolding jw_obj_end
obj_end-Keeps j h = raw-Keeps (codes "}") j h

pub arr_start-Keeps : Keeps jw_arr_start
unfolding jw_arr_start
arr_start-Keeps j h = raw-Keeps (codes "[") j h

pub arr_end-Keeps : Keeps jw_arr_end
unfolding jw_arr_end
arr_end-Keeps j h = raw-Keeps (codes "]") j h

pub comma-Keeps : Keeps jw_comma
unfolding jw_comma
comma-Keeps j h = go j.text j.cap j.first h
  where
    go :
        (text : Bytes) (size : ℕ) (first : Bool)
        → length text < size
        → (length (jw_comma (record { text = text; cap = size; first = first })).text
            < (jw_comma (record { text = text; cap = size; first = first })).cap)
          × ((jw_comma (record { text = text; cap = size; first = first })).cap ≡ size)
    go text size true h = (h, refl)
    go text size false h =
        raw-Keeps (codes ",") (record { text = text; cap = size; first = false }) h

key-Keeps :
    (k colon : Bytes) → Keeps (λ j. jw_raw colon (jw_raw k (jw_raw (codes "\"") (jw_comma j))))
key-Keeps k colon =
    Keeps-then (λ j. jw_raw k (jw_raw (codes "\"") (jw_comma j))) (jw_raw colon)
      (Keeps-then (λ j. jw_raw (codes "\"") (jw_comma j)) (jw_raw k)
        (Keeps-then jw_comma (jw_raw (codes "\"")) comma-Keeps (raw-Keeps (codes "\"")))
        (raw-Keeps k))
      (raw-Keeps colon)

call-Keeps : (c : Call) → Keeps (run_call c)
unfolding run_call jw_kv_str jw_kv_int jw_kv_double
call-Keeps (kv_str k v) =
    Keeps-then
      (λ j. jw_raw v (jw_raw (codes "\":\"") (jw_raw k (jw_raw (codes "\"") (jw_comma j)))))
      (jw_raw (codes "\""))
      (Keeps-then (λ j. jw_raw (codes "\":\"") (jw_raw k (jw_raw (codes "\"") (jw_comma j))))
        (jw_raw v) (key-Keeps k (codes "\":\"")) (raw-Keeps v))
      (raw-Keeps (codes "\""))
call-Keeps (kv_int k v) =
    Keeps-then (λ j. jw_raw (codes "\":") (jw_raw k (jw_raw (codes "\"") (jw_comma j))))
      (jw_raw (print_int v)) (key-Keeps k (codes "\":")) (raw-Keeps (print_int v))
call-Keeps (kv_double k num) =
    Keeps-then (λ j. jw_raw (codes "\":") (jw_raw k (jw_raw (codes "\"") (jw_comma j))))
      (jw_raw num) (key-Keeps k (codes "\":")) (raw-Keeps num)

calls-Keeps : (cs : List Call) → Keeps (run_calls cs)
unfolding run_calls
calls-Keeps [] j h = (h, refl)
calls-Keeps (c ∷ cs) j h =
    Keeps-then (run_call c) (run_calls cs) (call-Keeps c) (calls-Keeps cs) j h

pub object-Keeps : (cs : List Call) → Keeps (build_object cs)
unfolding build_object
object-Keeps cs =
    Keeps-then (λ j. run_calls cs (jw_obj_start j)) jw_obj_end
      (Keeps-then jw_obj_start (run_calls cs) obj_start-Keeps (calls-Keeps cs)) obj_end-Keeps

objects-Keeps : (os : List (List Call)) → Keeps (build_objects os)
unfolding build_objects
objects-Keeps [] j h = (h, refl)
objects-Keeps (o ∷ os) j h =
    Keeps-then (λ j. build_object o (jw_comma j)) (build_objects os)
      (Keeps-then jw_comma (build_object o) comma-Keeps (object-Keeps o)) (objects-Keeps os) j h

pub array-Keeps : (os : List (List Call)) → Keeps (build_array os)
unfolding build_array
array-Keeps os =
    Keeps-then (λ j. build_objects os (jw_arr_start j)) jw_arr_end
      (Keeps-then jw_arr_start (build_objects os) arr_start-Keeps (objects-Keeps os)) arr_end-Keeps

byte-Keeps : (c : ℕ) → Keeps (escape_byte c)
unfolding escape_byte
byte-Keeps c j h = elim (Bool-cases (c == 34)) [
  | inl e ↦ rw e (raw-Keeps (92 ∷ 34 ∷ []) j h)
  | inr e ↦ elim (Bool-cases (c == 92)) [
    | inl f ↦ rw (e, f) (raw-Keeps (92 ∷ 92 ∷ []) j h)
    | inr f ↦ elim (Bool-cases (c == 10)) [
      | inl g ↦ rw (e, f, g) (raw-Keeps (92 ∷ 110 ∷ []) j h)
      | inr g ↦ elim (Bool-cases (c == 13)) [
        | inl k ↦ rw (e, f, g, k) (raw-Keeps (92 ∷ 114 ∷ []) j h)
        | inr k ↦ elim (Bool-cases (c == 9)) [
          | inl l ↦ rw (e, f, g, k, l) (raw-Keeps (92 ∷ 116 ∷ []) j h)
          | inr l ↦ rw (e, f, g, k, l) (push-Keeps c j h)
        ]
      ]
    ]
  ]
]

bytes-Keeps : (s : Bytes) → Keeps (escape_bytes s)
unfolding escape_bytes
bytes-Keeps [] j h = (h, refl)
bytes-Keeps (c ∷ s) j h =
    Keeps-then (escape_byte c) (escape_bytes s) (byte-Keeps c) (bytes-Keeps s) j h

pub escape-Keeps : (s : Bytes) → Keeps (json_escape_str s)
unfolding json_escape_str
escape-Keeps s =
    Keeps-then (λ j. escape_bytes s (jw_raw (codes "\"") j)) (jw_raw (codes "\""))
      (Keeps-then (jw_raw (codes "\"")) (escape_bytes s) (raw-Keeps (codes "\"")) (bytes-Keeps s))
      (raw-Keeps (codes "\""))
