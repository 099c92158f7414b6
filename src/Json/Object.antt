-- ===== src/Json/Object.antt =====
-- libbb/bb_json.c: a whole object written by the calls of the writer, against its text.
use nxp_imx95_building_block.Json.{
  Writer, store, json_init, put, start_object, print, then_print, add_key, add_string, add_int,
  add_bool, drop_comma, close_object, end_object,
}
use nxp_imx95_building_block.Json.Build.{Shows, store-Shows, put-Shows, then_print-Shows}
use nxp_imx95_building_block.Common.{
  ℕ, ◌+◌, ◌-◌, ◌<◌, ◌≡◌, refl, sym, ap, ap₂, subst, ◌∙◌, Bool, true, false, Option, none, some,
  List, [], ◌∷◌, ◌++◌, append-nil, append_assoc, arith, ltb, length, get_elem?, drop, length-append,
  Bytes, codes, ℤ, print_int,
}

-- A call of the writer for one member.
pub data Field : Type 0 where
  string_field : Bytes → Option Bytes → Field
  int_field : Bytes → ℤ → Field
  bool_field : Bytes → Bool → Field

unfoldable pub add_field : Field → Writer → Option Writer
add_field (string_field key val) w = add_string key val w
add_field (int_field key val) w = add_int key val w
add_field (bool_field key val) w = add_bool key val w

unfoldable pub add_fields : List Field → Option Writer → Option Writer
unfolding add_field
add_fields fs none = none
add_fields [] (some w) = some w
add_fields (f ∷ fs) (some w) = add_fields fs (add_field f w)

unfoldable pub then_end : Option Writer → Option Writer
then_end none = none
then_end (some w) = end_object w

unfoldable pub then_start : Option Writer → Option Writer
then_start none = none
then_start (some w) = some (start_object w)

-- The calls of a client that writes one object into a buffer.
unfoldable pub write_object : Bytes → List Field → Option Writer
unfolding add_fields then_end then_start
write_object cells fs = then_end (add_fields fs (then_start (json_init cells)))

unfoldable pub key_text : Field → Bytes
key_text (string_field key val) = 34 ∷ key ++ codes "\":"
key_text (int_field key val) = 34 ∷ key ++ codes "\":"
key_text (bool_field key val) = 34 ∷ key ++ codes "\":"

unfoldable pub value_text : Field → Bytes
value_text (string_field key none) = codes "\"\""
value_text (string_field key (some val)) = 34 ∷ val ++ codes "\""
value_text (int_field key val) = print_int val
value_text (bool_field key true) = codes "true"
value_text (bool_field key false) = codes "false"

-- The text of an object's members: each with its key and value, with commas between them.
unfoldable pub members : List Field → Bytes
unfolding key_text value_text
members [] = []
members (f ∷ []) = key_text f ++ value_text f
members (f ∷ g ∷ fs) = (key_text f ++ value_text f) ++ 44 ∷ members (g ∷ fs)

unfoldable pub object_text : List Field → Bytes
unfolding members
object_text fs = 123 ∷ members fs ++ 125 ∷ []

-- What the calls have written before the object is closed.
unfoldable pub trailing : List Field → Bytes
trailing [] = []
trailing (f ∷ fs) = (key_text f ++ (value_text f ++ 44 ∷ [])) ++ trailing fs

trailing-members : (f : Field) (fs : List Field) → trailing (f ∷ fs) ≡ members (f ∷ fs) ++ 44 ∷ []
unfolding trailing members
trailing-members f [] =
    append-nil (key_text f ++ (value_text f ++ 44 ∷ []))
    ∙ sym (append_assoc (key_text f) (value_text f) (44 ∷ []))
trailing-members f (g ∷ fs) =
    ap (λ r. (key_text f ++ (value_text f ++ 44 ∷ [])) ++ r) (trailing-members g fs)
    ∙ ap (λ r. r ++ (members (g ∷ fs) ++ 44 ∷ []))
        (sym (append_assoc (key_text f) (value_text f) (44 ∷ [])))
    ∙ append_assoc (key_text f ++ value_text f) (44 ∷ []) (members (g ∷ fs) ++ 44 ∷ [])
    ∙ sym (append_assoc (key_text f ++ value_text f) (44 ∷ members (g ∷ fs)) (44 ∷ []))

-- A call of the writer prints the key, and the value with a comma.
pub add_field-print :
    (f : Field) (w : Writer)
    → add_field f w ≡ then_print (value_text f ++ 44 ∷ []) (print (key_text f) w)
unfolding add_field add_string add_int add_bool add_key key_text value_text
add_field-print (string_field key none) w = refl
add_field-print (string_field key (some val)) w =
    ap (λ t. then_print (34 ∷ t) (print (34 ∷ key ++ codes "\":") w))
      (sym (append_assoc val (codes "\"") (44 ∷ [])))
add_field-print (int_field key val) w = refl
add_field-print (bool_field key true) w = refl
add_field-print (bool_field key false) w = refl

pub add_fields-Shows :
    (fs : List Field) (w : Writer) (t : Bytes)
    → Shows w t
    → length t + length (trailing fs) < w.size
    → (v : Writer) × (add_fields fs (some w) ≡ some v)
      × Shows v (t ++ trailing fs)
      × (v.size ≡ w.size)
unfolding add_fields trailing
add_fields-Shows [] w t s h = (w, refl, subst (λ x. Shows w x) (sym (append-nil t)) s, refl)
add_fields-Shows (f ∷ fs) w t s h =
    let key = key_text f in
    let val = value_text f ++ 44 ∷ [] in
    let (v, e, sv, n) =
      then_print-Shows w t key val s
        (omega (arith, length-append key val, length-append (key ++ val) (trailing fs))) in
    let (u, g, su, m) =
      add_fields-Shows fs v (t ++ (key ++ val)) sv (
        omega (arith, n, length-append t (key ++ val), length-append (key ++ val) (trailing fs))) in
    (
      u,
      ap (add_fields fs) (add_field-print f w ∙ e) ∙ g,
      subst (λ x. Shows u x) (append_assoc t (key ++ val) (trailing fs)) su,
      m ∙ n,
    )

-- A closed object stands at the front of the buffer as a C string.
abbrev pub IsWritten : Option Writer → Bytes → Type 0
IsWritten o t =
    (w : Writer) × (rest : Bytes) × (o ≡ some w) × (w.buf ≡ t ++ 0 ∷ rest) × (w.pos ≡ length t)

close-IsWritten :
    (w : Writer) (t : Bytes)
    → Shows w t
    → length t + 1 < w.size
    → IsWritten (close_object (some w)) (t ++ 125 ∷ [])
unfolding close_object
close-IsWritten w t s h =
    let (sv, n) = put-Shows 125 w t s (omega arith) in
    let v = put 125 w in
    let inside : ltb v.pos v.size ≡ true = ground (arith, sv.at, n, length-append t (125 ∷ [])) in
    (
      record v { buf = store v.pos (0 ∷ []) v.buf },
      drop 1 sv.rest,
      rw inside refl,
      store-Shows v (t ++ 125 ∷ []) (0 ∷ []) sv (omega (arith, n, length-append t (125 ∷ []))),
      sv.at,
    )

get_elem?-behind : (t rest : Bytes) (c : ℕ) → get_elem? (t ++ c ∷ rest) (length t) ≡ some c
get_elem?-behind [] rest c = refl
get_elem?-behind (x ∷ t) rest c = get_elem?-behind t rest c

-- The comma behind the last member gives way to the brace.
end-comma :
    (w : Writer) (t : Bytes)
    → Shows w (t ++ 44 ∷ [])
    → 0 < length t
    → length t + 1 < w.size
    → IsWritten (end_object w) (t ++ 125 ∷ [])
unfolding end_object drop_comma
end-comma w t s k h =
    let long : ltb 1 w.pos ≡ true = ground (arith, s.at, length-append t (44 ∷ [])) in
    let place : w.pos - 1 ≡ length t = omega (arith, s.at, length-append t (44 ∷ [])) in
    let front : w.buf ≡ t ++ 44 ∷ s.rest = s.front ∙ append_assoc t (44 ∷ []) s.rest in
    let comma : get_elem? w.buf (w.pos - 1) ≡ some 44 =
      ap₂ get_elem? front place ∙ get_elem?-behind t s.rest 44 in
    rw (long, comma)
      (close-IsWritten (record w { pos = w.pos - 1 }) t
        (record { rest = 44 ∷ s.rest; front = front; at = place; cells = s.cells }) h)

-- An object without members.
end-open : (w : Writer) → Shows w (123 ∷ []) → 2 < w.size → IsWritten (end_object w) (codes "{}")
unfolding end_object drop_comma
end-open w s h =
    let short : ltb 1 w.pos ≡ false = ground (arith, s.at) in
    rw short (close-IsWritten w (123 ∷ []) s h)

abbrev pub fresh : ℕ → Bytes → Writer
fresh c cells = record { buf = 0 ∷ cells; size = length (c ∷ cells); pos = 0 }

pub opened-Shows :
    (c : ℕ) (cells : Bytes)
    → Shows (start_object (fresh c cells)) (123 ∷ [])
      × ((start_object (fresh c cells)).size ≡ length (c ∷ cells))
unfolding start_object
opened-Shows c cells =
    put-Shows 123 (fresh c cells) []
      (record { rest = 0 ∷ cells; front = refl; at = refl; cells = refl }) (omega arith)

-- The calls that write an object leave its text, with the NUL behind it, at the front of the buffer,
-- and the position behind the text, for every list of members, strings, integers and Booleans, when text and
-- NUL fit into the buffer.
pub write_object_lem :
    (cells : Bytes) (fs : List Field)
    → length (object_text fs) < length cells
    → IsWritten (write_object cells fs) (object_text fs)
unfolding write_object object_text json_init
write_object_lem [] fs h = absurd (omega arith)
write_object_lem (c ∷ cells) [] h =
    let (s, n) = opened-Shows c cells in end-open (start_object (fresh c cells)) s (omega arith)
write_object_lem (c ∷ cells) (f ∷ fs) h =
    let (s, n) = opened-Shows c cells in
    let all_members = members (f ∷ fs) in
    let text = trailing-members f fs in
    let long = length-append all_members (44 ∷ []) in
    let brace = length-append all_members (125 ∷ []) in
    let (v, e, sv, m) =
      add_fields-Shows (f ∷ fs) (start_object (fresh c cells)) (123 ∷ []) s
        (omega (arith, ap length text)) in
    subst (λ o. IsWritten o (object_text (f ∷ fs))) (sym (ap then_end e))
      (end-comma v (123 ∷ all_members) (subst (λ x. Shows v (123 ∷ x)) text sv) (omega arith)
        (omega arith))
