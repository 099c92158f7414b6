-- ===== src/Web/Builder/Objects.antt =====
-- services/bb-webd.c: the objects and arrays that the API handlers build.
use nxp_imx95_building_block.Web.Builder.{
  jw_obj_start, jw_obj_end, jw_arr_start, jw_arr_end, jw_comma, Call, kv_str, kv_int, kv_double,
  run_call, run_calls, build_object, build_objects, build_array,
}
use nxp_imx95_building_block.Web.Builder.Writes.{
  Writes, obj_start-Writes, obj_end-Writes, arr_start-Writes, arr_end-Writes, comma, comma-Writes,
  member, int-Writes, double-Writes, str-Writes, Writes-then, nothing-Writes,
}
use nxp_imx95_building_block.Common.{
  sym, ap, subst, Bool, true, false, List, [], ◌∷◌, ◌++◌, map, append-nil, append_assoc, Bytes,
  codes, print_int,
}

-- The key and the text of the value that a call adds.
unfoldable pub call_text : Call → Bytes
call_text (kv_str k v) = member k (34 ∷ (v ++ codes "\""))
call_text (kv_int k v) = member k (print_int v)
call_text (kv_double k num) = member k num

-- Texts with commas between them, and one in front of the first unless it is the first of all.
unfoldable pub separated : Bool → List Bytes → Bytes
separated b [] = []
separated b (t ∷ ts) = comma b ++ (t ++ separated false ts)

-- A JSON object, from the calls that name its members.
unfoldable pub object : List Call → Bytes
unfolding separated call_text
object cs = 123 ∷ (separated true (map call_text cs) ++ codes "}")

-- A JSON array of objects.
unfoldable pub array : List (List Call) → Bytes
unfolding separated object
array os = 91 ∷ (separated true (map object os) ++ codes "]")

abbrev after {ℓ} : {A : Type ℓ} → Bool → List A → Bool
after b [] = b
after b (c ∷ cs) = false

call-Writes : (c : Call) (b : Bool) → Writes (run_call c) b false (comma b ++ call_text c)
unfolding run_call call_text
call-Writes (kv_str k v) b = str-Writes k v b
call-Writes (kv_int k v) b = int-Writes k v b
call-Writes (kv_double k num) b = double-Writes k num b

calls-Writes :
    (cs : List Call) (b : Bool)
    → Writes (run_calls cs) b (after b cs) (separated b (map call_text cs))
unfolding run_calls separated
calls-Writes [] b = nothing-Writes b
calls-Writes (c ∷ []) b =
    subst (Writes (run_call c) b false) (ap (λ t. comma b ++ t) (sym (append-nil (call_text c))))
      (call-Writes c b)
calls-Writes (c ∷ d ∷ cs) b =
    subst (Writes (λ j. run_calls (d ∷ cs) (run_call c j)) b false)
      (append_assoc (comma b) (call_text c) (separated false (map call_text (d ∷ cs))))
      (Writes-then (run_call c) (run_calls (d ∷ cs)) (call-Writes c b)
        (calls-Writes (d ∷ cs) false))

pub object-Writes : (cs : List Call) (b : Bool) → Writes (build_object cs) b false (object cs)
unfolding build_object object
object-Writes cs b =
    Writes-then (λ j. run_calls cs (jw_obj_start j)) jw_obj_end
      (Writes-then jw_obj_start (run_calls cs) (obj_start-Writes b) (calls-Writes cs true))
      (obj_end-Writes (after true cs))

one-Writes :
    (o : List Call) (b : Bool)
    → Writes (λ j. build_object o (jw_comma j)) b false (comma b ++ object o)
one-Writes o b = Writes-then jw_comma (build_object o) (comma-Writes b) (object-Writes o false)

objects-Writes :
    (os : List (List Call)) (b : Bool)
    → Writes (build_objects os) b (after b os) (separated b (map object os))
unfolding build_objects separated
objects-Writes [] b = nothing-Writes b
objects-Writes (o ∷ []) b =
    subst (Writes (λ j. build_object o (jw_comma j)) b false)
      (ap (λ t. comma b ++ t) (sym (append-nil (object o)))) (one-Writes o b)
objects-Writes (o ∷ p ∷ os) b =
    subst (Writes (λ j. build_objects (p ∷ os) (build_object o (jw_comma j))) b false)
      (append_assoc (comma b) (object o) (separated false (map object (p ∷ os))))
      (Writes-then (λ j. build_object o (jw_comma j)) (build_objects (p ∷ os)) (one-Writes o b)
        (objects-Writes (p ∷ os) false))

pub array-Writes : (os : List (List Call)) (b : Bool) → Writes (build_array os) b false (array os)
unfolding build_array array
array-Writes os b =
    Writes-then (λ j. build_objects os (jw_arr_start j)) jw_arr_end
      (Writes-then jw_arr_start (build_objects os) (arr_start-Writes b) (objects-Writes os true))
      (arr_end-Writes (after true os))
