-- ===== src/Json/Tests.antt =====
-- Tests of the model of libbb/bb_json.c, and its theorems at concrete texts.
use nxp_imx95_building_block.Json.{Writer, find_key, get_string, get_bool}
use nxp_imx95_building_block.Json.Object.{
  Field, string_field, bool_field, write_object, object_text, IsWritten, write_object_lem,
}
use nxp_imx95_building_block.Json.Getters.{quoted, get_string_lem}
use nxp_imx95_building_block.Common.{
  ◌<◌, ◌≡◌, refl, true, none, some, List, [], ◌∷◌, ◌++◌, arith, length, replicate, Bytes, codes,
  starts_with, all, pos, negsuc,
}

abbrev status : List Field
status = string_field (codes "led") (some (codes "on")) ∷ bool_field (codes "ok") true ∷ []

text_of_status : object_text status ≡ codes "{\"led\":\"on\",\"ok\":true}"
unfolding object_text
text_of_status = refl

get_ok : get_bool (codes "{\"led\":\"on\",\"ok\": true}") (codes "ok") (negsuc 0) ≡ pos 1
unfolding get_bool find_key starts_with
get_ok = refl

-- An escape is read as the byte that it stands for.
get_escaped : get_string (codes "{\"a\":\"x\\ny\\\"z\"}") (codes "a") ≡ some (codes "x\ny\"z")
unfolding get_string find_key starts_with
get_escaped = refl

-- A value that is spelled like a key further on is taken for the key.
get_hidden : get_string (codes "{\"a\":\"b\",\"b\":\"c\"}") (codes "b") ≡ none
unfolding get_string find_key starts_with
get_hidden = refl

-- The witnesses.
abbrev buffer : Bytes
buffer = replicate 32 0

status_short : length (object_text status) < length buffer
unfolding object_text
status_short = omega arith

write_object_lem_example : IsWritten (write_object buffer status) (object_text status)
write_object_lem_example = write_object_lem buffer status status_short

get_string_lem_example :
    get_string
      (codes "{" ++ (quoted (codes "led") ++ 58 ∷ 34 ∷ (codes "on" ++ 34 ∷ codes "}")))
      (codes "led")
    ≡ some (codes "on")
unfolding starts_with all
get_string_lem_example =
    get_string_lem (codes "{") (codes "led") (codes "on") (codes "}") (omega arith) (omega arith)
      refl (refl, tt)

abbrev short_writer : Writer
short_writer = record { buf = 123 ∷ 0 ∷ 0 ∷ 0 ∷ []; size = 4; pos = 1 }
