-- ===== src/Web/Status/Answers.antt =====
-- services/bb-webd.c: what the API handlers answer, as JSON.
use nxp_imx95_building_block.Web.Builder.{
  Jw, jw_init, jw_obj_start, jw_obj_end, jw_arr_start, jw_arr_end, jw_comma, json_escape_str, Call,
  build_object, build_array,
}
use nxp_imx95_building_block.Web.Builder.Bounds.{
  Keeps, Keeps-then, obj_start-Keeps, obj_end-Keeps, arr_start-Keeps, arr_end-Keeps, comma-Keeps,
  object-Keeps, array-Keeps, escape-Keeps,
}
use nxp_imx95_building_block.Web.Status.{
  StatFs, Board, system_calls, api_system, health_calls, api_health, add_partitions, api_partitions,
  mounts, partition_calls, add_partition,
}
use nxp_imx95_building_block.Web.Status.Tables.{
  read_text, lines_of, api_cpu, api_network, api_processes,
}
use nxp_imx95_building_block.Web.Status.Devices.{
  api_leds, api_gpio, add_lines, api_logs, log_file, tail_of,
}
use nxp_imx95_building_block.Common.{
  ℕ, ◌-◌, ◌<◌, refl, subst, ◌∙◌, Bool, true, false, Option, none, some, List, [], ◌∷◌, arith, ltb,
  if◌then◌else◌, length, Bytes,
}

add_partition-Keeps : (mp label : Bytes) (o : Option StatFs) → Keeps (add_partition mp label o)
add_partition-Keeps mp label none j h = (h, refl)
add_partition-Keeps mp label (some s) j h = object-Keeps (partition_calls mp label s) j h

partitions-Keeps : (b : Board) (ms : List (Bytes × Bytes)) → Keeps (add_partitions b ms)
unfolding add_partitions
partitions-Keeps b [] j h = (h, refl)
partitions-Keeps b ((mp, label) ∷ ms) j h =
    Keeps-then (add_partition mp label (b.fs mp)) (add_partitions b ms)
      (add_partition-Keeps mp label (b.fs mp)) (partitions-Keeps b ms) j h

line-Keeps :
    (line : Bytes) (c : Bool) → Keeps (λ j. if c then json_escape_str line (jw_comma j) else j)
line-Keeps line true j h =
    Keeps-then jw_comma (json_escape_str line) comma-Keeps (escape-Keeps line) j h
line-Keeps line false j h = (h, refl)

lines-Keeps : (ls : List Bytes) → Keeps (add_lines ls)
unfolding add_lines
lines-Keeps [] j h = (h, refl)
lines-Keeps (line ∷ ls) j h =
    let (a, e) = line-Keeps line (ltb (length j.text) (8192 - 256)) j h in
    let (c, d) =
      lines-Keeps ls
        (if ltb (length j.text) (8192 - 256) then json_escape_str line (jw_comma j) else j) a in
    (c, d ∙ e)

short : (f : Jw → Jw) (cap : ℕ) → Keeps f → 0 < cap → length (f (jw_init cap)).text < cap
short f cap k h =
    let (a, e) = k (jw_init cap) h in subst (λ n. length (f (jw_init cap)).text < n) e a

-- `handle_api_*`: the JSON text fits into the buffer of its handler, the NUL included.
pub system-length : (b : Board) → length (api_system b) < 4096
unfolding api_system
system-length b =
    short (build_object (system_calls b)) 4096 (object-Keeps (system_calls b)) (omega arith)

pub health-length : (b : Board) → length (api_health b) < 2048
unfolding api_health
health-length b =
    short (build_object (health_calls b)) 2048 (object-Keeps (health_calls b)) (omega arith)

pub partitions-length : (b : Board) → length (api_partitions b) < 2048
unfolding api_partitions
partitions-length b =
    short (λ j. jw_obj_end (add_partitions b mounts (jw_obj_start j))) 2048
      (Keeps-then (λ j. add_partitions b mounts (jw_obj_start j)) jw_obj_end
        (Keeps-then jw_obj_start (add_partitions b mounts) obj_start-Keeps
          (partitions-Keeps b mounts))
        obj_end-Keeps)
      (omega arith)

array-length :
    (os : List (List Call)) (cap : ℕ) → 0 < cap → length (build_array os (jw_init cap)).text < cap
array-length os cap h = short (build_array os) cap (array-Keeps os) h

pub cpu-length : (b : Board) → length (api_cpu b) < 4096
unfolding api_cpu
cpu-length b = array-length _ 4096 (omega arith)

pub network-length : (b : Board) → length (api_network b) < 4096
unfolding api_network
network-length b = array-length _ 4096 (omega arith)

pub processes-length : (b : Board) → length (api_processes b) < 4096
unfolding api_processes
processes-length b = array-length _ 4096 (omega arith)

pub leds-length : (b : Board) → length (api_leds b) < 2048
unfolding api_leds
leds-length b = array-length _ 2048 (omega arith)

pub gpio-length : (b : Board) → length (api_gpio b) < 4096
unfolding api_gpio
gpio-length b = array-length _ 4096 (omega arith)

pub logs-length : (b : Board) → length (api_logs b) < 8192
unfolding api_logs
logs-length b =
    short
      (λ j.
        jw_arr_end
          (add_lines (lines_of (read_text (tail_of b (log_file b)) 2048)) (jw_arr_start j)))
      8192
      (Keeps-then
        (λ j. add_lines (lines_of (read_text (tail_of b (log_file b)) 2048)) (jw_arr_start j))
        jw_arr_end
        (Keeps-then jw_arr_start (add_lines (lines_of (read_text (tail_of b (log_file b)) 2048)))
          arr_start-Keeps (lines-Keeps (lines_of (read_text (tail_of b (log_file b)) 2048))))
        arr_end-Keeps)
      (omega arith)
