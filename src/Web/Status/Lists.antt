-- ===== src/Web/Status/Lists.antt =====
-- services/bb-webd.c: the lists that the API handlers give, and the volumes of the partitions.
use nxp_imx95_building_block.Web.Builder.{
  jw_init, jw_obj_start, jw_obj_end, Call, kv_int, build_object, build_array,
}
use nxp_imx95_building_block.Web.Builder.Writes.{
  Writes, Writes-then, nothing-Writes, obj_start-Writes, obj_end-Writes,
}
use nxp_imx95_building_block.Web.Builder.Objects.{
  call_text, object, array, object-Writes, array-Writes,
}
use nxp_imx95_building_block.Web.Status.{
  StatFs, Board, wrap64, signed64, quot, minus64, system_calls, api_system, mounts, partition_calls,
  add_partition, add_partitions, api_partitions,
}
use nxp_imx95_building_block.Web.Status.Tables.{
  read_text, lines_of, cpu_entries, api_cpu, network_entries, api_network, process_entries,
  names_in, api_processes,
}
use nxp_imx95_building_block.Web.Status.Devices.{led_entries, api_leds, chip_entries, api_gpio}
use nxp_imx95_building_block.Web.Status.Content.{built, length-object, length-str}
use nxp_imx95_building_block.Common.{
  ℕ, ◌+◌, ◌*◌, ◌≤◌, ◌<◌, ◌≡◌, Bool, true, false, Option, none, some, List, [], ◌∷◌, ◌++◌, arith,
  length, length-append, Bytes, codes, ℤ, print_int, length-print_int,
}

-- The reports whose length depends on the board.
pub data Report : Type 0 where
  of_system of_cpu of_network of_processes of_leds of_gpio : Report

-- What a handler writes for a report.
abbrev pub report_text : Board → Report → Bytes
report_text b of_system = api_system b
report_text b of_cpu = api_cpu b
report_text b of_network = api_network b
report_text b of_processes = api_processes b
report_text b of_leds = api_leds b
report_text b of_gpio = api_gpio b

-- The JSON value of a report.
abbrev pub report_value : Board → Report → Bytes
report_value b of_system = object (system_calls b)
report_value b of_cpu =
    array (cpu_entries b (lines_of (read_text (b.files (codes "/proc/stat")) 2048)))
report_value b of_network =
    array (network_entries b (lines_of (read_text (b.files (codes "/proc/net/dev")) 4096)))
report_value b of_processes = array (process_entries b (names_in b (codes "/proc")))
report_value b of_leds = array (led_entries b (names_in b (codes "/sys/class/leds")))
report_value b of_gpio = array (chip_entries b 8 0)

-- The size of its buffer.
abbrev pub report_size : Report → ℕ
report_size of_leds = 2048
report_size r = 4096

array_built :
    (os : List (List Call)) (size : ℕ)
    → length (array os) < size
    → (build_array os (jw_init size)).text ≡ array os
array_built os size h = built (build_array os) false (array os) size (array-Writes os true) h

-- A report that fits into the buffer of its handler, with the NUL, is written whole: an object with
-- its members, or an array with an object for each entry, in the order of the entries.
pub report_lem :
    (b : Board) (r : Report)
    → length (report_value b r) < report_size r
    → report_text b r ≡ report_value b r
unfolding api_system api_cpu api_network api_processes api_leds api_gpio
report_lem b of_system h =
    built (build_object (system_calls b)) false (object (system_calls b)) 4096
      (object-Writes (system_calls b) true) h
report_lem b of_cpu h =
    array_built (cpu_entries b (lines_of (read_text (b.files (codes "/proc/stat")) 2048))) 4096 h
report_lem b of_network h =
    array_built (network_entries b (lines_of (read_text (b.files (codes "/proc/net/dev")) 4096)))
      4096 h
report_lem b of_processes h = array_built (process_entries b (names_in b (codes "/proc"))) 4096 h
report_lem b of_leds h = array_built (led_entries b (names_in b (codes "/sys/class/leds"))) 2048 h
report_lem b of_gpio h = array_built (chip_entries b 8 0) 4096 h

-- The objects of the volumes that `statfs` knows, one behind the other.
abbrev volume : Bytes → Bytes → Option StatFs → Bytes
volume mp label none = []
volume mp label (some s) = object (partition_calls mp label s)

unfoldable pub volumes : Board → List (Bytes × Bytes) → Bytes
volumes b [] = []
volumes b ((mp, label) ∷ ms) = volume mp label (b.fs mp) ++ volumes b ms

-- `first` behind them.
abbrev volume_first : Bool → Option StatFs → Bool
volume_first c none = c
volume_first c (some s) = false

abbrev volumes_first : Board → Bool → List (Bytes × Bytes) → Bool
volumes_first b c [] = c
volumes_first b c ((mp, label) ∷ ms) = volumes_first b (volume_first c (b.fs mp)) ms

volume-Writes :
    (mp label : Bytes) (o : Option StatFs) (c : Bool)
    → Writes (add_partition mp label o) c (volume_first c o) (volume mp label o)
volume-Writes mp label none c = nothing-Writes c
volume-Writes mp label (some s) c = object-Writes (partition_calls mp label s) c

volumes-Writes :
    (b : Board) (ms : List (Bytes × Bytes)) (c : Bool)
    → Writes (add_partitions b ms) c (volumes_first b c ms) (volumes b ms)
unfolding add_partitions volumes
volumes-Writes b [] c = nothing-Writes c
volumes-Writes b ((mp, label) ∷ ms) c =
    Writes-then (add_partition mp label (b.fs mp)) (add_partitions b ms)
      (volume-Writes mp label (b.fs mp) c) (volumes-Writes b ms (volume_first c (b.fs mp)))

length-int : (k : Bytes) (v : ℤ) → length (call_text (kv_int k v)) ≤ length k + 24
unfolding call_text
length-int k v = omega (arith, length-print_int v, length-append k (34 ∷ 58 ∷ print_int v))

length-volume :
    (mp label : Bytes) (o : Option StatFs)
    → length (volume mp label o) ≤ length mp + length label + 140
length-volume mp label none = omega arith
length-volume mp label (some s) = omega (
  arith,
  length-object (partition_calls mp label s),
  length-str (codes "label") label,
  length-str (codes "mount") mp,
  length-int (codes "total_kb") (quot (signed64 (wrap64 (s.f_blocks * s.f_bsize))) 1024),
  length-int (codes "free_kb") (quot (signed64 (wrap64 (s.f_bfree * s.f_bsize))) 1024),
  length-int (codes "used_kb")
      (quot (signed64 (wrap64 (minus64 s.f_blocks s.f_bfree * s.f_bsize))) 1024),
)

abbrev budget : List (Bytes × Bytes) → ℕ
budget [] = 0
budget ((mp, label) ∷ ms) = length mp + length label + 140 + budget ms

length-volumes : (b : Board) (ms : List (Bytes × Bytes)) → length (volumes b ms) ≤ budget ms
unfolding volumes
length-volumes b [] = omega arith
length-volumes b ((mp, label) ∷ ms) = omega (
  arith,
  length-volume mp label (b.fs mp),
  length-volumes b ms,
  length-append (volume mp label (b.fs mp)) (volumes b ms),
)

-- `handle_api_partitions` answers an object that holds the objects of the volumes one behind the
-- other, with no key in front of them and no comma between them, on every board.
pub api_partitions_lem :
    (b : Board) → api_partitions b ≡ (codes "{" ++ volumes b mounts) ++ codes "}"
unfolding api_partitions
api_partitions_lem b =
    built (λ j. jw_obj_end (add_partitions b mounts (jw_obj_start j))) false
      ((codes "{" ++ volumes b mounts) ++ codes "}") 2048
      (Writes-then (λ j. add_partitions b mounts (jw_obj_start j)) jw_obj_end
        (Writes-then jw_obj_start (add_partitions b mounts) (obj_start-Writes true)
          (volumes-Writes b mounts true))
        (obj_end-Writes (volumes_first b true mounts)))
      (omega
        (arith, length-volumes b mounts, length-append (codes "{" ++ volumes b mounts) (codes "}")))
