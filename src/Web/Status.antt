-- ===== src/Web/Status.antt =====
-- services/bb-webd.c: what the API handlers report. What the kernel answers is a parameter: the files
-- of /proc and /sys, the directories, `sysinfo`, `statfs`, and `stat` and `access` (`exists`).
pub mod Tables
pub mod Devices
pub mod Answers
pub mod Content
pub mod Lists
pub mod Logs
use nxp_imx95_building_block.Web.Builder.{
  Jw, jw_init, jw_raw, jw_obj_start, jw_obj_end, jw_arr_start, jw_arr_end, jw_comma, jw_kv_str,
  jw_kv_int, jw_kv_double, jw_push, escape_byte, escape_bytes, json_escape_str, Call, kv_str,
  kv_int, kv_double, run_call, run_calls, build_object, build_objects, build_array,
}
use nxp_imx95_building_block.Web.Http.{
  mime_of, mime_from, mime_by_ext, http_ok, http_nocache, content, http_error, http_not_found,
  http_method_not_allowed, http_server_error, read_file, first_line, read_proc_line,
}
use nxp_imx95_building_block.Common.{
  ℕ, zero, suc, ◌+◌, ◌-◌, ◌*◌, ◌/◌, ◌%◌, ◌^◌, ◌≤◌, ◌<◌, min, ◌≡◌, refl, sym, ap, ap₂, subst, ◌∙◌,
  ◌≢◌, ◌↔◌, ◌⊎◌, inl, inr, Bool, true, false, not, ◌&&◌, ◌||◌, Option, none, some, List, [], ◌∷◌,
  ◌++◌, map, append-nil, append_assoc, arith, ltb, leb, ◌==◌, if◌then◌else◌, ltb→lt, lt→ltb,
  le→not_ltb, leb→le, le→leb, ==_iff, ==_self, ==_ne, tests, Bool-cases, Option-cases, length,
  get_elem?, get_or, set, take, drop, replicate, length-append, length-set, get_elem?-set_self,
  get_elem?-set_ne, get_elem?_lt, get_elem?_ge, lt_of_get_elem?, take-append-drop, length-take,
  length-drop, take_all, drop_all, take-append_length, drop-append_length, length-replicate,
  length-map, All, All-append, length-take_le, All-take, All-drop, All-set, All-get, Bytes, codes,
  str_eq, starts_with, str_eq_refl, str_eq→eq, str_eq_ne, starts_with-append, all, all-append, ℤ,
  pos, negsuc, pos_part, neg_part, ltb_ℤ, leb_ℤ, eq_ℤ, sub_ℕ, ◌+ℤ◌, ◌-ℤ◌, int_max, fetch_inc,
  fetch_dec, fetch_inc_lt, fetch_dec_pos, is_space, skip_space, token, after_char, before_char,
  from_last, Files, write_file, delete_file, rename_file, extend_line, read_lines, read-write,
  read-write_ne, read-rename, read-rename_ne, is_digit, pow10, digits, decimal, print_int,
  scan_digits, no_digit, scan_digits-decimal, scan_digits-stop, signed_value, scan_long, scan_int,
  length-digits, length-print_int, after_match, IsFirst, after_match-first, occurs, lower,
  after_match_case, push_token, scan_tokens, tokens, scan_number, unsigned_of, scan_u64, scan_u32,
  scan_char, scan_number-decimal, scan_u64-decimal, scan_u32-decimal, scan_number-print_int,
  scan_number-space, lacks, IsFirst-lacks, IsFirst-append, is_first, IsFirst-test, digits-lacks,
  decimal-lacks, after_match-append, before_char-lacks, after_char-lacks,
}

-- `struct sysinfo`
pub record SysInfo : Type 0 where
  pub uptime : ℕ
  pub totalram : ℕ
  pub freeram : ℕ
  pub totalswap : ℕ
  pub freeswap : ℕ
  pub mem_unit : ℕ

-- `struct statfs`
pub record StatFs : Type 0 where
  pub f_blocks : ℕ
  pub f_bfree : ℕ
  pub f_bsize : ℕ

-- What the handlers ask for. The three load averages and a temperature in thousandths come as
-- `%.2f` prints them. `unset` is what variables hold that `sscanf` did not
-- reach, for each line, by the number of lines behind it.
pub record Board : Type 0 where
  pub files : Files
  pub dirs : Bytes → Option (List Bytes)
  pub exists : Bytes → Bool
  pub info : Option SysInfo
  pub loads : Option (Bytes × Bytes × Bytes)
  pub cpu_count : ℤ
  pub hostname : Option Bytes
  pub fs : Bytes → Option StatFs
  pub print_milli : ℤ → Bytes
  pub unset : ℕ → ℕ → ℕ

-- `unsigned long long`
abbrev pub wrap64 : ℕ → ℕ
wrap64 n = n % 2 ^ 64

-- `(long long)` of an `unsigned long long`
abbrev pub signed64 : ℕ → ℤ
signed64 n = if ltb n (2 ^ 63) then pos n else negsuc (2 ^ 64 - n - 1)

-- Division towards zero.
abbrev pub quot : ℤ → ℕ → ℤ
quot (pos n) d = pos (n / d)
quot (negsuc n) d = let q = (n + 1) / d in if q == 0 then pos 0 else negsuc (q - 1)

unfoldable pub uptime_text : ℕ → Bytes
uptime_text up =
    decimal (up / 86400)
    ++ (codes "d "
        ++ (decimal (up % 86400 / 3600)
            ++ (codes "h "
                ++ (decimal (up % 3600 / 60) ++ (codes "m " ++ (decimal (up % 60) ++ codes "s"))))))

unfoldable pub uptime_calls : Option SysInfo → List Call
unfolding uptime_text
uptime_calls none = []
uptime_calls (some si) =
    kv_int (codes "uptime_seconds") (pos si.uptime)
    ∷ kv_str (codes "uptime") (take 63 (uptime_text si.uptime))
    ∷ []

unfoldable pub load_calls : Option (Bytes × Bytes × Bytes) → List Call
load_calls none = []
load_calls (some (a, b, c)) =
    kv_double (codes "load_1m") a
    ∷ kv_double (codes "load_5m") b
    ∷ kv_double (codes "load_15m") c
    ∷ []

-- A number of units in kilobytes.
abbrev in_kb : ℕ → ℕ → ℤ
in_kb n unit = pos (wrap64 (n * unit) / 1024)

abbrev pub minus64 : ℕ → ℕ → ℕ
minus64 a b = wrap64 (a + 2 ^ 64 - b)

unfoldable pub memory_calls : Option SysInfo → List Call
memory_calls none = []
memory_calls (some si) =
    kv_int (codes "mem_total_kb") (in_kb si.totalram si.mem_unit)
    ∷ kv_int (codes "mem_free_kb") (in_kb si.freeram si.mem_unit)
    ∷ kv_int (codes "mem_used_kb") (in_kb (minus64 si.totalram si.freeram) si.mem_unit)
    ∷ kv_int (codes "swap_total_kb") (in_kb si.totalswap si.mem_unit)
    ∷ kv_int (codes "swap_free_kb") (in_kb si.freeswap si.mem_unit)
    ∷ []

-- A member that is there when its text could be read.
abbrev pub line_call : Bytes → Option Bytes → List Call
line_call key none = []
line_call key (some text) = kv_str key text ∷ []

unfoldable pub disk_calls : Option StatFs → List Call
disk_calls none = []
disk_calls (some s) =
    kv_int (codes "disk_total_kb") (in_kb s.f_blocks s.f_bsize)
    ∷ kv_int (codes "disk_free_kb") (in_kb s.f_bfree s.f_bsize)
    ∷ kv_int (codes "disk_used_kb") (in_kb (minus64 s.f_blocks s.f_bfree) s.f_bsize)
    ∷ []

unfoldable pub volume_calls : Bytes → Bytes → Option StatFs → List Call
volume_calls total free none = []
volume_calls total free (some s) =
    kv_int total (in_kb s.f_blocks s.f_bsize) ∷ kv_int free (in_kb s.f_bfree s.f_bsize) ∷ []

unfoldable pub temp_calls : (ℤ → Bytes) → Option Bytes → List Call
temp_calls print none = []
temp_calls print (some temp) =
    kv_int (codes "cpu_temp_mc") (scan_long temp)
    ∷ kv_double (codes "cpu_temp_c") (print (scan_long temp))
    ∷ []

-- The calls of `handle_api_system`, in their order.
unfoldable pub system_calls : Board → List Call
unfolding uptime_calls load_calls memory_calls disk_calls volume_calls temp_calls
system_calls b =
    uptime_calls b.info
    ++ (load_calls b.loads
        ++ (memory_calls b.info
            ++ (kv_int (codes "cpu_count") b.cpu_count
                ∷ (line_call (codes "kernel") (read_proc_line b.files (codes "/proc/version") 256)
                    ++ (line_call (codes "hostname") b.hostname
                        ++ (kv_str (codes "product") (codes "NXP i.MX95 EVK")
                            ∷ (disk_calls (b.fs (codes "/"))
                                ++ (volume_calls (codes "persist_total_kb")
                                      (codes "persist_free_kb") (b.fs (codes "/persist"))
                                    ++ (volume_calls (codes "log_total_kb") (codes "log_free_kb")
                                          (b.fs (codes "/log"))
                                        ++ temp_calls b.print_milli (
                                            read_proc_line b.files
                                              (codes "/sys/class/thermal/thermal_zone0/temp")
                                              32))))))))))

-- `handle_api_system`: the JSON text.
unfoldable pub api_system : Board → Bytes
unfolding system_calls
api_system b = (build_object (system_calls b) (jw_init 4096)).text

abbrev pub slot_calls : Option Bytes → List Call
slot_calls none = []
slot_calls (some cmdline) =
    kv_str (codes "boot_slot") (
      if occurs (codes "root=/dev/mmcblk0p6") cmdline
      then codes "a"
      else if occurs (codes "root=/dev/mmcblk0p7") cmdline
      then codes "b"
      else codes "unknown")
    ∷ []

abbrev pub version_text : Option Bytes → Bytes
version_text none = codes "unknown"
version_text (some ver) = ver

-- The calls of `handle_api_health`, in their order.
unfoldable pub health_calls : Board → List Call
health_calls b =
    kv_str (codes "status") (codes "ok")
    ∷ kv_str (codes "busd")
        (if b.exists (codes "/run/bb-bus.sock") then codes "running" else codes "stopped")
    ∷ kv_str (codes "watchdog")
        (if b.exists (codes "/dev/watchdog0") then codes "available" else codes "unavailable")
    ∷ kv_str (codes "persist")
        (if b.exists (codes "/persist") then codes "mounted" else codes "unmounted")
    ∷ (slot_calls (read_proc_line b.files (codes "/proc/cmdline") 512)
        ++ kv_str (codes "version")
            (version_text (read_proc_line b.files (codes "/opt/building-blocks/etc/version") 64))
          ∷ [])

-- `handle_api_health`: the JSON text.
unfoldable pub api_health : Board → Bytes
unfolding health_calls
api_health b = (build_object (health_calls b) (jw_init 2048)).text

abbrev pub mounts : List (Bytes × Bytes)
mounts =
    (codes "/", codes "rootfs")
    ∷ (codes "/boot/a", codes "boot-a")
    ∷ (codes "/persist", codes "persist")
    ∷ (codes "/log", codes "log")
    ∷ []

abbrev pub partition_calls : Bytes → Bytes → StatFs → List Call
partition_calls mp label s =
    kv_str (codes "label") label
    ∷ kv_str (codes "mount") mp
    ∷ kv_int (codes "total_kb") (quot (signed64 (wrap64 (s.f_blocks * s.f_bsize))) 1024)
    ∷ kv_int (codes "free_kb") (quot (signed64 (wrap64 (s.f_bfree * s.f_bsize))) 1024)
    ∷ kv_int (codes "used_kb")
        (quot (signed64 (wrap64 (minus64 s.f_blocks s.f_bfree * s.f_bsize))) 1024)
    ∷ []

abbrev pub add_partition : Bytes → Bytes → Option StatFs → Jw → Jw
add_partition mp label none j = j
add_partition mp label (some s) j = build_object (partition_calls mp label s) j

-- The loop of `handle_api_partitions`.
unfoldable pub add_partitions : Board → List (Bytes × Bytes) → Jw → Jw
add_partitions b [] j = j
add_partitions b ((mp, label) ∷ ms) j = add_partitions b ms (add_partition mp label (b.fs mp) j)

-- `handle_api_partitions`: the JSON text.
unfoldable pub api_partitions : Board → Bytes
unfolding add_partitions
api_partitions b = (jw_obj_end (add_partitions b mounts (jw_obj_start (jw_init 2048)))).text
