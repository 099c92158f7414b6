-- ===== src/Web/Status/Tables.antt =====
-- services/bb-webd.c: the API handlers that report a list.
use nxp_imx95_building_block.Web.Builder.{jw_init, Call, kv_str, kv_int, build_array}
use nxp_imx95_building_block.Web.Http.{content, read_proc_line}
use nxp_imx95_building_block.Web.Status.{Board, wrap64, signed64, line_call}
use nxp_imx95_building_block.Common.{
  ℕ, zero, suc, ◌+◌, ◌-◌, ◌*◌, Bool, false, ◌&&◌, ◌||◌, Option, none, some, List, [], ◌∷◌, ◌++◌,
  ltb, leb, ◌==◌, if◌then◌else◌, length, get_or, take, drop, Bytes, codes, str_eq, starts_with,
  skip_space, token, before_char, is_digit, scan_int, tokens, scan_u64,
}

unfoldable pub scan_more : Option (ℕ × Bytes) → (Bytes → List ℕ) → List ℕ
scan_more none k = []
scan_more (some (n, s)) k = n ∷ k s

-- `%llu %llu ...`: the numbers up to the first that fails.
unfoldable pub scan_u64s : ℕ → Bytes → List ℕ
unfolding scan_u64 scan_more
scan_u64s zero s = []
scan_u64s (suc n) s = scan_more (scan_u64 s) (scan_u64s n)

-- `read(f, buf, size - 1)` as a string, none when nothing was read.
unfoldable pub read_text : Option Bytes → ℕ → Option Bytes
read_text none size = none
read_text (some content) size = elim (take (size - 1) content) [
  | [] ↦ none
  | c ∷ got ↦ some (before_char 0 (c ∷ got))
]

abbrev pub lines_of : Option Bytes → List Bytes
lines_of none = []
lines_of (some text) = tokens 10 text

module _ (b : Board) where
  -- A variable that `sscanf` assigns when it reaches it; so many lines are behind this one.
  abbrev pub assigned : ℕ → List ℕ → ℕ → ℕ
  assigned behind ns i = get_or ns i (b.unset behind i)

  unfoldable pub cpu_entry : ℕ → Bytes → List ℕ → List Call
  cpu_entry behind name ns =
      let user = assigned behind ns 0 in
      let nice = assigned behind ns 1 in
      let sys = assigned behind ns 2 in
      let idle = assigned behind ns 3 in
      let iowait = assigned behind ns 4 in
      let irq = assigned behind ns 5 in
      let softirq = assigned behind ns 6 in
      kv_str (codes "core") name
      ∷ kv_int (codes "user") (signed64 user)
      ∷ kv_int (codes "system") (signed64 (wrap64 (sys + irq + softirq)))
      ∷ kv_int (codes "idle") (signed64 (wrap64 (idle + iowait)))
      ∷ kv_int (codes "total")
          (signed64 (wrap64 (user + nice + sys + idle + iowait + irq + softirq)))
      ∷ []

  -- `strncmp(name, "cpu", 3) == 0` and a digit behind it
  abbrev pub is_core : Bytes → Bool
  is_core name =
      starts_with (codes "cpu") name && (elim (drop 3 name) [ [] ↦ false | c ∷ s ↦ is_digit c ])

  -- The loop of `handle_api_cpu` over the lines of /proc/stat.
  unfoldable pub cpu_entries : List Bytes → List (List Call)
  unfolding cpu_entry scan_u64s
  cpu_entries [] = []
  cpu_entries (line ∷ ls) =
      let more = cpu_entries ls in
      let name = token 15 (skip_space line) in
      let ns = scan_u64s 7 name.1 in
      if leb 3 (length ns) && is_core name.0 then cpu_entry (length ls) name.0 ns ∷ more else more

  -- `handle_api_cpu`: the JSON text.
  unfoldable pub api_cpu : Bytes
  unfolding cpu_entries read_text
  api_cpu =
      (build_array (cpu_entries (lines_of (read_text (b.files (codes "/proc/stat")) 2048)))
        (jw_init 4096)).text

  -- ` %31[^:]:`: the name, and the text behind the colon when there is one.
  abbrev pub scan_name : ℕ → Bytes → Bytes × Option Bytes
  scan_name zero [] = ([], none)
  scan_name zero (c ∷ s) = ([], if c == 58 then some s else none)
  scan_name (suc n) [] = ([], none)
  scan_name (suc n) (c ∷ s) =
      let more = scan_name n s in if c == 58 then ([], some s) else (c ∷ more.0, more.1)

  unfoldable pub network_entry : ℕ → Bytes → List ℕ → List Call
  network_entry behind iface ns =
      kv_str (codes "name") iface
      ∷ kv_int (codes "rx_bytes") (signed64 (assigned behind ns 0))
      ∷ kv_int (codes "rx_packets") (signed64 (assigned behind ns 1))
      ∷ kv_int (codes "tx_bytes") (signed64 (assigned behind ns 8))
      ∷ kv_int (codes "tx_packets") (signed64 (assigned behind ns 9))
      ∷ line_call (codes "mac") (
          read_proc_line b.files (take 127 (codes "/sys/class/net/" ++ (iface ++ codes "/address")))
            64)

  -- Whether a line of /proc/net/dev names an interface with two numbers at least.
  abbrev pub network_line : ℕ → Bytes × Option Bytes → List (List Call)
  network_line behind (iface, none) = []
  network_line behind (iface, some text) =
      let ns = scan_u64s 10 text in
      if (length iface == 0) || ltb (length ns) 2 || str_eq iface (codes "lo")
      then []
      else network_entry behind iface ns ∷ []

  -- The loop of `handle_api_network` over the lines of /proc/net/dev.
  unfoldable pub network_entries : List Bytes → List (List Call)
  unfolding network_entry scan_u64s
  network_entries [] = []
  network_entries (line ∷ ls) =
      network_line (length ls) (scan_name 31 (skip_space line)) ++ network_entries ls

  -- `handle_api_network`: the JSON text.
  unfoldable pub api_network : Bytes
  unfolding network_entries read_text
  api_network =
      (build_array (network_entries (lines_of (read_text (b.files (codes "/proc/net/dev")) 4096)))
        (jw_init 4096)).text

  abbrev pub proc_path : Bytes → Bytes → Bytes
  proc_path name file = take 127 (codes "/proc/" ++ (name ++ file))

  abbrev pub rss_calls : List ℕ → List Call
  rss_calls (size ∷ rss ∷ []) = kv_int (codes "rss_kb") (signed64 (wrap64 (rss * 4))) ∷ []
  rss_calls ns = []

  abbrev pub numbers_of : Option Bytes → List ℕ
  numbers_of none = []
  numbers_of (some text) = scan_u64s 2 text

  -- `de->d_name[0] < '0' || de->d_name[0] > '9'`
  abbrev pub is_pid : Bytes → Bool
  is_pid [] = false
  is_pid (c ∷ s) = is_digit c

  -- One process: its name, when it is one of the building blocks.
  unfoldable pub process_entry : Bytes → Option Bytes → List (List Call)
  unfolding scan_u64s read_text
  process_entry name none = []
  process_entry name (some comm) =
      if starts_with (codes "bb-") (before_char 10 comm)
      then (kv_str (codes "name") (before_char 10 comm)
          ∷ kv_int (codes "pid") (scan_int name)
          ∷ rss_calls (numbers_of (read_text (b.files (proc_path name (codes "/statm"))) 128)))
        ∷ []
      else []

  -- The loop of `handle_api_processes` over /proc.
  unfoldable pub process_entries : List Bytes → List (List Call)
  unfolding process_entry read_text
  process_entries [] = []
  process_entries (name ∷ names) =
      let more = process_entries names in
      let entry = process_entry name (read_text (b.files (proc_path name (codes "/comm"))) 64) in
      if is_pid name then entry ++ more else more

  abbrev pub names_in : Bytes → List Bytes
  names_in dir = elim (b.dirs dir) [ none ↦ [] | some names ↦ names ]

  -- `handle_api_processes`: the JSON text.
  unfoldable pub api_processes : Bytes
  unfolding process_entries
  api_processes = (build_array (process_entries (names_in (codes "/proc"))) (jw_init 4096)).text
