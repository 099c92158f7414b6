-- ===== src/Web/Status/Content.antt =====
-- services/bb-webd.c: the API handlers give the JSON text of what they report.
use nxp_imx95_building_block.Web.Builder.{Jw, jw_init, Call, kv_str, build_object}
use nxp_imx95_building_block.Web.Builder.Writes.{Writes, comma}
use nxp_imx95_building_block.Web.Builder.Objects.{call_text, separated, object, object-Writes}
use nxp_imx95_building_block.Web.Http.{content, first_line, read_proc_line}
use nxp_imx95_building_block.Web.Status.{Board, health_calls, api_health, slot_calls, version_text}
use nxp_imx95_building_block.Common.{
  ℕ, ◌+◌, ◌-◌, ◌≤◌, ◌<◌, ◌≡◌, ap, Bool, true, false, Option, none, some, List, [], ◌∷◌, ◌++◌, map,
  arith, if◌then◌else◌, length, take, length-append, length-take, Bytes, codes, before_char, Files,
  occurs,
}

-- What is built in an empty buffer that has room for it.
pub built :
    (f : Jw → Jw) (b' : Bool) (t : Bytes) (size : ℕ)
    → Writes f true b' t
    → length t < size
    → (f (jw_init size)).text ≡ t
built f b' t size w h = ap {A = Jw} (λ j. j.text) (w [] size (omega (arith, h)))

-- Room for texts, each with a comma.
abbrev pub total : List Bytes → ℕ
total [] = 0
total (t ∷ ts) = length t + 1 + total ts

length-comma : (b : Bool) → length (comma b) ≤ 1
length-comma true = omega arith
length-comma false = omega arith

pub length-separated : (b : Bool) (ts : List Bytes) → length (separated b ts) ≤ total ts
unfolding separated
length-separated b [] = omega arith
length-separated b (t ∷ ts) = omega (
  arith,
  length-comma b,
  length-separated false ts,
  length-append (comma b) (t ++ separated false ts),
  length-append t (separated false ts),
)

pub length-object : (cs : List Call) → length (object cs) ≤ 2 + total (map call_text cs)
unfolding object
length-object cs = omega (
  arith,
  length-separated true (map call_text cs),
  length-append (separated true (map call_text cs)) (codes "}"),
)

pub length-str : (k v : Bytes) → length (call_text (kv_str k v)) ≡ length k + length v + 5
unfolding call_text
length-str k v =
    omega (arith, length-append k (34 ∷ 58 ∷ 34 ∷ (v ++ codes "\"")), length-append v (codes "\""))

length-before_char : (c : ℕ) (s : Bytes) → length (before_char c s) ≤ length s
unfolding before_char
length-before_char c [] = omega arith
length-before_char c (x ∷ s) = ground (arith, length-before_char c s)

abbrev length_or {ℓ} : {A : Type ℓ} → Option (List A) → ℕ
length_or none = 0
length_or (some s) = length s

length-first_line : (got : Bytes) → length_or (first_line got) ≤ length got
unfolding first_line
length-first_line [] = omega arith
length-first_line (c ∷ got) =
    omega (arith, length-before_char 10 (before_char 0 (c ∷ got)), length-before_char 0 (c ∷ got))

length-read :
    (o : Option Bytes) (size : ℕ)
    → length_or (elim o [ none ↦ none | some content ↦ first_line (take (size - 1) content) ])
      ≤ size - 1
length-read none size = omega arith
length-read (some content) size =
    omega (arith, length-first_line (take (size - 1) content), length-take (size - 1) content)

length-read_proc_line :
    (files : Files) (path : Bytes) (size : ℕ)
    → length_or (read_proc_line files path size) ≤ size - 1
unfolding read_proc_line
length-read_proc_line files path size = length-read (files path) size

length-version : (o : Option Bytes) → length_or o ≤ 63 → length (version_text o) ≤ 63
length-version none h = omega arith
length-version (some v) h = h

length-either :
    (b : Bool) (x y : Bytes) (n : ℕ) → length x ≤ n → length y ≤ n → length (if b then x else y) ≤ n
length-either true x y n h k = h
length-either false x y n h k = k

abbrev health_total : List Call → ℕ
health_total cs = total (map call_text cs)

length-slot :
    (o : Option Bytes) (v : Bytes)
    → length v ≤ 63
    → health_total (slot_calls o ++ kv_str (codes "version") v ∷ []) ≤ 120
length-slot none v h = omega (arith, h, length-str (codes "version") v)
length-slot (some line) v h =
    let slot =
      if occurs (codes "root=/dev/mmcblk0p6") line
      then codes "a"
      else if occurs (codes "root=/dev/mmcblk0p7") line
      then codes "b"
      else codes "unknown" in
    omega (
      arith,
      h,
      length-str (codes "version") v,
      length-str (codes "boot_slot") slot,
      length-either (occurs (codes "root=/dev/mmcblk0p6") line) (codes "a")
          (if occurs (codes "root=/dev/mmcblk0p7") line then codes "b" else codes "unknown") 7
          (omega arith)
          (length-either (occurs (codes "root=/dev/mmcblk0p7") line) (codes "b") (codes "unknown") 7
            (omega arith) (omega arith)),
    )

-- `handle_api_health` answers the whole object, on every board: the state of the daemon, the watchdog
-- and the persist partition, the slot that the kernel was started from, and the version.
pub api_health_lem : (b : Board) → api_health b ≡ object (health_calls b)
unfolding api_health health_calls
api_health_lem b =
    let version =
      version_text (read_proc_line b.files (codes "/opt/building-blocks/etc/version") 64) in
    let rest =
      slot_calls (read_proc_line b.files (codes "/proc/cmdline") 512)
      ++ kv_str (codes "version") version ∷ [] in
    let busd = if b.exists (codes "/run/bb-bus.sock") then codes "running" else codes "stopped" in
    let dog =
      if b.exists (codes "/dev/watchdog0") then codes "available" else codes "unavailable" in
    let disk = if b.exists (codes "/persist") then codes "mounted" else codes "unmounted" in
    built (build_object (health_calls b)) false (object (health_calls b)) 2048
      (object-Writes (health_calls b) true)
      (omega (
        arith,
        length-object (health_calls b),
        length-slot (read_proc_line b.files (codes "/proc/cmdline") 512) version (
            length-version (read_proc_line b.files (codes "/opt/building-blocks/etc/version") 64)
              (length-read_proc_line b.files (codes "/opt/building-blocks/etc/version") 64)),
        length-str (codes "status") (codes "ok"),
        length-str (codes "busd") busd,
        length-str (codes "watchdog") dog,
        length-str (codes "persist") disk,
        length-either (b.exists (codes "/run/bb-bus.sock")) (codes "running") (codes "stopped") 11
            (omega arith) (omega arith),
        length-either (b.exists (codes "/dev/watchdog0")) (codes "available") (codes "unavailable")
            11 (omega arith) (omega arith),
        length-either (b.exists (codes "/persist")) (codes "mounted") (codes "unmounted") 11
            (omega arith) (omega arith),
      ))
