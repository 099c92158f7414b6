-- ===== src/Persist/Mount.antt =====
-- libbb/bb_persist.c: the persist partition is mounted once.
use nxp_imx95_building_block.Common.{
  ℕ, zero, suc, ◌≡◌, refl, Bool, true, false, ◌||◌, Option, none, some, List, [], ◌∷◌, ◌++◌,
  if◌then◌else◌, Bytes, codes, ℤ, pos, negsuc, before_char, Files, read_lines, occurs,
}

-- The calls that change the system.
pub data MountCall : Type 0 where
  make_dir : Bytes → MountCall
  mount_at : Bytes → Bytes → Bytes → MountCall

-- What the system answers: whether a path is there, and 0 or the error of `mount`.
pub record Mounts : Type 0 where
  pub has_path : Bytes → Bool
  pub files : Files
  pub errno : ℕ

-- The loop over /proc/mounts.
unfoldable pub is_mounted : Bytes → List Bytes → Bool
is_mounted target [] = false
is_mounted target (line ∷ ls) = occurs target (before_char 0 line) || is_mounted target ls

abbrev mounts_text : Option Bytes → Bytes
mounts_text none = []
mounts_text (some text) = text

-- `-errno`
abbrev pub negated : ℕ → ℤ
negated zero = pos 0
negated (suc n) = negsuc n

-- `ensure_mounted`, on Linux.
unfoldable pub ensure_mounted : Mounts → Bytes → Bytes → Bytes → ℤ × List MountCall
unfolding is_mounted
ensure_mounted sys device target fstype =
    let made = if sys.has_path target then [] else make_dir target ∷ [] in
    let lines = read_lines 511 511 (mounts_text (sys.files (codes "/proc/mounts"))) in
    if is_mounted target lines
    then (pos 0, made)
    else (negated sys.errno, made ++ mount_at device target fstype ∷ [])

-- `bb_persist_init`; the device is made of constants of the board.
unfoldable pub persist_init : Bytes → Mounts → ℤ × List MountCall
unfolding ensure_mounted
persist_init device sys = ensure_mounted sys device (codes "/persist") (codes "ext4")

-- When a line of /proc/mounts names the directory, nothing is mounted and 0 is returned.
pub persist_init_mounted :
    (device text : Bytes) (sys : Mounts)
    → sys.files (codes "/proc/mounts") ≡ some text
    → is_mounted (codes "/persist") (read_lines 511 511 text) ≡ true
    → ((persist_init device sys).0 ≡ pos 0)
      × ((persist_init device sys).1
          ≡ (if sys.has_path (codes "/persist") then [] else make_dir (codes "/persist") ∷ []))
unfolding persist_init ensure_mounted
persist_init_mounted device text sys e h = rw (e, h) (refl, refl)
