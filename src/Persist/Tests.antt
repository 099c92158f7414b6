-- ===== src/Persist/Tests.antt =====
-- Tests of the model of the settings in libbb/bb_persist.c, and its theorems at concrete files.
use nxp_imx95_building_block.Persist.Mfg.Checked.{
  fresh_mfg, ask_serial, after_calls, Outcome, mfg_read_lem, mfg_serial_unchecked,
}
use nxp_imx95_building_block.Persist.Mfg.{crc_steps, crc_matches, mfg_read, mfg_serial, mfg_size}
use nxp_imx95_building_block.Persist.Logs.Update.{failed, add_updates, update_log_read-add}
use nxp_imx95_building_block.Persist.Logs.Members.{IsUpdateEntry}
use nxp_imx95_building_block.Persist.Logs.Boot.{add_boots, boot_log_read-add}
use nxp_imx95_building_block.Persist.Logs.{BootEntry, UpdateEntry, boot_log_read, update_log_read}
use nxp_imx95_building_block.Persist.{
  System, config_path, tmp_path, strip_end, strip_byte, config_get, setting, config_set,
}
use nxp_imx95_building_block.Persist.Lines.{IsLine, update}
use nxp_imx95_building_block.Persist.Config.{IsWorking, Holds, config_set_lem}
use nxp_imx95_building_block.Persist.Update.{is_key, config_get-set, config_get-set_ne}
use nxp_imx95_building_block.Framing.{join_lines, is_text}
use nxp_imx95_building_block.Common.{
  ◌<◌, ◌≡◌, refl, sym, subst, ◌≢◌, true, false, none, some, List, [], ◌∷◌, ◌++◌, arith, length,
  take, replicate, Bytes, codes, str_eq, all, ℤ, pos, negsuc, before_char, Files, write_file,
  read_lines, read-write,
}

abbrev net : Bytes
net = codes "net"

abbrev net_lines : List Bytes
net_lines = codes "ip=1" ∷ codes "mode=dhcp" ∷ []

-- Only `net` has settings.
abbrev stored : Bytes → Files
stored content = write_file (config_path net) content (λ q. none)

abbrev works : System
works = record { opens_old = true; opens_tmp = true; stored = λ t. t; renames = true }

works-IsWorking : IsWorking works
works-IsWorking = record { opens_old = refl; opens_tmp = refl; stored = λ t. refl; renames = refl }

abbrev refuses : System
refuses = record works { renames = false }

stored_same : (content : Bytes) → stored content (config_path net) ≡ some content
stored_same content = read-write (config_path net) content (λ q. none)

net_held : Holds (stored (join_lines net_lines) (config_path net)) net_lines
unfolding all
net_held =
    subst (λ c. Holds c net_lines) (sym (stored_same (join_lines net_lines)))
      (refl, ((refl, omega arith), ((refl, omega arith), tt)))

new-IsLine : IsLine (setting (codes "mode") (codes "off"))
unfolding all
new-IsLine = (refl, omega arith)

get_mode : config_get (stored (codes "ip=1\n")) net (codes "ip") ≡ some (codes "1")
unfolding config_get write_file str_eq read_lines before_char
get_mode = refl

short_name : length net < 234
short_name = omega arith

mode_text : all is_text (codes "mode") ≡ true
unfolding all
mode_text = refl

ip_text : all is_text (codes "ip") ≡ true
unfolding all
ip_text = refl

ip_key : is_key (codes "ip") ≡ true
unfolding all
ip_key = refl

mode_key : is_key (codes "mode") ≡ true
unfolding all
mode_key = refl

ip_mode : codes "ip" ≢ codes "mode"
ip_mode e = cc

stripped : strip_end (codes "off") ≡ codes "off"
unfolding strip_end strip_byte
stripped = refl

unended_text : all is_text (setting (codes "ip") (codes "1")) ≡ true
unfolding all
unended_text = refl

abbrev mode_off : ℤ × Files
mode_off = config_set works (stored (join_lines net_lines)) net (codes "mode") (codes "off")

config_set_lem_example :
    (mode_off.0 ≡ pos 0)
    × Holds (mode_off.1 (config_path net)) (update (codes "mode") (codes "off") net_lines)
    × ((q : Bytes)
        → q ≢ config_path net
        → q ≢ tmp_path (config_path net)
        → mode_off.1 q ≡ stored (join_lines net_lines) q)
config_set_lem_example =
    config_set_lem works (stored (join_lines net_lines)) net (codes "mode") (codes "off") net_lines
      works-IsWorking net_held short_name new-IsLine

config_get-set_example : config_get mode_off.1 net (codes "mode") ≡ some (codes "off")
config_get-set_example =
    config_get-set works (stored (join_lines net_lines)) net (codes "mode") (codes "off") net_lines
      works-IsWorking net_held short_name new-IsLine stripped

config_get-set_ne_example :
    config_get mode_off.1 net (codes "ip")
    ≡ config_get (stored (join_lines net_lines)) net (codes "ip")
config_get-set_ne_example =
    config_get-set_ne works (stored (join_lines net_lines)) net (codes "ip") (codes "mode")
      (codes "off") net_lines works-IsWorking net_held short_name new-IsLine ip_text ip_key mode_key
      ip_mode

abbrev mode_lost : ℤ × Files
mode_lost = config_set refuses (stored (join_lines net_lines)) net (codes "mode") (codes "off")

abbrev mode_joined : ℤ × Files
mode_joined = config_set works (stored (codes "ip=1")) net (codes "mode") (codes "off")

abbrev boots : List BootEntry
boots =
    record { timestamp = 1700000000; slot = 97; success = pos 1; boot_time_ms = 4200 }
    ∷ record { timestamp = 1700000100; slot = 98; success = pos 0; boot_time_ms = 31000 }
    ∷ []

boot_log_read-add_example : boot_log_read (add_boots boots (λ q. none)) (pos 8) ≡ boots
boot_log_read-add_example =
    boot_log_read-add boots (λ q. none) (pos 8) refl
      (
        record {
          fits_timestamp = omega arith;
          visible = omega arith;
          fits_success = omega arith;
          fits_ms = omega arith;
        },
        (
          record {
            fits_timestamp = omega arith;
            visible = omega arith;
            fits_success = omega arith;
            fits_ms = omega arith;
          },
          tt,
        ),
      )

abbrev upgrade : UpdateEntry
upgrade = record {
  ts = 1700000000;
  from_version = codes "1.0";
  to_version = codes "1.1";
  target_slot = 98;
  ok = pos 1;
}

abbrev blank : UpdateEntry
blank = record { ts = 0; from_version = []; to_version = []; target_slot = 0; ok = pos 0 }

upgrade-IsUpdateEntry : IsUpdateEntry upgrade
unfolding all
upgrade-IsUpdateEntry = record {
  fits_ts = omega arith;
  from_version = (refl, refl, omega arith);
  to_version = (refl, refl, omega arith);
  no_quote = λ q. omega arith;
  text_slot = refl;
}

update_log_read-add_example :
    update_log_read (add_updates (upgrade ∷ []) (λ q. none)) (blank ∷ blank ∷ [])
    ≡ failed upgrade ∷ []
update_log_read-add_example =
    update_log_read-add (upgrade ∷ []) (blank ∷ blank ∷ []) (λ q. none) refl
      (upgrade-IsUpdateEntry, tt)

-- 188 bytes that are 0, with a checksum that is not 0.
abbrev spoiled : Bytes
spoiled = replicate 188 0 ++ replicate 4 1

mfg_read_lem_example :
    Outcome
      (after_calls (ask_serial (some spoiled) ∷ []) fresh_mfg)
      (mfg_read (some spoiled) [] (after_calls (ask_serial (some spoiled) ∷ []) fresh_mfg))
mfg_read_lem_example = mfg_read_lem (ask_serial (some spoiled) ∷ []) (some spoiled) []

-- The rest of the partition behind it.
abbrev partition : Bytes
partition = spoiled ++ replicate 320 255

mfg_serial_unchecked_example :
    ((mfg_read (some partition) fresh_mfg.g_mfg fresh_mfg).0 ≡ negsuc 0)
    × ((mfg_serial (some partition) fresh_mfg).0 ≡ before_char 0 (take mfg_size partition))
    × ((mfg_serial (some partition) fresh_mfg).1.loaded ≡ false)
unfolding crc_matches crc_steps
mfg_serial_unchecked_example = mfg_serial_unchecked fresh_mfg partition refl (omega arith) refl refl
