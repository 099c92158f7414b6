-- ===== src/Persist/Mfg/Checked.antt =====
-- libbb/bb_persist.c: manufacturing data is handed out by bb_mfg_read only when its checksum matches,
-- by the functions for its fields also when it does not.
use nxp_imx95_building_block.Persist.Mfg.{
  mfg_size, Mfg, crc_matches, overlay, mfg_read, mfg_load, mfg_serial, mfg_hw_revision,
  mfg_part_number, checked, read_device,
}
use nxp_imx95_building_block.Common.{
  ◌≤◌, ◌≡◌, refl, sym, ap, subst, ◌∙◌, ◌⊎◌, inl, inr, Bool, true, false, not, ◌||◌, Option, none,
  some, List, [], ◌∷◌, append-nil, arith, ◌==◌, if◌then◌else◌, Bool-cases, length, take, drop,
  replicate, length-take, drop_all, Bytes, ℤ, pos, negsuc, before_char,
}

-- The state of a program that was just started.
abbrev pub fresh_mfg : Mfg
fresh_mfg = record { loaded = false; g_mfg = replicate mfg_size 0 }

pub data MfgCall : Type 0 where
  ask_all : Option Bytes → Bytes → MfgCall
  ask_serial : Option Bytes → MfgCall
  ask_hw_revision : Option Bytes → MfgCall
  ask_part_number : Option Bytes → MfgCall

unfoldable pub after_call : MfgCall → Mfg → Mfg
unfolding mfg_read mfg_serial mfg_hw_revision mfg_part_number
after_call (ask_all device out) m = (mfg_read device out m).2
after_call (ask_serial device) m = (mfg_serial device m).1
after_call (ask_hw_revision device) m = (mfg_hw_revision device m).1
after_call (ask_part_number device) m = (mfg_part_number device m).1

unfoldable pub after_calls : List MfgCall → Mfg → Mfg
unfolding after_call
after_calls [] m = m
after_calls (c ∷ cs) m = after_calls cs (after_call c m)

-- What is kept as loaded has its checksum.
abbrev pub IsChecked : Mfg → Type 0
IsChecked m = (not m.loaded || crc_matches m.g_mfg) ≡ true

-- Refused, with the state as it was; or handed out with its checksum, and kept.
abbrev pub Outcome : Mfg → ℤ × Bytes × Mfg → Type 0
Outcome m r =
    ((r.0 ≡ negsuc 0) × (r.2 ≡ m))
    ⊎ ((r.0 ≡ pos 0) × (crc_matches r.1 ≡ true) × (r.2.loaded ≡ true) × (r.2.g_mfg ≡ r.1))

checked-Outcome : (out : Bytes) (m : Mfg) → Outcome m (checked out m)
checked-Outcome out m = go (crc_matches out) refl
  where
    go :
        (b : Bool)
        → crc_matches out ≡ b
        → Outcome m
            (if b then (pos 0, out, record { loaded = true; g_mfg = out }) else (negsuc 0, out, m))
    go true e = inr (refl, e, refl, refl)
    go false e = inl (refl, refl)

device-Outcome :
    (device : Option Bytes) (out : Bytes) (m : Mfg) → Outcome m (read_device device out m)
device-Outcome none out m = inl (refl, refl)
device-Outcome (some content) out m =
    let got = take mfg_size content in
    elim (Bool-cases (length got == mfg_size)) [
      | inl e ↦ rw e (checked-Outcome (overlay got out) m)
      | inr e ↦ rw e (inl (refl, refl))
    ]

read-Outcome :
    (device : Option Bytes) (out : Bytes) (m : Mfg)
    → IsChecked m
    → Outcome m (mfg_read device out m)
unfolding mfg_read
read-Outcome device out m h = go m.loaded refl
  where
    go :
        (b : Bool)
        → m.loaded ≡ b
        → Outcome m (if b then (pos 0, m.g_mfg, m) else read_device device out m)
    go true e = inr (refl, subst (λ b. (not b || crc_matches m.g_mfg) ≡ true) e h, e, refl)
    go false e = device-Outcome device out m

Outcome-IsChecked : (m : Mfg) (r : ℤ × Bytes × Mfg) → IsChecked m → Outcome m r → IsChecked r.2
Outcome-IsChecked m r h (inl o) = subst IsChecked (sym o.1) h
Outcome-IsChecked m r h (inr o) =
    let c : crc_matches r.2.g_mfg ≡ true = ap crc_matches o.3 ∙ o.1 in rw (o.2, c) refl

load-IsChecked : (device : Option Bytes) (m : Mfg) → IsChecked m → IsChecked (mfg_load device m)
unfolding mfg_load mfg_read
load-IsChecked device m h = go m.loaded refl
  where
    kept :
        m.loaded ≡ false
        → Outcome m (read_device device m.g_mfg m)
        → IsChecked (record {
          loaded = (read_device device m.g_mfg m).2.loaded;
          g_mfg = (read_device device m.g_mfg m).1;
        })
    kept e (inl o) =
        let l : (read_device device m.g_mfg m).2.loaded ≡ false = ap (λ n. n.loaded) o.1 ∙ e in
        rw l refl
    kept e (inr o) = rw (o.2, o.1) refl

    go :
        (b : Bool)
        → m.loaded ≡ b
        → IsChecked (
            if b
            then m
            else (let r = if b then (pos 0, m.g_mfg, m) else read_device device m.g_mfg m in
                record { loaded = r.2.loaded; g_mfg = r.1 }))
    go true e = h
    go false e = kept e (device-Outcome device m.g_mfg m)

call-IsChecked : (c : MfgCall) (m : Mfg) → IsChecked m → IsChecked (after_call c m)
unfolding after_call mfg_serial mfg_hw_revision mfg_part_number
call-IsChecked (ask_all device out) m h =
    Outcome-IsChecked m (mfg_read device out m) h (read-Outcome device out m h)
call-IsChecked (ask_serial device) m h = load-IsChecked device m h
call-IsChecked (ask_hw_revision device) m h = load-IsChecked device m h
call-IsChecked (ask_part_number device) m h = load-IsChecked device m h

calls-IsChecked : (cs : List MfgCall) (m : Mfg) → IsChecked m → IsChecked (after_calls cs m)
unfolding after_calls
calls-IsChecked [] m h = h
calls-IsChecked (c ∷ cs) m h = calls-IsChecked cs (after_call c m) (call-IsChecked c m h)

-- After any calls, `bb_mfg_read` either returns -1 and leaves the state as it was, or returns 0 with
-- data whose checksum matches, which is then kept.
pub mfg_read_lem :
    (cs : List MfgCall) (device : Option Bytes) (out : Bytes)
    → Outcome (after_calls cs fresh_mfg) (mfg_read device out (after_calls cs fresh_mfg))
mfg_read_lem cs device out =
    read-Outcome device out (after_calls cs fresh_mfg) (calls-IsChecked cs fresh_mfg refl)

-- Until data with a matching checksum was read, `bb_mfg_serial` returns the string at the front of the
-- partition, up to the end of the struct, although its checksum does not match, and keeps nothing as
-- loaded; for every partition that is at least as long as the struct.
pub mfg_serial_unchecked :
    (m : Mfg) (content : Bytes)
    → m.loaded ≡ false
    → mfg_size ≤ length content
    → length m.g_mfg ≡ mfg_size
    → crc_matches (take mfg_size content) ≡ false
    → ((mfg_read (some content) m.g_mfg m).0 ≡ negsuc 0)
      × ((mfg_serial (some content) m).0 ≡ before_char 0 (take mfg_size content))
      × ((mfg_serial (some content) m).1.loaded ≡ false)
unfolding mfg_serial mfg_load mfg_read
mfg_serial_unchecked m content l n k c =
    let got = take mfg_size content in
    let whole : length got ≡ mfg_size = omega (arith, n, length-take mfg_size content) in
    let none_left : drop (length got) m.g_mfg ≡ [] =
      drop_all (length got) m.g_mfg (omega (arith, whole, k)) in
    let full : (length got == mfg_size) ≡ true = ground (arith, whole) in
    rw (l, full, none_left, append-nil got, c) (refl, refl, refl)
