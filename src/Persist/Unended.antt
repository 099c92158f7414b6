-- ===== src/Persist/Unended.antt =====
-- libbb/bb_persist.c: `bb_persist_config_set` on a file whose last line has no line end.
use nxp_imx95_building_block.Persist.{
  System, line_max, config_path, value_of, pick_value, config_get, setting, copy_line, copy_lines,
  copy_from, finish, config_set,
}
use nxp_imx95_building_block.Persist.Lines.{find_line}
use nxp_imx95_building_block.Persist.Config.{IsWorking, Holds, config_get_lem, text_key, written}
use nxp_imx95_building_block.Persist.Update.{is_key, value_of-other}
use nxp_imx95_building_block.Framing.{join_lines, is_text}
use nxp_imx95_building_block.Common.{
  ℕ, ◌-◌, ◌≤◌, ◌<◌, ◌≡◌, refl, sym, ap, ap₂, subst, ◌∙◌, ◌≢◌, true, false, ◌&&◌, none, some, [],
  ◌∷◌, ◌++◌, append-nil, append_assoc, arith, leb, ◌==◌, length, length-append, Bytes, all,
  all-append, pos, before_char, Files, extend_line, read_lines,
}

-- The last line of a file without a line end.
unended :
    (l : Bytes) (room : ℕ)
    → all is_text l ≡ true
    → length l < room
    → l ≢ []
    → read_lines line_max room l ≡ l ∷ []
unfolding read_lines extend_line all
unended [] room h k ne = absurd (ne refl)
unended (c ∷ []) room h k ne =
    let n : (c == 10) ≡ false = ground arith in
    let r : leb room 1 ≡ false = ground arith in rw (n, r) refl
unended (c ∷ d ∷ l) room h k ne =
    let n : (c == 10) ≡ false = ground arith in
    let r : leb room 1 ≡ false = ground arith in
    let e : all is_text (d ∷ l) ≡ true = ground arith in
    rw (n, r) (ap (extend_line c) (unended (d ∷ l) (room - 1) e (omega arith) (λ t. cc)))

before_char-text : (l : Bytes) → all is_text l ≡ true → before_char 0 l ≡ l
unfolding before_char all
before_char-text [] h = refl
before_char-text (c ∷ l) h =
    let n : (c == 0) ≡ false = ground arith in rw n (ap (◌∷◌ c) (before_char-text l (ground arith)))

setting_some : (j w : Bytes) → setting j w ≢ []
setting_some [] w e = cc
setting_some (c ∷ j) w e = cc

module _ (j w key value : Bytes) (t : all is_text (setting j w) ≡ true) (a : is_key j ≡ true)
    (b : is_key key ≡ true) (ne : j ≢ key) where
  value_of-joined : (more : Bytes) → value_of key (setting j w ++ more) ≡ none
  value_of-joined more =
      ap (value_of key) (append_assoc j (61 ∷ w) more)
      ∙ value_of-other key j (w ++ more) b a (λ e. ne (sym e))

  copied_joined :
      length (setting j w) < 511
      → finish key value (copy_lines key value (read_lines line_max line_max (setting j w)))
        ≡ join_lines ((setting j w ++ setting key value) ∷ [])
  unfolding finish copy_lines copy_line join_lines
  copied_joined k =
      rw
        (
          unended (setting j w) line_max t k (setting_some j w),
          before_char-text (setting j w) t,
          value_of-other key j w b a (λ e. ne (sym e)),
        )
        (ap (λ x. x ++ (setting key value ++ 10 ∷ [])) (append-nil (setting j w))
          ∙ sym (append_assoc (setting j w) (setting key value) (10 ∷ [])))

-- When the file is one setting without a line end behind it, a setting of another key that is written
-- is lost: the call returns 0 and reading the key gives NULL. The two settings together fill at most
-- 510 bytes and hold neither a line end nor a NUL, the keys hold no `=`, the name of the settings is
-- shorter than 234 bytes, the files open, the disk takes the text and the file is renamed.
pub config_set_unended :
    (sys : System) (files : Files) (ns j w key value : Bytes)
    → IsWorking sys
    → length ns < 234
    → files (config_path ns) ≡ some (setting j w)
    → all is_text (setting j w) ≡ true
    → all is_text (setting key value) ≡ true
    → length (setting j w ++ setting key value) ≤ 510
    → is_key j ≡ true
    → is_key key ≡ true
    → j ≢ key
    → ((config_set sys files ns key value).0 ≡ pos 0)
      × (config_get (config_set sys files ns key value).1 ns key ≡ none)
unfolding copy_from config_set find_line pick_value
config_set_unended sys files ns j w key value works n f t u k a b ne =
    let joined = setting j w ++ setting key value in
    let after = config_set sys files ns key value in
    let now : after.1 (config_path ns) ≡ some (join_lines (joined ∷ [])) =
      written sys files ns key value works n
      ∙ ap (λ c. some (finish key value (copy_from c c key value))) f
      ∙ ap some (
          copied_joined j w key value t a b ne
            (omega (arith, k, length-append (setting j w) (setting key value)))) in
    let text : all is_text joined ≡ true =
      all-append is_text (setting j w) (setting key value) ∙ ap₂ ◌&&◌ t u in
    (
      returned sys files ns key value works.opens_tmp,
      config_get_lem after.1 ns key (joined ∷ [])
            (subst (λ c. Holds c (joined ∷ [])) (sym now) (refl, ((text, k), tt)))
            (text_key key value u)
          ∙ ap (λ v. pick_value v none)
              (value_of-joined j w key value t a b ne (setting key value)),
    )
  where
    returned :
        (sys : System) (files : Files) (ns key value : Bytes)
        → sys.opens_tmp ≡ true
        → (config_set sys files ns key value).0 ≡ pos 0
    returned sys files ns key value o = rw o refl
