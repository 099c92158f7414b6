-- ===== src/Persist/Logs/Members.antt =====
-- libbb/bb_persist.c: where the names of the members stand in a line of the update log.

use nxp_imx95_building_block.Persist.Lines.{end_line}
use nxp_imx95_building_block.Persist.Logs.{UpdateEntry, update_line}
use nxp_imx95_building_block.Framing.{is_text}
use nxp_imx95_building_block.Common.{
  ◌^◌, ◌<◌, ◌≡◌, refl, sym, ap, ◌∙◌, ◌≢◌, inl, inr, true, false, some, [], ◌∷◌, ◌++◌, append_assoc,
  arith, ◌==◌, ==_ne, Bool-cases, length, Bytes, codes, starts_with, all, decimal, print_int,
  after_match, after_match-first, lacks, IsFirst-lacks, is_first, IsFirst-test, decimal-lacks,
  after_match-append,
}

-- A version that fits its array, without quotes and line ends.
abbrev pub IsVersion : Bytes → Type 0
IsVersion v = (lacks 34 v ≡ true) × (all is_text v ≡ true) × (length v < 32)

pub record IsUpdateEntry (e : UpdateEntry) : Type 0 where
  pub fits_ts : e.ts < 2 ^ 64
  pub from_version : IsVersion e.from_version
  pub to_version : IsVersion e.to_version
  pub no_quote : e.target_slot ≢ 34
  pub text_slot : is_text e.target_slot ≡ true

-- The name of a member with its quotes and its colon.
abbrev key : Bytes → Bytes → Bytes
key q r = 34 ∷ (q ++ 34 ∷ 58 ∷ r)

-- A quoted text with a comma behind it is no name of a member.
starts_with-value :
    (q r v s : Bytes)
    → lacks 34 q ≡ true
    → lacks 34 v ≡ true
    → starts_with (q ++ 34 ∷ 58 ∷ r) (v ++ 34 ∷ 44 ∷ s) ≡ false
unfolding starts_with all
starts_with-value [] r [] s h k = refl
starts_with-value [] r (c ∷ v) s h k = let n : (34 == c) ≡ false = ground arith in rw n refl
starts_with-value (x ∷ q) r [] s h k = let n : (x == 34) ≡ false = ground arith in rw n refl
starts_with-value (x ∷ q) r (c ∷ v) s h k =
    let e : lacks 34 q ≡ true = ground arith in
    let f : lacks 34 v ≡ true = ground arith in
    elim (Bool-cases (x == c)) [ inl t ↦ rw t (starts_with-value q r v s e f) | inr t ↦ rw t refl ]

-- The search for a name goes on behind a member whose name is another.
skip_member :
    (q r pre v s : Bytes)
    → lacks 34 q ≡ true
    → lacks 34 v ≡ true
    → is_first (key q r) pre (34 ∷ (v ++ 34 ∷ 44 ∷ s)) ≡ true
    → after_match (key q r) (pre ++ 34 ∷ (v ++ 34 ∷ 44 ∷ s)) ≡ after_match (key q r) (34 ∷ 44 ∷ s)
unfolding starts_with
skip_member q r pre v s h k t =
    let rest = v ++ 34 ∷ 44 ∷ s in
    after_match-append (key q r) pre (34 ∷ rest) (IsFirst-test (key q r) pre (34 ∷ rest) t)
    ∙ after_match-append (key q r) (34 ∷ []) rest (starts_with-value q r v s h k, tt)
    ∙ after_match-append (key q r) v (34 ∷ 44 ∷ s)
        (IsFirst-lacks 34 (q ++ 34 ∷ 58 ∷ r) v (34 ∷ 44 ∷ s) k)

module _ (e : UpdateEntry) where
  -- The line from each member on.
  abbrev pub from_ok : Bytes
  from_ok = codes "\",\"ok\":" ++ (print_int e.ok ++ codes "}\n")

  abbrev pub from_slot : Bytes
  from_slot = codes "\",\"slot\":\"" ++ e.target_slot ∷ from_ok

  abbrev pub from_to : Bytes
  from_to = codes "\",\"to\":\"" ++ (e.to_version ++ from_slot)

  abbrev pub from_from : Bytes
  from_from = codes ",\"from\":\"" ++ (e.from_version ++ from_to)

  abbrev pub whole : Bytes
  whole = codes "{\"ts\":" ++ (decimal e.ts ++ from_from)

  pub whole-line : end_line (update_line e) ≡ whole
  unfolding update_line
  whole-line =
      let ok = codes "\",\"ok\":" ++ (print_int e.ok ++ codes "}") in
      let slot = codes "\",\"slot\":\"" ++ e.target_slot ∷ ok in
      let to = codes "\",\"to\":\"" ++ (e.to_version ++ slot) in
      let last = append_assoc (print_int e.ok) (codes "}") (10 ∷ []) in
      let last_to =
        append_assoc e.to_version slot (10 ∷ [])
        ∙ ap
            (λ t.
              e.to_version ++ (codes "\",\"slot\":\"" ++ e.target_slot ∷ (codes "\",\"ok\":" ++ t)))
            last in
      let last_from =
        append_assoc e.from_version to (10 ∷ [])
        ∙ ap (λ t. e.from_version ++ (codes "\",\"to\":\"" ++ t)) last_to in
      ap (λ t. codes "{\"ts\":" ++ t)
        (append_assoc (decimal e.ts) (codes ",\"from\":\"" ++ (e.from_version ++ to)) (10 ∷ [])
          ∙ ap (λ t. decimal e.ts ++ (codes ",\"from\":\"" ++ t)) last_from)

  skip_ts :
      (q r : Bytes)
      → is_first (key q r) (codes "{\"ts\":") (decimal e.ts ++ from_from) ≡ true
      → after_match (key q r) whole ≡ after_match (key q r) from_from
  skip_ts q r t =
      after_match-append (key q r) (codes "{\"ts\":") (decimal e.ts ++ from_from)
        (IsFirst-test (key q r) (codes "{\"ts\":") (decimal e.ts ++ from_from) t)
      ∙ after_match-append (key q r) (decimal e.ts) from_from (
          IsFirst-lacks 34 (q ++ 34 ∷ 58 ∷ r) (decimal e.ts) from_from (decimal-lacks 34 e.ts refl))

  module _ (h : IsUpdateEntry e) where
    slot_lacks : lacks 34 (e.target_slot ∷ []) ≡ true
    unfolding all
    slot_lacks =
        let n : (34 == e.target_slot) ≡ false = ==_ne 34 e.target_slot (λ q. h.no_quote (sym q)) in
        rw n refl

    pub match_ts : after_match (codes "\"ts\":") whole ≡ some (decimal e.ts ++ from_from)
    unfolding starts_with
    match_ts =
        after_match-first (codes "\"ts\":") (codes "{") (decimal e.ts ++ from_from) (refl, tt)

    pub match_from : after_match (codes "\"from\":\"") whole ≡ some (e.from_version ++ from_to)
    unfolding starts_with
    match_from =
        skip_ts (codes "from") (codes "\"") refl
        ∙ after_match-first (codes "\"from\":\"") (codes ",") (e.from_version ++ from_to) (refl, tt)

    pub match_to : after_match (codes "\"to\":\"") whole ≡ some (e.to_version ++ from_slot)
    unfolding starts_with all
    match_to =
        skip_ts (codes "to") (codes "\"") refl
        ∙ skip_member (codes "to") (codes "\"") (codes ",\"from\":") e.from_version
            (codes "\"to\":\"" ++ (e.to_version ++ from_slot)) refl h.from_version.0 refl
        ∙ after_match-first (codes "\"to\":\"") (codes "\",") (e.to_version ++ from_slot)
            (refl, (refl, tt))

    pub match_slot : after_match (codes "\"slot\":\"") whole ≡ some (e.target_slot ∷ from_ok)
    unfolding starts_with all
    match_slot =
        skip_ts (codes "slot") (codes "\"") refl
        ∙ skip_member (codes "slot") (codes "\"") (codes ",\"from\":") e.from_version
            (codes "\"to\":\"" ++ (e.to_version ++ from_slot)) refl h.from_version.0 refl
        ∙ skip_member (codes "slot") (codes "\"") (codes "\",\"to\":") e.to_version
            (codes "\"slot\":\"" ++ e.target_slot ∷ from_ok) refl h.to_version.0 refl
        ∙ after_match-first (codes "\"slot\":\"") (codes "\",") (e.target_slot ∷ from_ok)
            (refl, (refl, tt))

    pub match_ok : after_match (codes "\"ok\":") whole ≡ some (print_int e.ok ++ codes "}\n")
    unfolding starts_with all
    match_ok =
        skip_ts (codes "ok") [] refl
        ∙ skip_member (codes "ok") [] (codes ",\"from\":") e.from_version
            (codes "\"to\":\"" ++ (e.to_version ++ from_slot)) refl h.from_version.0 refl
        ∙ skip_member (codes "ok") [] (codes "\",\"to\":") e.to_version
            (codes "\"slot\":\"" ++ e.target_slot ∷ from_ok) refl h.to_version.0 refl
        ∙ skip_member (codes "ok") [] (codes "\",\"slot\":") (e.target_slot ∷ [])
            (codes "\"ok\":" ++ (print_int e.ok ++ codes "}\n")) refl slot_lacks refl
        ∙ after_match-first (codes "\"ok\":") (codes "\",") (print_int e.ok ++ codes "}\n")
            (refl, (refl, tt))
