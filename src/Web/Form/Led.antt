-- ===== src/Web/Form/Led.antt =====
-- services/bb-webd.c: what `handle_control_led` writes, for every body.
use nxp_imx95_building_block.Web.Form.Sent.{
  Sent, IsOverlong, IsCopied, IsLedForm, FormOf, led_form-IsLedForm,
}
use nxp_imx95_building_block.Web.Form.{
  Effect, write_to, run, sync_disks, Answer, fields, LedForm, led_form, is_empty, is_safe, write_if,
  led_file, led_effects, led_answer, handle_control_led,
}
use nxp_imx95_building_block.Common.{
  ℕ, ◌≤◌, ◌<◌, ◌≡◌, refl, ap, subst, ◌∙◌, ◌⊎◌, inl, inr, Bool, true, false, not, Option, none, some,
  List, [], ◌∷◌, ◌++◌, arith, ◌==◌, if◌then◌else◌, Bool-cases, length, length-append, take_all, All,
  All-append, Bytes, codes, all, before_char, extend_line,
}

-- A value without `&`.
abbrev pub is_value : Bytes → Bool
is_value s = all (λ c. not (38 == c)) s

-- A part in front of a sign is the first of the parts.
pub fields-part : (t s : Bytes) → is_value t ≡ true → fields (t ++ 38 ∷ s) ≡ t ∷ fields s
unfolding fields all extend_line
fields-part [] s h = refl
fields-part (c ∷ t) s h =
    let n : (c == 38) ≡ false = ground arith in
    let e : is_value t ≡ true = ground arith in rw n (ap (extend_line c) (fields-part t s e))

pub fields-last : (c : ℕ) (t : Bytes) → is_value (c ∷ t) ≡ true → fields (c ∷ t) ≡ (c ∷ t) ∷ []
unfolding fields all extend_line
fields-last c [] h = let n : (c == 38) ≡ false = ground arith in rw n refl
fields-last c (d ∷ t) h =
    let n : (c == 38) ≡ false = ground arith in
    let e : is_value (d ∷ t) ≡ true = ground arith in rw n (ap (extend_line c) (fields-last d t e))

not_empty : (s : Bytes) → s ≡ [] → is_empty s ≡ false → ⊥
not_empty s e n = let absent : true ≡ false = subst (λ t. is_empty t ≡ false) e n in cc

-- The file of an LED, for a name as it was sent.
abbrev pub file_of : Bytes → Bytes → Bytes
file_of led file = codes "/sys/class/leds/" ++ (before_char 0 led ++ file)

-- A write that the body asks for: a brightness, or one of the four safe triggers, for a name.
abbrev pub IsLedWrite : Bytes → Effect → Type 0
IsLedWrite body (write_to path text) =
    (led : Bytes) × (v : Bytes) × Sent body (codes "led") led
    × (length led < 64)
    × (is_empty (before_char 0 led) ≡ false)
    × (length v < 64)
    × (text ≡ before_char 0 v)
    × ((Sent body (codes "brightness") v × (path ≡ file_of led (codes "/brightness")))
        ⊎ (Sent body (codes "trigger") v
            × (path ≡ file_of led (codes "/trigger"))
            × (is_safe text ≡ true)))
IsLedWrite body (run command) = ⊥
IsLedWrite body sync_disks = ⊥

length-before_char : (c : ℕ) (s : Bytes) → length (before_char c s) ≤ length s
unfolding before_char
length-before_char c [] = omega arith
length-before_char c (x ∷ s) = ground (arith, length-before_char c s)

led_file-whole :
    (led file : Bytes)
    → length led < 64
    → length file < 16
    → led_file (before_char 0 led) file ≡ file_of led file
led_file-whole led file h k =
    take_all 255 (file_of led file)
      (omega (arith, h, k, length-before_char 0 led, length-append (before_char 0 led) file))

module _ (opens : Bytes → Bool) (body : Bytes) where
  write_if-IsLedWrite :
      (path text : Bytes)
      → IsLedWrite body (write_to path text)
      → All (IsLedWrite body) (write_if opens path text)
  write_if-IsLedWrite path text h = go (opens path)
    where
      go : (b : Bool) → All (IsLedWrite body) (if b then write_to path text ∷ [] else [])
      go true = (h, tt)
      go false = tt

  module _ (f : LedForm) (led : Bytes) (sent : Sent body (codes "led") led)
      (short : length led < 64) (name : f.led ≡ before_char 0 led)
      (full : is_empty (before_char 0 led) ≡ false) where
    led_file-name : (file : Bytes) → length file < 16 → led_file f.led file ≡ file_of led file
    led_file-name file k = ap (λ n. led_file n file) name ∙ led_file-whole led file short k

    trigger-IsLedWrite :
        IsCopied body (codes "trigger") f.trigger
        → is_empty f.trigger ≡ false
        → is_safe f.trigger ≡ true
        → IsLedWrite body (write_to (led_file f.led (codes "/trigger")) f.trigger)
    trigger-IsLedWrite (inl e) n safe = absurd (not_empty f.trigger e n)
    trigger-IsLedWrite (inr (v, s, l, e)) n safe = (
      led,
      v,
      sent,
      short,
      full,
      l,
      e,
      inr (s, led_file-name (codes "/trigger") (omega arith), safe),
    )

    bright-IsLedWrite :
        IsCopied body (codes "brightness") f.val_str
        → is_empty f.val_str ≡ false
        → IsLedWrite body (write_to (led_file f.led (codes "/brightness")) f.val_str)
    bright-IsLedWrite (inl e) n = absurd (not_empty f.val_str e n)
    bright-IsLedWrite (inr (v, s, l, e)) n = (
      led,
      v,
      sent,
      short,
      full,
      l,
      e,
      inl (s, led_file-name (codes "/brightness") (omega arith)),
    )

    effects-IsLedWrite : IsLedForm body f → All (IsLedWrite body) (led_effects opens f)
    unfolding led_effects
    effects-IsLedWrite h =
        All-append (IsLedWrite body)
          (if is_empty f.trigger then [] else if is_safe f.trigger then triggered else []) _
          (trigger_all (Bool-cases (is_empty f.trigger)) (Bool-cases (is_safe f.trigger)))
          (bright_all (Bool-cases (is_empty f.val_str)))
      where
        triggered : List Effect
        triggered = write_if opens (led_file f.led (codes "/trigger")) f.trigger

        trigger_all :
            (is_empty f.trigger ≡ true) ⊎ (is_empty f.trigger ≡ false)
            → (is_safe f.trigger ≡ true) ⊎ (is_safe f.trigger ≡ false)
            → All
                (IsLedWrite body)
                (if is_empty f.trigger then [] else if is_safe f.trigger then triggered else [])
        trigger_all (inl a) b = rw a tt
        trigger_all (inr a) (inl b) =
            rw (a, b)
              (write_if-IsLedWrite (led_file f.led (codes "/trigger")) f.trigger
                (trigger-IsLedWrite h.trigger_copied a b))
        trigger_all (inr a) (inr b) = rw (a, b) tt

        bright_all :
            (is_empty f.val_str ≡ true) ⊎ (is_empty f.val_str ≡ false)
            → All (IsLedWrite body) (
                if is_empty f.val_str
                then []
                else write_if opens (led_file f.led (codes "/brightness")) f.val_str)
        bright_all (inl a) = rw a tt
        bright_all (inr a) = rw a (
            write_if-IsLedWrite (led_file f.led (codes "/brightness")) f.val_str
              (bright-IsLedWrite h.val_copied a))

-- The effects of an answer, where there is one.
abbrev pub effects_of : Option Answer → List Effect
effects_of none = []
effects_of (some a) = a.1

-- What a run of the handler has done, or why it has left a buffer.
abbrev pub IsLedAnswer : Bytes → Option Answer → Type 0
IsLedAnswer body none = IsOverlong body
IsLedAnswer body (some a) = All (IsLedWrite body) a.1

-- Whatever the body of the request, `handle_control_led` runs no command, and writes nothing but a
-- brightness that the body sends to the brightness file, and one of the four safe triggers, which the
-- body sends, to the trigger file, of a name of 1 to 63 bytes that the body sends; each up to a NUL, and
-- the path is never cut. The name is put in as it was sent, also with "/" and "..". It writes behind a
-- buffer only if the body sends a name, a brightness or a trigger of 64 bytes or more.
pub handle_control_led-IsLedAnswer :
    (opens : Bytes → Bool) (body : Bytes) → IsLedAnswer body (handle_control_led opens body)
unfolding handle_control_led led_answer
handle_control_led-IsLedAnswer opens body = go (led_form body) (led_form-IsLedForm body)
  where
    named :
        (f : LedForm)
        → IsLedForm body f
        → IsCopied body (codes "led") f.led
        → is_empty f.led ≡ false
        → All (IsLedWrite body) (led_effects opens f)
    named f h (inl e) n = absurd (not_empty f.led e n)
    named f h (inr (led, s, l, e)) n =
        effects-IsLedWrite opens body f led s l e (subst (λ t. is_empty t ≡ false) e n) h

    go : (o : Option LedForm) → FormOf body o → IsLedAnswer body (led_answer opens o)
    go none h = h
    go (some f) h = elim (Bool-cases (is_empty f.led)) [
      | inl e ↦ rw e tt
      | inr e ↦ rw e (named f h h.led_copied e)
    ]
