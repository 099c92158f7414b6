-- ===== src/Web/Form/Sent.antt =====
-- services/bb-webd.c: the form parser of `handle_control_led` keeps values that the body sends.
use nxp_imx95_building_block.Web.Form.{
  fields, LedForm, copy_value, set_led, set_val, set_trigger, led_pair, led_fields, led_form,
}
use nxp_imx95_building_block.Common.{
  ℕ, ◌≤◌, ◌<◌, ◌≡◌, refl, sym, ap, ap₂, subst, ◌∙◌, ◌⊎◌, inl, inr, Bool, true, false, ◌||◌, Option,
  none, some, List, [], ◌∷◌, ◌++◌, append_assoc, arith, ltb, ◌==◌, if◌then◌else◌, ltb→lt,
  Bool-cases, length, take_all, Bytes, codes, str_eq, str_eq→eq, after_char, before_char,
}

-- One of the parts of the body is this key with this value.
abbrev pub Sent : Bytes → Bytes → Bytes → Type 0
Sent body key v =
    (before : List Bytes) × (after : List Bytes) × (fields body ≡ before ++ (key ++ 61 ∷ v) ∷ after)

-- A buffer is empty, or holds a value of its key, up to a NUL, and the value has room with its NUL.
abbrev pub IsCopied : Bytes → Bytes → Bytes → Type 0
IsCopied body key s =
    (s ≡ []) ⊎ ((v : Bytes) × Sent body key v × (length v < 64) × (s ≡ before_char 0 v))

-- The keys whose values are copied into buffers.
abbrev pub is_led_key : Bytes → Bool
is_led_key key =
    str_eq key (codes "led") || str_eq key (codes "brightness") || str_eq key (codes "trigger")

-- The body sends a value that has no room.
abbrev pub IsOverlong : Bytes → Type 0
IsOverlong body =
    (key : Bytes) × (v : Bytes) × (is_led_key key ≡ true) × Sent body key v × (64 ≤ length v)

pub record IsLedForm (body : Bytes) (f : LedForm) : Type 0 where
  pub led_copied : IsCopied body (codes "led") f.led
  pub val_copied : IsCopied body (codes "brightness") f.val_str
  pub trigger_copied : IsCopied body (codes "trigger") f.trigger

abbrev pub FormOf : Bytes → Option LedForm → Type 0
FormOf body none = IsOverlong body
FormOf body (some f) = IsLedForm body f

abbrev CopyOf : Bytes → Bytes → Option Bytes → Type 0
CopyOf body key none = (v : Bytes) × Sent body key v × (64 ≤ length v)
CopyOf body key (some s) = IsCopied body key s

copy_value-IsCopied : (body key v : Bytes) → Sent body key v → CopyOf body key (copy_value v)
unfolding copy_value
copy_value-IsCopied body key v h = elim (Bool-cases (ltb (length v) 64)) [
  | inl e ↦
      let l : length v < 64 = ltb→lt (length v) 64 e in
      rw e (inr (v, h, l, ap (before_char 0) (take_all 63 v (omega arith))))
  | inr e ↦ let l : 64 ≤ length v = ground (arith, e) in rw e (v, h, l)
]

-- The text around the first sign.
char-split : (c : ℕ) (t v : Bytes) → after_char c t ≡ some v → t ≡ before_char c t ++ c ∷ v
unfolding after_char before_char
char-split c [] v h = cc
char-split c (x ∷ t) v h = elim (Bool-cases (x == c)) [
  | inl e ↦
      let same : x ≡ c = ground (arith, e) in
      let rest : t ≡ v = found x t v e h in rw e (ap₂ ◌∷◌ same rest)
  | inr e ↦ rw e (ap (◌∷◌ x) (char-split c t v (later x t v e h)))
]
  where
    found :
        (x : ℕ) (t v : Bytes)
        → (x == c) ≡ true
        → (if x == c then some t else after_char c t) ≡ some v
        → t ≡ v
    found x t v e h =
        let k : some t ≡ some v =
          subst (λ b. (if b then some t else after_char c t) ≡ some v) e h in
        cc

    later :
        (x : ℕ) (t v : Bytes)
        → (x == c) ≡ false
        → (if x == c then some t else after_char c t) ≡ some v
        → after_char c t ≡ some v
    later x t v e h = subst (λ b. (if b then some t else after_char c t) ≡ some v) e h

set_led-IsLedForm :
    (body : Bytes) (f : LedForm) (o : Option Bytes)
    → IsLedForm body f
    → CopyOf body (codes "led") o
    → FormOf body (set_led f o)
unfolding str_eq
set_led-IsLedForm body f none h (v, s, l) = (codes "led", v, refl, s, l)
set_led-IsLedForm body f (some s) h k = record {
  led_copied = k;
  val_copied = h.val_copied;
  trigger_copied = h.trigger_copied;
}

set_val-IsLedForm :
    (body : Bytes) (f : LedForm) (o : Option Bytes)
    → IsLedForm body f
    → CopyOf body (codes "brightness") o
    → FormOf body (set_val f o)
unfolding str_eq
set_val-IsLedForm body f none h (v, s, l) = (codes "brightness", v, refl, s, l)
set_val-IsLedForm body f (some s) h k = record {
  led_copied = h.led_copied;
  val_copied = k;
  trigger_copied = h.trigger_copied;
}

set_trigger-IsLedForm :
    (body : Bytes) (f : LedForm) (o : Option Bytes)
    → IsLedForm body f
    → CopyOf body (codes "trigger") o
    → FormOf body (set_trigger f o)
unfolding str_eq
set_trigger-IsLedForm body f none h (v, s, l) = (codes "trigger", v, refl, s, l)
set_trigger-IsLedForm body f (some s) h k = record {
  led_copied = h.led_copied;
  val_copied = h.val_copied;
  trigger_copied = k;
}

pair-IsLedForm :
    (body : Bytes) (f : LedForm) (key : Bytes) (o : Option Bytes)
    → IsLedForm body f
    → ((v : Bytes) → o ≡ some v → Sent body key v)
    → FormOf body (led_pair f key o)
unfolding led_pair
pair-IsLedForm body f key none h sent = h
pair-IsLedForm body f key (some []) h sent = h
pair-IsLedForm body f key (some (c ∷ val)) h sent =
    chosen (codes "led") (set_led f (copy_value (c ∷ val))) _
      (λ s.
        set_led-IsLedForm body f (copy_value (c ∷ val)) h
          (copy_value-IsCopied body (codes "led") (c ∷ val) s))
      (chosen (codes "brightness") (set_val f (copy_value (c ∷ val))) _
        (λ s.
          set_val-IsLedForm body f (copy_value (c ∷ val)) h
            (copy_value-IsCopied body (codes "brightness") (c ∷ val) s))
        (chosen (codes "trigger") (set_trigger f (copy_value (c ∷ val))) (some f)
          (λ s.
            set_trigger-IsLedForm body f (copy_value (c ∷ val)) h
              (copy_value-IsCopied body (codes "trigger") (c ∷ val) s))
          h))
  where
    chosen :
        (word : Bytes) (x y : Option LedForm)
        → (Sent body word (c ∷ val) → FormOf body x)
        → FormOf body y
        → FormOf body (if str_eq key word then x else y)
    chosen word x y a b = elim (Bool-cases (str_eq key word)) [
      | inl e ↦
          rw e (a (subst (λ k. Sent body k (c ∷ val)) (str_eq→eq key word e) (sent (c ∷ val) refl)))
      | inr e ↦ rw e b
    ]

fields-IsLedForm :
    (body : Bytes) (before ts : List Bytes) (o : Option LedForm)
    → fields body ≡ before ++ ts
    → FormOf body o
    → FormOf body (led_fields ts o)
unfolding led_fields
fields-IsLedForm body before [] none e h = h
fields-IsLedForm body before (t ∷ ts) none e h = h
fields-IsLedForm body before [] (some f) e h = h
fields-IsLedForm body before (t ∷ ts) (some f) e h =
    fields-IsLedForm body (before ++ t ∷ []) ts (led_pair f (before_char 61 t) (after_char 61 t))
      (e ∙ sym (append_assoc before (t ∷ []) ts))
      (pair-IsLedForm body f (before_char 61 t) (after_char 61 t) h
        (λ v q. (before, ts, e ∙ ap (λ p. before ++ p ∷ ts) (char-split 61 t v q))))

-- The buffers of the parser hold values of the body, or one of these has no room.
pub led_form-IsLedForm : (body : Bytes) → FormOf body (led_form body)
unfolding led_form
led_form-IsLedForm body =
    fields-IsLedForm body [] (fields body) (some (record { led = []; val_str = []; trigger = [] }))
      refl (record { led_copied = inl refl; val_copied = inl refl; trigger_copied = inl refl })
