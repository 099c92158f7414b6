-- ===== src/Web/Form/Overflow.antt =====
-- services/bb-webd.c: the NUL that `handle_control_led` stores behind a buffer.
use nxp_imx95_building_block.Web.Form.Sent.{Sent, is_led_key}
use nxp_imx95_building_block.Web.Form.{
  LedForm, copy_value, led_pair, led_fields, led_form, led_answer, handle_control_led,
}
use nxp_imx95_building_block.Common.{
  ℕ, ◌≤◌, ◌≡◌, refl, sym, ap, ap₂, subst, ◌∙◌, inl, inr, Bool, true, false, Option, none, some,
  List, [], ◌∷◌, ◌++◌, arith, ltb, Bool-cases, length, Bytes, codes, str_eq, str_eq→eq, all,
  after_char, before_char, lacks, before_char-lacks, after_char-lacks,
}

copy_value-long : (val : Bytes) → 64 ≤ length val → copy_value val ≡ none
unfolding copy_value
copy_value-long val h = let e : ltb (length val) 64 ≡ false = ground arith in rw e refl

led_key-lacks : (key : Bytes) → is_led_key key ≡ true → lacks 61 key ≡ true
unfolding all
led_key-lacks key h = elim (Bool-cases (str_eq key (codes "led"))) [
  | inl e ↦ subst (λ k. lacks 61 k ≡ true) (sym (str_eq→eq key (codes "led") e)) refl
  | inr e ↦ elim (Bool-cases (str_eq key (codes "brightness"))) [
    | inl a ↦ subst (λ k. lacks 61 k ≡ true) (sym (str_eq→eq key (codes "brightness") a)) refl
    | inr a ↦
        let b : str_eq key (codes "trigger") ≡ true = ground (arith, h, e, a) in
        subst (λ k. lacks 61 k ≡ true) (sym (str_eq→eq key (codes "trigger") b)) refl
  ]
]

led_pair-long :
    (f : LedForm) (key : Bytes) (c : ℕ) (val : Bytes)
    → is_led_key key ≡ true
    → 64 ≤ length (c ∷ val)
    → led_pair f key (some (c ∷ val)) ≡ none
unfolding led_pair
led_pair-long f key c val h k =
    let long = copy_value-long (c ∷ val) k in
    elim (Bool-cases (str_eq key (codes "led"))) [
      | inl e ↦ rw (e, long) refl
      | inr e ↦ elim (Bool-cases (str_eq key (codes "brightness"))) [
        | inl a ↦ rw (e, a, long) refl
        | inr a ↦
            let b : str_eq key (codes "trigger") ≡ true = ground (arith, h, e, a) in
            rw (e, a, b, long) refl
      ]
    ]

led_fields-none : (ts : List Bytes) → led_fields ts none ≡ none
unfolding led_fields
led_fields-none [] = refl
led_fields-none (t ∷ ts) = refl

led_fields-long :
    (before : List Bytes) (t : Bytes) (after : List Bytes) (o : Option LedForm)
    → ((f : LedForm) → led_pair f (before_char 61 t) (after_char 61 t) ≡ none)
    → led_fields (before ++ t ∷ after) o ≡ none
unfolding led_fields
led_fields-long before t after none h = led_fields-none (before ++ t ∷ after)
led_fields-long [] t after (some f) h = ap (led_fields after) (h f) ∙ led_fields-none after
led_fields-long (x ∷ before) t after (some f) h =
    led_fields-long before t after (led_pair f (before_char 61 x) (after_char 61 x)) h

-- A body in which, at any place among its parts, the name of the LED, its brightness or its trigger has
-- 64 bytes or more makes the handler write behind a buffer.
pub handle_control_led_overflow :
    (opens : Bytes → Bool) (body key : Bytes) (c : ℕ) (val : Bytes)
    → is_led_key key ≡ true
    → 64 ≤ length (c ∷ val)
    → Sent body key (c ∷ val)
    → handle_control_led opens body ≡ none
unfolding handle_control_led led_form led_answer
handle_control_led_overflow opens body key c val h k (before, after, e) =
    let t = key ++ 61 ∷ c ∷ val in
    let name = before_char-lacks 61 key (c ∷ val) (led_key-lacks key h) in
    let value = after_char-lacks 61 key (c ∷ val) (led_key-lacks key h) in
    ap (led_answer opens) (
      ap (λ ts. led_fields ts (some (record { led = []; val_str = []; trigger = [] }))) e
      ∙ led_fields-long before t after (some (record { led = []; val_str = []; trigger = [] }))
          (λ f. ap₂ (led_pair f) name value ∙ led_pair-long f key c val h k))
