-- ===== src/Web/Request/Walk.antt =====
-- Where a path leads: the names between its slashes, and what the test for ".." is good for.
use nxp_imx95_building_block.Common.{
  ℕ, zero, suc, ◌≡◌, refl, sym, ap, subst, ◌∙◌, ◌⊎◌, inl, inr, Bool, true, false, List, [], ◌∷◌,
  ◌++◌, append_assoc, arith, ◌==◌, if◌then◌else◌, ==_self, Bool-cases, take, drop, All, Bytes,
  codes, str_eq, starts_with, str_eq→eq, all, occurs, push_token, scan_tokens, tokens, lacks,
}

starts_with-take :
    (p s : Bytes) (n : ℕ) → starts_with p s ≡ false → starts_with p (take n s) ≡ false
unfolding starts_with
starts_with-take [] s n h = cc
starts_with-take (x ∷ p) [] zero h = refl
starts_with-take (x ∷ p) [] (suc n) h = refl
starts_with-take (x ∷ p) (c ∷ s) zero h = refl
starts_with-take (x ∷ p) (c ∷ s) (suc n) h = elim (Bool-cases (x == c)) [
  | inl e ↦ rw e (starts_with-take p s n (ground arith))
  | inr e ↦ rw e refl
]

pub occurs-take : (p s : Bytes) (n : ℕ) → occurs p s ≡ false → occurs p (take n s) ≡ false
unfolding occurs starts_with
occurs-take p [] zero h = h
occurs-take p [] (suc n) h = h
occurs-take [] (c ∷ s) zero h = cc
occurs-take (x ∷ p) (c ∷ s) zero h = no_start x p
  where
    no_start : (x : ℕ) (p : Bytes) → starts_with (x ∷ p) [] ≡ false
    no_start x p = refl
occurs-take p (c ∷ s) (suc n) h =
    let a : starts_with p (c ∷ s) ≡ false = ground arith in
    let b : occurs p s ≡ false = ground arith in
    rw (starts_with-take p (c ∷ s) (suc n) a, occurs-take p s n b) refl

-- A name on the way of the kernel through a path, the deepest name first: "." stays, ".." goes up.
abbrev pub step_to : Bytes → List Bytes → List Bytes
step_to name here =
    if str_eq name (codes ".")
    then here
    else if str_eq name (codes "..")
    then drop 1 here
    else name ∷ here

-- Where a path leads, without symbolic links.
unfoldable pub walk : List Bytes → List Bytes → List Bytes
walk [] here = here
walk (name ∷ names) here = walk names (step_to name here)

-- /opt/building-blocks/www
abbrev pub www_place : List Bytes
www_place = codes "www" ∷ codes "building-blocks" ∷ codes "opt" ∷ []

abbrev pub IsName : Bytes → Type 0
IsName t = str_eq t (codes "..") ≡ false

-- Without ".." a path leads to where it starts, or below.
pub walk-below :
    (names here : List Bytes)
    → All IsName names
    → (rest : List Bytes) × (walk names here ≡ rest ++ here)
unfolding walk
walk-below [] here h = ([], refl)
walk-below (name ∷ names) here h = elim (Bool-cases (str_eq name (codes "."))) [
  | inl e ↦ let (rest, q) = walk-below names here h.1 in (rest, rw e q)
  | inr e ↦
      let (rest, q) = walk-below names (name ∷ here) h.1 in
      (rest ++ name ∷ [], rw (e, h.0) (q ∙ sym (append_assoc rest (name ∷ []) here)))
]

starts_with-occurs : (t s : Bytes) → starts_with t s ≡ true → occurs t s ≡ true
unfolding occurs
starts_with-occurs t [] h = h
starts_with-occurs t (c ∷ s) h = rw h refl

abbrev pub Occurring : Bytes → List Bytes → Type 0
Occurring s ts = All (λ t. occurs t s ≡ true) ts

Occurring-cons : (c : ℕ) (s : Bytes) (ts : List Bytes) → Occurring s ts → Occurring (c ∷ s) ts
unfolding occurs
Occurring-cons c s [] h = tt
Occurring-cons c s (t ∷ ts) h = (ground (arith, h.0), Occurring-cons c s ts h.1)

-- The tokens stand in the text, the first at its beginning when the text begins inside it.
abbrev pub Scanned : Bytes → Bool × List Bytes → Type 0
Scanned s (false, ts) = Occurring s ts
Scanned s (true, []) = ⊥
Scanned s (true, t ∷ ts) = (starts_with t s ≡ true) × Occurring s ts

pub Scanned-all : (s : Bytes) (m : Bool × List Bytes) → Scanned s m → Occurring s m.1
Scanned-all s (false, ts) h = h
Scanned-all s (true, []) h = absurd h
Scanned-all s (true, t ∷ ts) h = (starts_with-occurs t s h.0, h.1)

push-Scanned :
    (c : ℕ) (s : Bytes) (m : Bool × List Bytes) → Scanned s m → Scanned (c ∷ s) (push_token c m)
unfolding push_token starts_with
push-Scanned c s (false, []) h = (rw (==_self c) refl, tt)
push-Scanned c s (false, t ∷ ts) h = (rw (==_self c) refl, Occurring-cons c s (t ∷ ts) h)
push-Scanned c s (true, []) h = absurd h
push-Scanned c s (true, t ∷ ts) h = (rw (==_self c) h.0, Occurring-cons c s ts h.1)

pub scan-Scanned : (sep : ℕ) (s : Bytes) → Scanned s (scan_tokens sep s)
unfolding scan_tokens
scan-Scanned sep [] = tt
scan-Scanned sep (c ∷ s) = elim (Bool-cases (c == sep)) [
  | inl e ↦ rw e (
      Occurring-cons c s (scan_tokens sep s).1
        (Scanned-all s (scan_tokens sep s) (scan-Scanned sep s)))
  | inr e ↦ rw e (push-Scanned c s (scan_tokens sep s) (scan-Scanned sep s))
]

pub Occurring-IsName :
    (s : Bytes) (ts : List Bytes) → occurs (codes "..") s ≡ false → Occurring s ts → All IsName ts
Occurring-IsName s [] n h = tt
Occurring-IsName s (t ∷ ts) n h =
    (one (Bool-cases (str_eq t (codes ".."))), Occurring-IsName s ts n h.1)
  where
    one : (str_eq t (codes "..") ≡ true) ⊎ (str_eq t (codes "..") ≡ false) → IsName t
    one (inl e) =
        let there : occurs (codes "..") s ≡ true =
          subst (λ x. occurs x s ≡ true) (str_eq→eq t (codes "..") e) h.0 in
        absurd (differ (sym there ∙ n))
      where
        differ : true ≡ false → ⊥
        differ q = cc
    one (inr e) = e

push-outside : (c : ℕ) (ts : List Bytes) → push_token c (false, ts) ≡ (true, (c ∷ []) ∷ ts)
unfolding push_token
push-outside c [] = refl
push-outside c (t ∷ ts) = refl

-- A name with a slash behind it is a token.
scan-name :
    (c : ℕ) (w s : Bytes)
    → lacks 47 (c ∷ w) ≡ true
    → scan_tokens 47 (c ∷ w ++ 47 ∷ s) ≡ (true, (c ∷ w) ∷ tokens 47 s)
unfolding scan_tokens tokens all push_token
scan-name c [] s h =
    let n : (c == 47) ≡ false = ground arith in rw n (push-outside c (scan_tokens 47 s).1)
scan-name c (d ∷ w) s h =
    let n : (c == 47) ≡ false = ground arith in
    let k : lacks 47 (d ∷ w) ≡ true = ground arith in rw n (ap (push_token c) (scan-name d w s k))

pub tokens-www :
    (x : Bytes)
    → tokens 47 (codes "/opt/building-blocks/www/" ++ x)
      ≡ codes "opt" ∷ codes "building-blocks" ∷ codes "www" ∷ tokens 47 x
unfolding tokens scan_tokens all
tokens-www x =
    let www = ap (λ m. m.1) (scan-name 119 (codes "ww") x refl) in
    let two =
      ap (λ m. m.1) (scan-name 98 (codes "uilding-blocks") (codes "www/" ++ x) refl)
      ∙ ap (λ ts. codes "building-blocks" ∷ ts) www in
    ap (λ m. m.1) (scan-name 111 (codes "pt") (codes "building-blocks/www/" ++ x) refl)
    ∙ ap (λ ts. codes "opt" ∷ ts) two
