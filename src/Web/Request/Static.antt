-- ===== src/Web/Request/Static.antt =====
-- services/bb-webd.c: which files a request can read.
use nxp_imx95_building_block.Web.Request.Walk.{
  occurs-take, walk, www_place, IsName, walk-below, Scanned-all, scan-Scanned, Occurring-IsName,
  tokens-www,
}
use nxp_imx95_building_block.Web.Request.{
  HttpReq, request_line, parse_line, parse_http, www_path, opened_path,
}
use nxp_imx95_building_block.Web.Form.{is_empty}
use nxp_imx95_building_block.Common.{
  ℕ, ◌≡◌, refl, sym, ap, subst, ◌∙◌, Bool, true, false, not, ◌||◌, Option, none, some, List, [],
  ◌∷◌, ◌++◌, arith, if◌then◌else◌, length, take, All, Bytes, codes, str_eq, starts_with,
  after_match, occurs, scan_tokens, tokens,
}

let_through :
    (b c : Bool) (x y : HttpReq)
    → (if b || not c then none else some x) ≡ some y
    → (c ≡ true) × (x ≡ y)
let_through true c x y h = cc
let_through false false x y h = cc
let_through false true x y h = (refl, cc)

slash-first : (p : Bytes) → starts_with (codes "/") p ≡ true → (y : Bytes) × (p ≡ 47 ∷ y)
unfolding starts_with
slash-first [] h = cc
slash-first (c ∷ y) h = let e : c ≡ 47 = ground arith in (y, ap (λ d. d ∷ y) e)

-- A request that is read asks for a path that begins with a slash.
parse_line-slash :
    (len : ℕ) (rest : Bytes) (line : Bytes × Bytes) (req : HttpReq)
    → parse_line len rest line ≡ some req
    → (y : Bytes) × (req.path ≡ 47 ∷ y)
unfolding parse_line
parse_line-slash len rest (method, path) req h =
    let (slash, same) = let_through (is_empty method) (starts_with (codes "/") path) _ req h in
    let (y, e) = slash-first path slash in (y, ap (λ r. r.path) (sym same) ∙ e)

parse_http-slash :
    (text : Bytes) (req : HttpReq) → parse_http text ≡ some req → (y : Bytes) × (req.path ≡ 47 ∷ y)
unfolding parse_http
parse_http-slash text req h = go (after_match (codes "\r\n") text) h
  where
    go :
        (o : Option Bytes)
        → (elim o [ none ↦ none | some rest ↦ parse_line (length text) rest (request_line text) ])
          ≡ some req
        → (y : Bytes) × (req.path ≡ 47 ∷ y)
    go none h = cc
    go (some rest) h = parse_line-slash (length text) rest (request_line text) req h

opened :
    (a b : Bool) (x y : Bytes) → (if a || b then none else some x) ≡ some y → (a ≡ false) × (x ≡ y)
opened true b x y h = cc
opened false true x y h = cc
opened false false x y h = (refl, cc)

occurs-tail : (p : Bytes) (c : ℕ) (s : Bytes) → occurs p (c ∷ s) ≡ false → occurs p s ≡ false
unfolding occurs
occurs-tail p c s h = ground arith

-- The file that is opened for a request lies in /opt/building-blocks/www or below it: the way through
-- its path, name by name with "." and ".." as the kernel takes them, ends behind these three
-- directories, for every request that is read; symbolic links are not followed.
pub opened_path-inside :
    (text fpath : Bytes) (req : HttpReq)
    → parse_http text ≡ some req
    → opened_path req.path ≡ some fpath
    → (rest : List Bytes) × (walk (tokens 47 fpath) [] ≡ rest ++ www_place)
unfolding opened_path www_path walk tokens str_eq
opened_path-inside text fpath req r h =
    let (y, slash) = parse_http-slash text req r in
    let (clean, same) =
      opened (occurs (codes "..") req.path) (occurs (codes "//") req.path) (www_path req.path) fpath
        h in
    let below = take 230 y in
    let place : fpath ≡ codes "/opt/building-blocks/www/" ++ below =
      sym same ∙ ap (λ p. take 255 (codes "/opt/building-blocks/www" ++ p)) slash in
    let no_up : occurs (codes "..") below ≡ false =
      occurs-take (codes "..") y 230
        (occurs-tail (codes "..") 47 y (subst (λ p. occurs (codes "..") p ≡ false) slash clean)) in
    let names : All IsName (tokens 47 below) =
      Occurring-IsName below (tokens 47 below) no_up
        (Scanned-all below (scan_tokens 47 below) (scan-Scanned 47 below)) in
    let (rest, q) = walk-below (tokens 47 below) www_place names in
    (rest, ap (λ ts. walk ts []) (ap (tokens 47) place ∙ tokens-www below) ∙ q)
