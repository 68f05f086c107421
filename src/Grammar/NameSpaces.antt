-- ===== src/Grammar/NameSpaces.antt =====
-- What localNameSpacePath reads from the text of addXmlNamespace.
use sblim_sfcc.Base.{
  ℕ, zero, suc, ◌<◌, ◌≤◌, ◌≡◌, ◌∙◌, refl, Bool, if◌then◌else◌, true, false, List, [], ◌∷◌, ◌++◌,
  Option, none, some, length, length-append, Bytes, codes, arith,
}
use sblim_sfcc.Grammar.{
  token_code, same_token, Parser, overwrite, with_id, local_lex, expect, parse_name_space,
  name_space_of, add_name_space, name_spaces, local_name_space_path,
}
use sblim_sfcc.Grammar.Lines.{path_start, name_line, name_start, name_end, path_end}
use sblim_sfcc.Xml.{
  Token, xtok_localnamespacepath, ztok_localnamespacepath, xtok_namespace, ztok_namespace, Outcome,
  done,
}
use sblim_sfcc.Xml.Elements.{between}
use sblim_sfcc.Xml.Lex.{left, sfcc_lex}
use sblim_sfcc.Xml.Reply.{reply, Written, untouched, name_space, local_name_space_path as no_path}
use sblim_sfcc.Xml.Words.{Without}

-- What the start tag writes into the union.
abbrev pub local_name_space_path_text : Written
local_name_space_path_text = no_path

-- The name spaces and the end tag, behind the line end of the start tag.
abbrev pub lines : List Bytes → Bytes → Bytes
lines [] rest = b'\n' ∷ (codes "</LOCALNAMESPACEPATH>" ++ rest)
lines (c ∷ cs) rest = b'\n' ∷ name_line c (codes "</NAMESPACE>" ++ lines cs rest)

-- The components, with a `/` between each two.
abbrev pub joined : Option Bytes → List Bytes → Option Bytes
joined v [] = v
joined v (c ∷ cs) = joined (some (add_name_space v c)) cs

abbrev pub AllWithout : List Bytes → Type 0
AllWithout [] = Unit {0}
AllWithout (c ∷ cs) = Without b'"' c × AllWithout cs

abbrev pub parser : Bytes → Token → Token → Bool → Option Bytes → Parser
parser x etag t d i = record { xmb = between x etag; id = i; ct = t; dont_lex = d }

-- localLex, where it calls sfccLex.
pub local_lex-sfcc_lex :
    (u w : Written) (x y : Bytes) (etag t ct : Token) (i : Option Bytes)
    → sfcc_lex (between x etag) ≡ done (reply t w none (between y etag))
    → local_lex u (parser x etag ct false i) ≡ done (overwrite u w, parser y etag t false i)
unfolding local_lex with_id
local_lex-sfcc_lex u w x y etag t ct i e = rw (local_lex, e) refl

pub expect_lem :
    {A : Type 0} (t : Token) (u v : Written) (p q : Parser) (k : Written → Parser → Outcome A)
    → local_lex u p ≡ done (v, q)
    → same_token q.ct t ≡ true
    → expect t u p k ≡ k v q
unfolding expect
expect_lem t u v p q k e h = rw (expect, e, h) refl

-- nameSpace at a start tag that was read before.
parse_name_space_lem :
    (c x : Bytes) (etag : Token) (i : Option Bytes)
    → parse_name_space
        (name_space (some c))
        (parser (codes "</NAMESPACE>" ++ x) etag xtok_namespace true i)
      ≡ done (name_space (some c), parser x etag ztok_namespace false i)
unfolding parse_name_space same_token token_code local_lex overwrite
parse_name_space_lem c x etag i =
    let u = name_space (some c) in
    let s = codes "</NAMESPACE>" ++ x in
    expect_lem xtok_namespace u u (parser s etag xtok_namespace true i)
      (parser s etag xtok_namespace false i) (λ v q. expect ztok_namespace v q (λ w r. done (w, r)))
      refl refl
    ∙ expect_lem ztok_namespace u u (parser s etag xtok_namespace false i)
        (parser x etag ztok_namespace false i) (λ w r. done (w, r))
        (local_lex-sfcc_lex u untouched s x etag ztok_namespace xtok_namespace i (name_end x etag))
        refl

name_spaces_step :
    (fuel : ℕ) (u w : Written) (v : Option Bytes) (c : Bytes) (p q r : Parser)
    → parse_name_space u (record p { dont_lex = true }) ≡ done (name_space (some c), q)
    → local_lex (name_space (some c)) q ≡ done (w, r)
    → name_spaces (suc fuel) u v p ≡ (
        if same_token r.ct xtok_namespace
        then name_spaces fuel w (some (add_name_space v c)) r
        else done (some (add_name_space v c), r))
unfolding name_spaces name_space_of
name_spaces_step fuel u w v c p q r e f = rw (name_spaces, e, f) refl

-- The loop, with the start tag of the first name space read.
name_spaces-lines :
    (fuel : ℕ) (c : Bytes) (cs : List Bytes) (v : Option Bytes) (rest : Bytes) (etag : Token)
    (i : Option Bytes)
    → AllWithout cs
    → length cs < fuel
    → name_spaces fuel
        (name_space (some c))
        v
        (parser (codes "</NAMESPACE>" ++ lines cs rest) etag xtok_namespace false i)
      ≡ done (joined v (c ∷ cs), parser rest etag ztok_localnamespacepath false i)
unfolding same_token token_code overwrite
name_spaces-lines zero c cs v rest etag i h k = absurd (omega arith)
name_spaces-lines (suc fuel) c [] v rest etag i h k =
    let u = name_space (some c) in
    let x = lines [] rest in
    let p = parser (codes "</NAMESPACE>" ++ x) etag xtok_namespace false i in
    name_spaces_step fuel u u v c p (parser x etag ztok_namespace false i)
      (parser rest etag ztok_localnamespacepath false i) (parse_name_space_lem c x etag i)
      (local_lex-sfcc_lex u untouched x rest etag ztok_localnamespacepath ztok_namespace i
        (path_end rest etag))
name_spaces-lines (suc fuel) c (d ∷ cs) v rest etag i h k =
    let u = name_space (some c) in
    let w = name_space (some d) in
    let x = lines (d ∷ cs) rest in
    let y = codes "</NAMESPACE>" ++ lines cs rest in
    let p = parser (codes "</NAMESPACE>" ++ x) etag xtok_namespace false i in
    name_spaces_step fuel u w v c p (parser x etag ztok_namespace false i)
      (parser y etag xtok_namespace false i) (parse_name_space_lem c x etag i)
      (local_lex-sfcc_lex u w x y etag xtok_namespace ztok_namespace i (name_start d y etag h.0))
    ∙ name_spaces-lines fuel d cs (some (add_name_space v c)) rest etag i h.1 (omega arith)

length-lines : (cs : List Bytes) (rest : Bytes) → length cs ≤ length (lines cs rest)
length-lines [] rest = omega arith
length-lines (c ∷ cs) rest = omega (
  arith,
  length-append c (b'"' ∷ b'>' ∷ (codes "</NAMESPACE>" ++ lines cs rest)),
  length-lines cs rest,
)

local_name_space_path_step :
    (u v w : Written) (p q m n : Parser) (r : Option Bytes)
    → local_lex u p ≡ done (v, q)
    → same_token q.ct xtok_localnamespacepath ≡ true
    → local_lex untouched q ≡ done (w, m)
    → (if same_token m.ct xtok_namespace
        then name_spaces (suc (left m.xmb.cur)) w none m
        else done (none, m))
      ≡ done (r, n)
    → local_lex v (record n { dont_lex = true }) ≡ done (v, record n { dont_lex = false })
    → same_token n.ct ztok_localnamespacepath ≡ true
    → local_name_space_path u p ≡ done (r, record n { dont_lex = false })
unfolding local_name_space_path expect
local_name_space_path_step u v w p q m n r e h f g d k =
    rw (local_name_space_path, expect, e, h, f, g)
      (expect_lem ztok_localnamespacepath v v (record n { dont_lex = true })
        (record n { dont_lex = false }) (λ w l. done (r, l)) d k)

-- The element LOCALNAMESPACEPATH with a line for each of some names without quotes, as
-- addXmlNamespace writes it, is read by localNameSpacePath as those names with a `/` between each
-- two, and nothing behind the element is read.
pub local_name_space_path-lines :
    (cs : List Bytes) (rest : Bytes) (etag ct : Token) (u : Written) (i : Option Bytes)
    → AllWithout cs
    → local_name_space_path u
        (parser (codes "<LOCALNAMESPACEPATH>" ++ lines cs rest) etag ct false i)
      ≡ done (joined none cs, parser rest etag ztok_localnamespacepath false i)
unfolding same_token token_code overwrite local_lex
local_name_space_path-lines [] rest etag ct u i h =
    let v = local_name_space_path_text in
    let x = codes "<LOCALNAMESPACEPATH>" ++ lines [] rest in
    local_name_space_path_step u v untouched (parser x etag ct false i)
      (parser (lines [] rest) etag xtok_localnamespacepath false i)
      (parser rest etag ztok_localnamespacepath false i)
      (parser rest etag ztok_localnamespacepath false i) none
      (local_lex-sfcc_lex u v x (lines [] rest) etag xtok_localnamespacepath ct i
        (path_start (lines [] rest) etag))
      refl
      (local_lex-sfcc_lex untouched untouched (lines [] rest) rest etag ztok_localnamespacepath
        xtok_localnamespacepath i (path_end rest etag))
      refl refl refl
local_name_space_path-lines (c ∷ cs) rest etag ct u i h =
    let v = local_name_space_path_text in
    let x = codes "<LOCALNAMESPACEPATH>" ++ lines (c ∷ cs) rest in
    let y = codes "</NAMESPACE>" ++ lines cs rest in
    local_name_space_path_step u v (name_space (some c)) (parser x etag ct false i)
      (parser (lines (c ∷ cs) rest) etag xtok_localnamespacepath false i)
      (parser y etag xtok_namespace false i) (parser rest etag ztok_localnamespacepath false i)
      (joined none (c ∷ cs))
      (local_lex-sfcc_lex u v x (lines (c ∷ cs) rest) etag xtok_localnamespacepath ct i
        (path_start (lines (c ∷ cs) rest) etag))
      refl
      (local_lex-sfcc_lex untouched (name_space (some c)) (lines (c ∷ cs) rest) y etag
        xtok_namespace xtok_localnamespacepath i (name_start c y etag h.0))
      (name_spaces-lines (suc (length y)) c cs none rest etag i h.1
        (omega (arith, length-lines cs rest)))
      refl refl
