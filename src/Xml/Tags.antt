-- ===== src/Xml/Tags.antt =====
-- A start tag that is written is read by the functions of the table, and each tag is found at
-- its entry.
use sblim_sfcc.Base.{
  suc, ◌≡◌, ◌∙◌, ap, refl, Bool, true, false, List, [], ◌∷◌, ◌++◌, Option, none, some, arith,
  if◌then◌else◌, length, Bytes,
}
use sblim_sfcc.Xml.{
  Token, Outcome, done, ◌>>=◌, XmlBuffer, pointee, is_blank, is_alpha, is_alnum, at, skip_ws,
}
use sblim_sfcc.Xml.Attributes.{tag_end, attrs_ok, tag_name, tag_equals}
use sblim_sfcc.Xml.Reply.{Reply, matched, with_tag, element}
use sblim_sfcc.Xml.RoundTrip.{render, AreValues, AreNames, attrs-fill, read_attrs-render}
use sblim_sfcc.Xml.Words.{get_word-append}

-- The end of a start tag: `>` or, where the flag is set, `/>`.
abbrev pub closing : Bool → Bytes → Bytes
closing true rest = b'/' ∷ b'>' ∷ rest
closing false rest = b'>' ∷ rest

closing-skip_ws : (f : Bool) (rest : Bytes) → skip_ws (closing f rest) ≡ closing f rest
unfolding skip_ws
closing-skip_ws true rest = refl
closing-skip_ws false rest = refl

closing-is_alpha : (f : Bool) (rest : Bytes) → at is_alpha (closing f rest) ≡ false
closing-is_alpha true rest = refl
closing-is_alpha false rest = refl

tag_end-closing :
    (tag : Bytes) (f : Bool) (rest : Bytes) → tag_end tag (closing f rest) ≡ done (f, rest)
unfolding tag_end
tag_end-closing tag true rest = refl
tag_end-closing tag false rest = refl

-- What attrsOk leaves of the buffer.
abbrev pub behind_tag : XmlBuffer → Bool → Token → Bytes → XmlBuffer
behind_tag xb f etag rest = record xb {
  cur = some rest;
  e_tag_found = f;
  etag = if f then etag else xb.etag;
}

pub attrs_ok-render :
    (e : List Bytes) (vs : List (Option Bytes)) (tag : Bytes) (etag : Token) (xb : XmlBuffer)
    (f : Bool) (rest : Bytes)
    → AreNames e
    → AreValues e vs
    → attrs_ok e tag etag xb (render e vs (closing f rest)) ≡ done (vs, behind_tag xb f etag rest)
unfolding attrs_ok
attrs_ok-render e vs tag etag xb f rest p q =
    rw
      (
        attrs_ok,
        read_attrs-render (suc (length e)) [] e vs (closing f rest) tt p q (closing-skip_ws f rest)
            (closing-is_alpha f rest) (omega arith),
        tag_end-closing tag f rest,
        attrs-fill e vs q,
      )
      refl

-- The name of a tag does not begin with a blank.
abbrev pub IsTag : Bytes → Type 0
IsTag [] = ⊥
IsTag (c ∷ cs) = is_blank c ≡ false

skip_ws-IsTag : (t x : Bytes) → IsTag t → skip_ws (t ++ x) ≡ t ++ x
unfolding skip_ws
skip_ws-IsTag [] x h = elim h [ ]
skip_ws-IsTag (c ∷ t) x h = rw h refl

render-closing :
    (e : List Bytes) (vs : List (Option Bytes)) (f : Bool) (rest : Bytes)
    → at is_alnum (render e vs (closing f rest)) ≡ false
render-closing [] vs true rest = refl
render-closing [] vs false rest = refl
render-closing (n ∷ ns) [] true rest = refl
render-closing (n ∷ ns) [] false rest = refl
render-closing (n ∷ ns) (none ∷ vs) f rest = render-closing ns vs f rest
render-closing (n ∷ ns) (some v ∷ vs) f rest = refl

tag_equals-append :
    (t x : Bytes)
    → IsTag t
    → at is_alnum x ≡ false
    → tag_equals (b'<' ∷ (t ++ x)) t ≡ done (true, some x)
unfolding tag_equals tag_name
tag_equals-append t x p q =
    rw (tag_equals, tag_name, skip_ws-IsTag t x p, get_word-append t x true q) refl

pub with_tag-append :
    (t x : Bytes) (xb : XmlBuffer) (k : Bytes → Outcome Reply)
    → IsTag t
    → at is_alnum x ≡ false
    → xb.cur ≡ some (b'<' ∷ (t ++ x))
    → with_tag t xb k ≡ k x
unfolding with_tag
with_tag-append t x xb k p q h =
    ap (λ o. pointee o >>= λ cur. tag_equals cur t >>= λ found. matched xb found.0 found.1 k) h
    ∙ ap (λ m. m >>= λ found. matched xb found.0 found.1 k) (tag_equals-append t x p q)

-- A start tag whose attributes are written in the order of the table, some of them left out, is
-- read by the function for the tag with those attributes; the rest of the buffer is what stands
-- behind the tag.
pub element-render :
    (tag : Bytes) (e : List Bytes) (vs : List (Option Bytes)) (etag : Token) (xb : XmlBuffer)
    (k : List (Option Bytes) → XmlBuffer → Outcome Reply) (f : Bool) (rest : Bytes)
    → IsTag tag
    → AreNames e
    → AreValues e vs
    → xb.cur ≡ some (b'<' ∷ (tag ++ render e vs (closing f rest)))
    → element tag e etag xb k ≡ k vs (behind_tag xb f etag rest)
unfolding element
element-render tag e vs etag xb k f rest p q v h =
    with_tag-append tag (render e vs (closing f rest)) xb _ p (render-closing e vs f rest) h
    ∙ ap (λ m. m >>= λ r. k r.0 r.1) (attrs_ok-render e vs tag etag xb f rest q v)
