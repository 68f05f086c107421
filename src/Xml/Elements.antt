-- ===== src/Xml/Elements.antt =====
-- What sfccLex returns for elements that are written: for the start tag of any entry of the table,
-- for a property with its type, and for a value with its end tag.
use sblim_sfcc.Base.{
  ◌≡◌, ◌≢◌, ◌∙◌, ap, refl, Bool, true, false, List, [], ◌∷◌, ◌++◌, Option, none, some, ◌==◌, ne→==,
  Bytes, codes, arith, sym,
}
use sblim_sfcc.Xml.{
  Token, ztok_value, xtok_value, Outcome, done, XmlBuffer, is_blank, skip_ws, get_chars, get_char,
  cut_at, skip_tag, behind, next_equals,
}
use sblim_sfcc.Xml.Attributes.{trim, trim_end, get_content, content_of, cut_content}
use sblim_sfcc.Xml.Lex.{
  Tag, tags, find_tag, next_tag, lex_tag, after_next, lex_loop, sfcc_lex, start_tag, end_tag,
}
use sblim_sfcc.Xml.Messages.{proc_value}
use sblim_sfcc.Xml.Reply.{Reply, reply, untouched, value, element, with_content, Written}
use sblim_sfcc.Xml.RoundTrip.{render, AreValues, AreNames}
use sblim_sfcc.Xml.Tags.{IsTag, closing, behind_tag, element-render}
use sblim_sfcc.Xml.Words.{Without, cut_at-append}

-- A buffer between two tags.
abbrev pub between : Bytes → Token → XmlBuffer
between s etag = record { cur = some s; nulled = false; e_tag_found = false; etag = etag }

-- The name of a tag begins with no blank, no `/` and no `!`.
abbrev pub IsTagName : Bytes → Type 0
IsTagName [] = ⊥
IsTagName (c ∷ cs) = (is_blank c ≡ false) × (c ≢ b'/') × (c ≢ b'!')

IsTagName-IsTag : (t : Bytes) → IsTagName t → IsTag t
IsTagName-IsTag [] h = elim h [ ]
IsTagName-IsTag (c ∷ cs) h = h.0

pub get_char-IsTagName : (t x : Bytes) → IsTagName t → get_char (t ++ x) b'/' ≡ none
unfolding get_char
get_char-IsTagName [] x h = elim h [ ]
get_char-IsTagName (c ∷ t) x h = rw (ne→== c b'/' h.1) refl

pub get_chars-IsTagName :
    (t x : Bytes) → IsTagName t → get_chars (b'<' ∷ (t ++ x)) (codes "<!--") ≡ none
unfolding get_chars behind
get_chars-IsTagName [] x h = elim h [ ]
get_chars-IsTagName (c ∷ t) x h =
    let other : b'!' == c ≡ false = ne→== b'!' c (λ e. h.2 (sym e)) in rw other refl

pub start_tag-find_tag :
    (t : Tag) (x : Bytes) (b : XmlBuffer) → find_tag tags x ≡ some t → start_tag x b ≡ t.process b
unfolding start_tag
start_tag-find_tag t x b e = rw (start_tag, e) refl

-- At a start tag, sfccLex is the function of its entry.
pub sfcc_lex-start :
    (t : Tag) (x : Bytes) (etag : Token)
    → IsTagName t.tag
    → find_tag tags (t.tag ++ x) ≡ some t
    → sfcc_lex (between (b'<' ∷ (t.tag ++ x)) etag) ≡ t.process (between (b'<' ∷ (t.tag ++ x)) etag)
unfolding sfcc_lex lex_loop next_tag skip_ws get_char after_next lex_tag
sfcc_lex-start t x etag h e =
    rw (get_char-IsTagName t.tag x h, get_chars-IsTagName t.tag x h)
      (start_tag-find_tag t (t.tag ++ x) (between (b'<' ∷ (t.tag ++ x)) etag) e)

-- For an entry of the table whose function reads the attributes `e`: its start tag, with values
-- without quotes for all or some of the attributes in their order, gives what the function does
-- with those values, and leaves what stands behind the tag.
pub sfcc_lex-render :
    (t : Tag) (e : List Bytes) (vs : List (Option Bytes)) (ztok etag : Token)
    (k : List (Option Bytes) → XmlBuffer → Outcome Reply) (f : Bool) (rest : Bytes)
    → IsTagName t.tag
    → AreNames e
    → AreValues e vs
    → ((xb : XmlBuffer) → t.process xb ≡ element t.tag e ztok xb k)
    → find_tag tags (t.tag ++ render e vs (closing f rest)) ≡ some t
    → sfcc_lex (between (b'<' ∷ (t.tag ++ render e vs (closing f rest))) etag)
      ≡ k vs
          (behind_tag (between (b'<' ∷ (t.tag ++ render e vs (closing f rest))) etag) f ztok rest)
sfcc_lex-render t e vs ztok etag k f rest h p q r s =
    let x = render e vs (closing f rest) in
    let xb = between (b'<' ∷ (t.tag ++ x)) etag in
    sfcc_lex-start t x etag h s
    ∙ r xb
    ∙ element-render t.tag e vs ztok xb k f rest (IsTagName-IsTag t.tag h) p q refl

-- The text is not empty, and its last byte is no blank.
abbrev pub EndsVisibly : Bytes → Type 0
EndsVisibly [] = ⊥
EndsVisibly (c ∷ []) = is_blank c ≡ false
EndsVisibly (c ∷ d ∷ s) = EndsVisibly (d ∷ s)

-- The text is not empty, and neither its first byte nor its last is a blank.
abbrev pub IsTrim : Bytes → Type 0
IsTrim [] = ⊥
IsTrim (c ∷ s) = (is_blank c ≡ false) × EndsVisibly (c ∷ s)

trim_end-EndsVisibly : (s : Bytes) → EndsVisibly s → trim_end s ≡ s
unfolding trim_end
trim_end-EndsVisibly [] h = elim h [ ]
trim_end-EndsVisibly (c ∷ []) h = rw h refl
trim_end-EndsVisibly (c ∷ d ∷ s) h = rw (trim_end, trim_end-EndsVisibly (d ∷ s) h) refl

trim-IsTrim : (s : Bytes) → IsTrim s → trim s ≡ s
unfolding trim skip_ws
trim-IsTrim [] h = elim h [ ]
trim-IsTrim (c ∷ s) h = rw h.0 (trim_end-EndsVisibly (c ∷ s) h.1)

get_content-append :
    (s r : Bytes) (etag : Token)
    → IsTrim s
    → Without b'<' s
    → get_content (between (s ++ b'<' ∷ r) etag) (s ++ b'<' ∷ r)
      ≡ (some s, record { cur = some (0 ∷ r); nulled = true; e_tag_found = false; etag = etag })
unfolding get_content cut_content content_of
get_content-append [] r etag h w = elim h [ ]
get_content-append (c ∷ s) r etag h w =
    rw (cut_content, cut_at-append b'<' (c ∷ s) r w, trim-IsTrim (c ∷ s) h) refl

end_of_value :
    (rest : Bytes) (etag : Token)
    → sfcc_lex (record {
      cur = some (0 ∷ (codes "/VALUE>" ++ rest));
      nulled = true;
      e_tag_found = false;
      etag = etag;
    })
      ≡ done (reply ztok_value untouched none (between rest etag))
unfolding sfcc_lex lex_loop next_tag skip_ws get_char after_next lex_tag end_tag find_tag skip_tag
    cut_at
end_of_value rest etag = refl

unfoldable pub value_tag : Tag
value_tag = record { tag = codes "VALUE"; process = λ xb. proc_value xb; etag = ztok_value }

pub find_tag-value : (x : Bytes) → find_tag tags (codes "VALUE" ++ b'>' ∷ x) ≡ some value_tag
unfolding find_tag next_equals value_tag
find_tag-value x = refl

pub proc_value_lem :
    (xb : XmlBuffer)
    → proc_value xb
      ≡ element (codes "VALUE") [] ztok_value xb (λ a b. with_content xtok_value value b)
unfolding proc_value
proc_value_lem xb = refl

pub with_content-append :
    (t : Token) (f : Option Bytes → Written) (s r : Bytes) (etag : Token)
    → IsTrim s
    → Without b'<' s
    → with_content t f (between (s ++ b'<' ∷ r) etag)
      ≡ done (
          reply t
            (f (some s))
            none
            (record { cur = some (0 ∷ r); nulled = true; e_tag_found = false; etag = etag }))
unfolding with_content
with_content-append t f s r etag h w =
    ap (λ p. done (reply t (f p.0) none p.1)) (get_content-append s r etag h w)

-- `<VALUE>`, a text without `<` that neither begins nor ends with a blank, and `</VALUE>`: sfccLex returns
-- the text with the token of the start tag, then the token of the end tag, and leaves what stands
-- behind.
pub value_read :
    (s rest : Bytes) (etag : Token)
    → IsTrim s
    → Without b'<' s
    → (xb : XmlBuffer) × (sfcc_lex
          (between (codes "<VALUE>" ++ (s ++ (codes "</VALUE>" ++ rest))) etag)
        ≡ done (reply xtok_value (value (some s)) none xb))
      × (sfcc_lex xb ≡ done (reply ztok_value untouched none (between rest etag)))
unfolding value_tag
value_read s rest etag h w =
    let behind_value = codes "/VALUE>" ++ rest in
    (
      record { cur = some (0 ∷ behind_value); nulled = true; e_tag_found = false; etag = etag },
      sfcc_lex-render value_tag [] [] ztok_value etag (λ a b. with_content xtok_value value b) false
            (s ++ b'<' ∷ behind_value)
            (refl, (λ e. absurd (omega (arith, e))), (λ e. absurd (omega (arith, e)))) tt tt
            proc_value_lem (find_tag-value (s ++ b'<' ∷ behind_value))
          ∙ with_content-append xtok_value value s behind_value etag h w,
      end_of_value rest etag,
    )
