-- ===== src/Xml/Faults.antt =====
-- Inputs on which the lexer loses text, loses its place, or reads outside the buffer.
use sblim_sfcc.Base.{
  ℕ, ◌≡◌, ◌∙◌, ap, refl, true, false, List, [], ◌∷◌, ◌++◌, none, some, ne→==, Bytes, codes, arith,
  suc, length,
}
use sblim_sfcc.Xml.{
  Token, ztok_value, xtok_value, done, fault, ◌>>=◌, XmlBuffer, is_blank, skip_ws, get_chars,
  get_char, cut_at, behind, next_equals, get_word, value_to, get_value,
}
use sblim_sfcc.Xml.Attributes.{
  slots, attrs_ok, read_attr, read_attrs, value_behind, trim, trim_end, get_content, content_of,
  cut_content, tag_equals, tag_name,
}
use sblim_sfcc.Xml.Declarations.{proc_cdata}
use sblim_sfcc.Xml.Elements.{
  between, IsTrim, with_content-append, value_tag, find_tag-value, proc_value_lem, sfcc_lex-render,
}
use sblim_sfcc.Xml.Lex.{find_tag, next_tag, lex_tag, after_next, lex_loop, sfcc_lex, start_tag}
use sblim_sfcc.Xml.Reply.{reply, no_reply, value, with_content, with_tag}
use sblim_sfcc.Xml.RoundTrip.{read_attr-hit, read_attrs_step}
use sblim_sfcc.Xml.Words.{Without, IsName, cut_at-append, get_word-append}

-- Blanks and, where `char` is signed, bytes from 128 on.
abbrev pub AllBlank : Bytes → Type 0
AllBlank [] = Unit {0}
AllBlank (c ∷ cs) = (is_blank c ≡ true) × AllBlank cs

skip_ws-AllBlank : (s : Bytes) → AllBlank s → skip_ws s ≡ []
unfolding skip_ws
skip_ws-AllBlank [] h = refl
skip_ws-AllBlank (c ∷ s) h = rw h.0 (skip_ws-AllBlank s h.1)

Without-AllBlank : (s : Bytes) → AllBlank s → Without b'<' s
Without-AllBlank [] h = tt
Without-AllBlank (c ∷ s) h = (ground (arith, h.0), Without-AllBlank s h.1)

trim-AllBlank : (s : Bytes) → AllBlank s → trim s ≡ []
unfolding trim trim_end
trim-AllBlank s h = rw (skip_ws-AllBlank s h) refl

get_content-AllBlank :
    (c : ℕ) (s r : Bytes) (etag : Token)
    → AllBlank (c ∷ s)
    → get_content (between ((c ∷ s) ++ b'<' ∷ r) etag) ((c ∷ s) ++ b'<' ∷ r)
      ≡ (some [], record { cur = some (0 ∷ r); nulled = true; e_tag_found = false; etag = etag })
unfolding get_content cut_content content_of
get_content-AllBlank c s r etag h =
    rw
      (
        cut_content,
        cut_at-append b'<' (c ∷ s) r (Without-AllBlank (c ∷ s) h),
        trim-AllBlank (c ∷ s) h,
      )
      refl

with_content-AllBlank :
    (c : ℕ) (s r : Bytes) (etag : Token)
    → AllBlank (c ∷ s)
    → with_content xtok_value value (between ((c ∷ s) ++ b'<' ∷ r) etag)
      ≡ done (
          reply xtok_value
            (value (some []))
            none
            (record { cur = some (0 ∷ r); nulled = true; e_tag_found = false; etag = etag }))
unfolding with_content
with_content-AllBlank c s r etag h =
    ap (λ p. done (reply xtok_value (value p.0) none p.1)) (get_content-AllBlank c s r etag h)

-- A value of bytes from 128 on, such as a word in UTF-8 without ASCII letters, is read as the
-- empty text where `char` is signed: each of the bytes counts as a blank.
pub value_lost :
    (c : ℕ) (s r : Bytes) (etag : Token)
    → AllBlank (c ∷ s)
    → sfcc_lex (between (codes "<VALUE>" ++ ((c ∷ s) ++ b'<' ∷ r)) etag)
      ≡ done (
          reply xtok_value
            (value (some []))
            none
            (record { cur = some (0 ∷ r); nulled = true; e_tag_found = false; etag = etag }))
unfolding value_tag
value_lost c s r etag h =
    sfcc_lex-render value_tag [] [] ztok_value etag (λ a b. with_content xtok_value value b) false
      ((c ∷ s) ++ b'<' ∷ r)
      (refl, (λ e. absurd (omega (arith, e))), (λ e. absurd (omega (arith, e)))) tt tt
      proc_value_lem (find_tag-value ((c ∷ s) ++ b'<' ∷ r))
    ∙ with_content-AllBlank c s r etag h

-- Where getContent wrote a NUL for the `<` of a comment.
comment_behind :
    (s : Bytes) (etag : Token)
    → sfcc_lex (record {
      cur = some (0 ∷ (codes "!--" ++ s));
      nulled = true;
      e_tag_found = false;
      etag = etag;
    })
      ≡ done (no_reply (record { cur = none; nulled = false; e_tag_found = false; etag = etag }))
unfolding sfcc_lex lex_loop next_tag skip_ws get_char get_chars behind after_next lex_tag start_tag
    find_tag next_equals proc_cdata with_tag tag_equals tag_name get_word
comment_behind s etag = refl

-- `<VALUE>`, a text without `<` that neither begins nor ends with a blank, and a comment: the call
-- of sfccLex that reads the text leaves a buffer in which the next call takes the comment for no
-- comment; it returns 0 and leaves `cur` NULL.
pub comment_lost :
    (s rest : Bytes) (etag : Token)
    → IsTrim s
    → Without b'<' s
    → (xb : XmlBuffer) × (sfcc_lex (between (codes "<VALUE>" ++ (s ++ (codes "<!--" ++ rest))) etag)
        ≡ done (reply xtok_value (value (some s)) none xb))
      × (sfcc_lex xb
          ≡ done
              (no_reply (record { cur = none; nulled = false; e_tag_found = false; etag = etag })))
unfolding value_tag
comment_lost s rest etag h w =
    let behind_text = codes "!--" ++ rest in
    (
      record { cur = some (0 ∷ behind_text); nulled = true; e_tag_found = false; etag = etag },
      sfcc_lex-render value_tag [] [] ztok_value etag (λ a b. with_content xtok_value value b) false
            (s ++ b'<' ∷ behind_text)
            (refl, (λ e. absurd (omega (arith, e))), (λ e. absurd (omega (arith, e)))) tt tt
            proc_value_lem (find_tag-value (s ++ b'<' ∷ behind_text))
          ∙ with_content-append xtok_value value s behind_text etag h w,
      comment_behind rest etag,
    )

cut_at-Without : (d : ℕ) (s : Bytes) → Without d s → cut_at d s ≡ none
unfolding cut_at
cut_at-Without d [] h = refl
cut_at-Without d (c ∷ s) h = rw (cut_at, ne→== c d h.0, cut_at-Without d s h.1) refl

value_behind-Without : (v : Bytes) → Without b'"' v → value_behind (b'=' ∷ b'"' ∷ v) ≡ fault
unfolding value_behind skip_ws get_char get_value value_to
value_behind-Without v h = rw (value_behind, get_value, value_to, cut_at-Without b'"' v h) refl

read_attr-unclosed :
    (n v : Bytes) (ns : List Bytes)
    → Without b'"' v
    → read_attr (slots (n ∷ ns)) (n ++ b'=' ∷ b'"' ∷ v) ≡ fault
read_attr-unclosed n v ns h =
    read_attr-hit n (n ++ b'=' ∷ b'"' ∷ v) (b'=' ∷ b'"' ∷ v) (slots ns)
      (get_word-append n (b'=' ∷ b'"' ∷ v) false refl)
    ∙ ap (λ m. m >>= λ p. done (record { name = n; attr = p.0; wa = true } ∷ slots ns, p.1))
        (value_behind-Without v h)

attrs_ok-fault :
    (e : List Bytes) (tag : Bytes) (etag : Token) (xb : XmlBuffer) (cur : Bytes)
    → read_attrs (suc (length e)) (slots e) cur ≡ fault
    → attrs_ok e tag etag xb cur ≡ fault
unfolding attrs_ok
attrs_ok-fault e tag etag xb cur h = rw (attrs_ok, h) refl

-- An attribute whose value has no closing quote before the end of the text is a read behind the
-- buffer, here for the first attribute of a tag: the loop of getValue does not look for the end.
pub attribute_unclosed :
    (n v tag : Bytes) (ns : List Bytes) (etag : Token) (xb : XmlBuffer)
    → IsName n
    → Without b'"' v
    → attrs_ok (n ∷ ns) tag etag xb (b' ' ∷ (n ++ b'=' ∷ b'"' ∷ v)) ≡ fault
attribute_unclosed n v tag ns etag xb p h =
    attrs_ok-fault (n ∷ ns) tag etag xb (b' ' ∷ (n ++ b'=' ∷ b'"' ∷ v)) (
      read_attrs_step (suc (length ns)) (slots (n ∷ ns)) n (b'=' ∷ b'"' ∷ v) p
      ∙ ap (λ m. m >>= λ q. read_attrs (suc (length ns)) q.0 q.1) (read_attr-unclosed n v ns h))
