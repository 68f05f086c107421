-- ===== src/Grammar/ErrorText.antt =====
-- What is read from the text of an error.
use sblim_sfcc.Base.{
  ℕ, ◌^◌, ◌<◌, ◌≡◌, refl, true, false, List, [], ◌∷◌, ◌++◌, Option, none, some, Bytes, codes, arith,
  same_name, to_lower,
}
use sblim_sfcc.Decimal.{digits, AllDigits, AllDigits-digits}
use sblim_sfcc.Decimal.Atoi.{atoi, atoi-digits}
use sblim_sfcc.Escape.{xml_to_ascii_str}
use sblim_sfcc.Escape.Laws.{escaped, xml_to_ascii_str-escaped}
use sblim_sfcc.Escape.Quotes.{Without-escaped}
use sblim_sfcc.Grammar.{token_code, same_token, Parser, overwrite, local_lex, expect}
use sblim_sfcc.Grammar.Errors.{ErrorStatus, stored, set_error, parse_error}
use sblim_sfcc.Grammar.NameSpaces.{parser, local_lex-sfcc_lex, expect_lem}
use sblim_sfcc.StringBuffer.{Memory, c_string}
use sblim_sfcc.StringBuffer.Memory.{IsText}
use sblim_sfcc.Xml.{
  Token, xtok_error, ztok_error, done, fault, XmlBuffer, skip_ws, get_char, cut_at, skip_tag,
  behind, next_equals,
}
use sblim_sfcc.Xml.Elements.{between, sfcc_lex-render}
use sblim_sfcc.Xml.Lex.{
  Tag, tags, find_tag, next_tag, lex_tag, after_next, lex_loop, sfcc_lex, end_tag,
}
use sblim_sfcc.Xml.Messages.{proc_error_resp}
use sblim_sfcc.Xml.Names.{are_names, AreNames-are_names}
use sblim_sfcc.Xml.Reply.{reply, attr, element, untouched, Written, error_resp}
use sblim_sfcc.Xml.RoundTrip.{render, AreValues}
use sblim_sfcc.Xml.Tags.{closing}
use sblim_sfcc.Xml.Words.{Without}

error_tag : Tag
error_tag = record { tag = codes "ERROR"; process = λ xb. proc_error_resp xb; etag = ztok_error }

find_tag-error : (x : Bytes) → find_tag tags (codes "ERROR" ++ b' ' ∷ x) ≡ some error_tag
unfolding find_tag next_equals error_tag
find_tag-error x = refl

abbrev pub error_attrs : List Bytes
error_attrs = codes "CODE" ∷ codes "DESCRIPTION" ∷ []

error_attrs_lem : are_names error_attrs ≡ true
unfolding same_name to_lower
error_attrs_lem = refl

error_process :
    (xb : XmlBuffer)
    → proc_error_resp xb
      ≡ element
          (codes "ERROR")
          error_attrs
          ztok_error
          xb
          (λ a b. done (reply xtok_error (error_resp (attr a 0) (attr a 1)) none b))
unfolding proc_error_resp
error_process xb = refl

-- The element ERROR with its attributes, and what stands behind it.
abbrev pub error_text : Bytes → Option Bytes → Bytes → Bytes
error_text code description rest =
    codes "<ERROR"
    ++ render error_attrs (some code ∷ description ∷ []) (closing false (codes "</ERROR>" ++ rest))

error_start :
    (c : Bytes) (d : Option Bytes) (rest : Bytes) (etag : Token)
    → AreValues error_attrs (some c ∷ d ∷ [])
    → sfcc_lex (between (error_text c d rest) etag)
      ≡ done
          (reply xtok_error (error_resp (some c) d) none (between (codes "</ERROR>" ++ rest) etag))
unfolding error_tag
error_start c d rest etag h =
    sfcc_lex-render error_tag error_attrs (some c ∷ d ∷ []) ztok_error etag
      (λ a b. done (reply xtok_error (error_resp (attr a 0) (attr a 1)) none b)) false
      (codes "</ERROR>" ++ rest)
      (refl, (λ e. absurd (omega (arith, e))), (λ e. absurd (omega (arith, e))))
      (AreNames-are_names error_attrs error_attrs_lem) h error_process (find_tag-error _)

error_end :
    (x : Bytes) (etag : Token)
    → sfcc_lex (between (codes "</ERROR>" ++ x) etag)
      ≡ done (reply ztok_error untouched none (between x etag))
unfolding sfcc_lex lex_loop next_tag skip_ws get_char after_next lex_tag end_tag find_tag
    next_equals behind skip_tag cut_at
error_end x etag = refl

set_error_lem :
    (c d : Bytes) (n : ℕ) (m : Memory)
    → atoi c ≡ n
    → xml_to_ascii_str d ≡ some m
    → set_error (error_resp (some c) (some d)) ≡ done (record { err_code = n; description = m })
unfolding set_error stored
set_error_lem c d n m e f = rw (set_error, f, e) refl

parse_error_step :
    (u v w : Written) (p q r : Parser) (s : ErrorStatus)
    → local_lex u p ≡ done (v, q)
    → same_token q.ct xtok_error ≡ true
    → set_error v ≡ done s
    → local_lex v q ≡ done (w, r)
    → same_token r.ct ztok_error ≡ true
    → parse_error u p ≡ done (s, r)
unfolding parse_error expect
parse_error_step u v w p q r s e h f g k =
    rw (parse_error, expect, e, h, f) (expect_lem ztok_error v w q r (λ x y. done (s, y)) g k)

Without-AllDigits : (s : Bytes) → AllDigits s → Without b'"' s
Without-AllDigits [] h = tt
Without-AllDigits (c ∷ s) h = (ground (arith, h.0), Without-AllDigits s h.1)

-- An element ERROR with a code below 2 ^ 31 in decimal digits and a description whose special
-- characters are written as entities: `error` reads it up to its end tag, and leaves in the header
-- of the response the code as a number and a block with the description.
pub error_read :
    (w n : ℕ) (d rest : Bytes) (etag ct : Token) (u : Written) (i : Option Bytes)
    → n < 10 ^ w
    → n < 2 ^ 31
    → IsText d
    → (m : Memory) × (parse_error u
          (parser (error_text (digits w n) (some (escaped d)) rest) etag ct false i)
        ≡ done (record { err_code = n; description = m }, parser rest etag ztok_error false i))
      × (c_string m ≡ some d)
unfolding same_token token_code overwrite
error_read w n d rest etag ct u i h k t =
    let c = digits w n in
    let s = escaped d in
    let (m, e, f) = xml_to_ascii_str-escaped d t in
    let v = error_resp (some c) (some s) in
    let x = codes "</ERROR>" ++ rest in
    (
      m,
      parse_error_step u v v (parser (error_text c (some s) rest) etag ct false i)
          (parser x etag xtok_error false i) (parser rest etag ztok_error false i)
          (record { err_code = n; description = m })
          (local_lex-sfcc_lex u v (error_text c (some s) rest) x etag xtok_error ct i (
            error_start c (some s) rest etag
              (Without-AllDigits c (AllDigits-digits w n), (Without-escaped d, tt))))
          refl (set_error_lem c s n m (atoi-digits w n h k) e)
          (local_lex-sfcc_lex v untouched x rest etag ztok_error xtok_error i (error_end rest etag))
          refl,
      f,
    )

parse_error_fault :
    (u v : Written) (p q : Parser)
    → local_lex u p ≡ done (v, q)
    → same_token q.ct xtok_error ≡ true
    → set_error v ≡ fault
    → parse_error u p ≡ fault
unfolding parse_error expect
parse_error_fault u v p q e h f = rw (parse_error, expect, e, h, f) refl

-- At an element ERROR with a code without quotes and with no DESCRIPTION, `error` reads through
-- NULL.
pub error_undescribed :
    (c rest : Bytes) (etag ct : Token) (u : Written) (i : Option Bytes)
    → Without b'"' c
    → parse_error u (parser (error_text c none rest) etag ct false i) ≡ fault
unfolding same_token token_code overwrite set_error
error_undescribed c rest etag ct u i h =
    let v = error_resp (some c) none in
    let x = codes "</ERROR>" ++ rest in
    parse_error_fault u v (parser (error_text c none rest) etag ct false i)
      (parser x etag xtok_error false i)
      (local_lex-sfcc_lex u v (error_text c none rest) x etag xtok_error ct i
        (error_start c none rest etag (h, tt)))
      refl refl
