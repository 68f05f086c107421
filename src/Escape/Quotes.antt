-- ===== src/Escape/Quotes.antt =====
-- An escaped text can stand as the value of an attribute.
use mathlib.Core.Path.{subst}
use sblim_sfcc.Base.{
  ℕ, ◌≡◌, ◌≢◌, refl, inl, inr, false, List, [], ◌∷◌, ◌++◌, none, some, ◌==◌, Bool-cases,
  Option-cases, take, Bytes, codes, arith, some-inj,
}
use sblim_sfcc.Escape.{XmlSpecialChar, xml_escapes, find_escape, escape_of}
use sblim_sfcc.Escape.Laws.{escaped}
use sblim_sfcc.Xml.Words.{Without}

AllUnquoted : List XmlSpecialChar → Type 0
AllUnquoted [] = Unit {0}
AllUnquoted (e ∷ es) = Without b'"' (take e.xml_escape_size e.xml_escape) × AllUnquoted es

Without-find_escape :
    (es : List XmlSpecialChar) (c : ℕ) (e : XmlSpecialChar)
    → AllUnquoted es
    → find_escape es c ≡ some e
    → Without b'"' (take e.xml_escape_size e.xml_escape)
unfolding find_escape AllUnquoted
Without-find_escape [] c e a h = ground arith
Without-find_escape (d ∷ es) c e a h = elim (Bool-cases (c == d.xml_ascii)) [
  | inr k ↦ Without-find_escape es c e a.1 (rw k at h)
  | inl k ↦
      subst (λ y. Without b'"' (take y.xml_escape_size y.xml_escape)) (some-inj d e (rw k at h)) a.0
]

AreUnquoted : Bytes → Type 0
AreUnquoted [] = Unit {0}
AreUnquoted (c ∷ s) = (c == b'"' ≡ false) × AreUnquoted s

Without-AreUnquoted : (s : Bytes) → AreUnquoted s → Without b'"' s
unfolding AreUnquoted
Without-AreUnquoted [] h = tt
Without-AreUnquoted (c ∷ s) h = (ground (arith, h.0), Without-AreUnquoted s h.1)

AllUnquoted-xml_escapes : AllUnquoted xml_escapes
unfolding AllUnquoted AreUnquoted
AllUnquoted-xml_escapes = (
  Without-AreUnquoted (codes "&quot;") (refl, (refl, (refl, (refl, (refl, (refl, tt)))))),
  (
    Without-AreUnquoted (codes "&amp;") (refl, (refl, (refl, (refl, (refl, tt))))),
    (
      Without-AreUnquoted (codes "&apos;") (refl, (refl, (refl, (refl, (refl, (refl, tt)))))),
      (
        Without-AreUnquoted (codes "&lt;") (refl, (refl, (refl, (refl, tt)))),
        (Without-AreUnquoted (codes "&gt;") (refl, (refl, (refl, (refl, tt)))), tt),
      ),
    ),
  ),
)

unquoted : (c : ℕ) → find_escape xml_escapes c ≡ none → c ≢ b'"'
unfolding find_escape
unquoted c h = ground arith

Without-escape_of : (c : ℕ) → Without b'"' (escape_of c)
unfolding escape_of
Without-escape_of c = elim (Option-cases (find_escape xml_escapes c)) [
  | inr (e, h) ↦ rw (escape_of, h) (Without-find_escape xml_escapes c e AllUnquoted-xml_escapes h)
  | inl h ↦ rw (escape_of, h) (unquoted c h, tt)
]

-- No quote is left in an escaped text.
pub Without-escaped : (s : Bytes) → Without b'"' (escaped s)
Without-escaped [] = tt
Without-escaped (c ∷ s) =
    append-Without (escape_of c) (escaped s) (Without-escape_of c) (Without-escaped s)
  where
    append-Without : (a b : Bytes) → Without b'"' a → Without b'"' b → Without b'"' (a ++ b)
    append-Without [] b p q = q
    append-Without (x ∷ a) b p q = (p.0, append-Without a b p.1 q)
