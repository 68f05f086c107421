-- ===== src/Escape/Laws.antt =====
-- Escaping is undone by reading, and where AsciiToXmlStr has room enough, or too little.
use sblim_sfcc.Base.{
  ℕ, zero, suc, ◌+◌, ◌≤◌, ◌≡◌, ◌≢◌, ◌∙◌, ap, refl, inl, inr, false, List, [], ◌∷◌, ◌++◌, Option,
  none, some, ◌==◌, ◌>>=◌, Bool-cases, Option-cases, length, length-append, length-replicate,
  replicate, take, Bytes, codes, arith, some-inj,
}
use mathlib.Core.Path.{subst}
use sblim_sfcc.Escape.{
  XmlSpecialChar, xml_escapes, largest_xml_escape_size, read_escape, xml_to_ascii, to_ascii,
  xml_to_ascii_str, find_escape, escape_of,
}
use sblim_sfcc.StringBuffer.{Memory, c_string}
use sblim_sfcc.StringBuffer.Memory.{Begins-nil, IsText, write_lem, c_string_lem}
use sblim_sfcc.Xml.{behind}
use sblim_sfcc.Xml.Words.{Without}

-- What AsciiToXmlStr is to write.
abbrev pub escaped : Bytes → Bytes
escaped [] = []
escaped (c ∷ cs) = escape_of c ++ escaped cs

-- One step of XmlToAsciiStr over the bytes of a character.
abbrev pub read_one : Bytes → Option (ℕ × Bytes)
read_one [] = none
read_one (c ∷ cs) = some (xml_to_ascii c cs)

-- The bytes are read as the character; they are few, and none is NUL or `<`.
abbrev pub Undone : ℕ → Bytes → Type 0
Undone c e =
    ((x : Bytes) → read_one (e ++ x) ≡ some (c, x))
    × (length e ≤ largest_xml_escape_size)
    × (IsText (c ∷ []) → IsText e)
    × Without b'<' e

abbrev AllUndone : List XmlSpecialChar → Type 0
AllUndone [] = Unit {0}
AllUndone (e ∷ es) = Undone e.xml_ascii (take e.xml_escape_size e.xml_escape) × AllUndone es

abbrev AreDistinct : ℕ → Bytes → Type 0
AreDistinct d [] = Unit {0}
AreDistinct d (c ∷ cs) = (c == d ≡ false) × AreDistinct d cs

IsText-AreDistinct : (s : Bytes) → AreDistinct 0 s → IsText s
IsText-AreDistinct [] h = tt
IsText-AreDistinct (c ∷ s) h = (ground (arith, h.0), IsText-AreDistinct s h.1)

Without-AreDistinct : (d : ℕ) (s : Bytes) → AreDistinct d s → Without d s
Without-AreDistinct d [] h = tt
Without-AreDistinct d (c ∷ s) h = (ground (arith, h.0), Without-AreDistinct d s h.1)

undone :
    (c : ℕ) (e : Bytes)
    → ((x : Bytes) → read_one (e ++ x) ≡ some (c, x))
    → length e ≤ largest_xml_escape_size
    → AreDistinct 0 e
    → AreDistinct b'<' e
    → Undone c e
undone c e h l p q = (h, l, (λ t. IsText-AreDistinct e p), Without-AreDistinct b'<' e q)

AllUndone-xml_escapes : AllUndone xml_escapes
unfolding xml_to_ascii read_escape behind
AllUndone-xml_escapes = (
  undone b'"' (codes "&quot;") (λ x. refl) (omega arith)
      (refl, (refl, (refl, (refl, (refl, (refl, tt))))))
      (refl, (refl, (refl, (refl, (refl, (refl, tt)))))),
  (
    undone b'&' (codes "&amp;") (λ x. refl) (omega arith) (refl, (refl, (refl, (refl, (refl, tt)))))
        (refl, (refl, (refl, (refl, (refl, tt))))),
    (
      undone b'\'' (codes "&apos;") (λ x. refl) (omega arith)
          (refl, (refl, (refl, (refl, (refl, (refl, tt))))))
          (refl, (refl, (refl, (refl, (refl, (refl, tt)))))),
      (
        undone b'<' (codes "&lt;") (λ x. refl) (omega arith) (refl, (refl, (refl, (refl, tt))))
            (refl, (refl, (refl, (refl, tt)))),
        (
          undone b'>' (codes "&gt;") (λ x. refl) (omega arith) (refl, (refl, (refl, (refl, tt))))
              (refl, (refl, (refl, (refl, tt)))),
          tt,
        ),
      ),
    ),
  ),
)

Undone-find_escape :
    (es : List XmlSpecialChar) (c : ℕ) (e : XmlSpecialChar)
    → AllUndone es
    → find_escape es c ≡ some e
    → Undone c (take e.xml_escape_size e.xml_escape)
unfolding find_escape
Undone-find_escape [] c e a h = ground arith
Undone-find_escape (d ∷ es) c e a h = elim (Bool-cases (c == d.xml_ascii)) [
  | inr k ↦ Undone-find_escape es c e a.1 (rw k at h)
  | inl k ↦
      let same : d ≡ e = some-inj d e (rw k at h) in
      let code : d.xml_ascii ≡ c = ground arith in
      subst (λ y. Undone c (take y.xml_escape_size y.xml_escape)) same
        (subst (λ y. Undone y (take d.xml_escape_size d.xml_escape)) code a.0)
]

plain : (c : ℕ) → find_escape xml_escapes c ≡ none → (c == b'&' ≡ false) × (c ≢ b'<')
unfolding find_escape
plain c h = (ground arith, ground arith)

plain_read : (c : ℕ) (x : Bytes) → c == b'&' ≡ false → read_one (c ∷ x) ≡ some (c, x)
unfolding xml_to_ascii
plain_read c x h = rw h refl

-- What a character is written as is read as that character.
pub Undone-escape_of : (c : ℕ) → Undone c (escape_of c)
unfolding escape_of
Undone-escape_of c = elim (Option-cases (find_escape xml_escapes c)) [
  | inr (e, h) ↦ rw (escape_of, h) (Undone-find_escape xml_escapes c e AllUndone-xml_escapes h)
  | inl h ↦
      rw (escape_of, h)
        ((λ x. plain_read c x (plain c h).0), omega arith, (λ t. t), ((plain c h).1, tt))
]

pub escaped-IsText : (s : Bytes) → IsText s → IsText (escaped s)
escaped-IsText [] h = tt
escaped-IsText (c ∷ s) h =
    append-IsText (escape_of c) (escaped s) ((Undone-escape_of c).2 (h.0, tt))
      (escaped-IsText s h.1)
  where
    append-IsText : (a b : Bytes) → IsText a → IsText b → IsText (a ++ b)
    append-IsText [] b p q = q
    append-IsText (x ∷ a) b p q = (p.0, append-IsText a b p.1 q)

-- No `<` is left in an escaped text.
pub escaped-Without : (s : Bytes) → Without b'<' (escaped s)
escaped-Without [] = tt
escaped-Without (c ∷ s) =
    append-Without (escape_of c) (escaped s) (Undone-escape_of c).3 (escaped-Without s)
  where
    append-Without : (a b : Bytes) → Without b'<' a → Without b'<' b → Without b'<' (a ++ b)
    append-Without [] b p q = q
    append-Without (x ∷ a) b p q = (p.0, append-Without a b p.1 q)

length-read_one :
    (c : ℕ) (e : Bytes) → ((x : Bytes) → read_one (e ++ x) ≡ some (c, x)) → 1 ≤ length e
length-read_one c [] h = let k = h [] in ground arith
length-read_one c (x ∷ e) h = omega arith

length-escaped : (s : Bytes) → length s ≤ length (escaped s)
length-escaped [] = omega arith
length-escaped (c ∷ s) = omega (
  arith,
  length-append (escape_of c) (escaped s),
  length-escaped s,
  length-read_one c (escape_of c) (Undone-escape_of c).0,
)

to_ascii_step :
    (fuel c : ℕ) (t x : Bytes)
    → read_one t ≡ some (c, x)
    → to_ascii (suc fuel) t ≡ (to_ascii fuel x >>= λ s. some (c ∷ s))
unfolding to_ascii
to_ascii_step fuel c [] x h = ground arith
to_ascii_step fuel c (d ∷ t) x h =
    let e : xml_to_ascii d t ≡ (c, x) = some-inj (xml_to_ascii d t) (c, x) h in
    ap (λ p. to_ascii fuel p.1 >>= λ s. some (p.0 ∷ s)) e

to_ascii-escaped : (fuel : ℕ) (s : Bytes) → length s ≤ fuel → to_ascii fuel (escaped s) ≡ some s
unfolding to_ascii
to_ascii-escaped zero [] h = refl
to_ascii-escaped (suc fuel) [] h = refl
to_ascii-escaped zero (c ∷ s) h = absurd (omega arith)
to_ascii-escaped (suc fuel) (c ∷ s) h =
    to_ascii_step fuel c (escaped (c ∷ s)) (escaped s) ((Undone-escape_of c).0 (escaped s))
    ∙ ap (λ o. o >>= λ t. some (c ∷ t)) (to_ascii-escaped fuel s (omega arith))

-- XmlToAsciiStr of a text in which the special characters are written as entities is the text
-- itself; its block is large enough.
pub xml_to_ascii_str-escaped :
    (s : Bytes)
    → IsText s
    → (mem : Memory) × (xml_to_ascii_str (escaped s) ≡ some mem) × (c_string mem ≡ some s)
unfolding xml_to_ascii_str
xml_to_ascii_str-escaped s h =
    let n = length (escaped s) in
    let (mem, e, k, b) =
      write_lem [] (s ++ 0 ∷ []) (replicate (n + 1) none) (Begins-nil (replicate (n + 1) none)) (
        omega (
          arith,
          length-append s (0 ∷ []),
          length-escaped s,
          length-replicate {A = Option ℕ} (n + 1) none,
        )) in
    (mem, rw (to_ascii-escaped n s (length-escaped s)) e, c_string_lem mem s [] h b)
