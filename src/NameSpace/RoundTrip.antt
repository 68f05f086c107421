-- ===== src/NameSpace/RoundTrip.antt =====
-- The text that addXmlNamespace writes for a name space.
use mathlib.Core.List.{append_assoc, append-nil}
use mathlib.Core.Path.{subst}
use sblim_sfcc.Base.{
  ◌+◌, ◌<◌, ◌≡◌, ◌∙◌, ap, sym, refl, lt→ltb, ne→==, ◌>>=◌, List, [], ◌∷◌, ◌++◌, some, length,
  length-append, Bytes, codes, arith,
}
use sblim_sfcc.Grammar.{add_name_space}
use sblim_sfcc.Grammar.NameSpaces.{lines, joined, AllWithout}
use sblim_sfcc.NameSpace.{
  nsc_size, components, get_name_space_components, add_components, add_xml_namespace,
}
use sblim_sfcc.StringBuffer.{StringBuffer, append3_chars}
use sblim_sfcc.StringBuffer.Laws.{Holds, append_chars_lem, append_all_lem}
use sblim_sfcc.Xml.Words.{Without}

-- A component: not empty, shorter than `nsc`, without `/` and without quotes.
abbrev pub IsComponent : Bytes → Type 0
IsComponent c = (0 < length c) × (length c < nsc_size) × Without b'/' c × Without b'"' c

abbrev pub AreComponents : List Bytes → Type 0
AreComponents [] = Unit {0}
AreComponents (c ∷ cs) = IsComponent c × AreComponents cs

-- The components behind a first one, each behind a `/`.
abbrev pub slashed : List Bytes → Bytes
slashed [] = []
slashed (c ∷ cs) = b'/' ∷ (c ++ slashed cs)

pub joined-slashed : (cs : List Bytes) (v : Bytes) → joined (some v) cs ≡ some (v ++ slashed cs)
unfolding add_name_space
joined-slashed [] v = ap some (sym (append-nil v))
joined-slashed (c ∷ cs) v =
    joined-slashed cs (v ++ b'/' ∷ c) ∙ ap some (append_assoc v (b'/' ∷ c) (slashed cs))

-- The bytes of a component are gathered.
components-append :
    (nsc c cs : Bytes)
    → Without b'/' c
    → length nsc + length c < nsc_size
    → components nsc (c ++ cs) ≡ components (nsc ++ c) cs
unfolding components
components-append nsc [] cs h k = rw (append-nil nsc) refl
components-append nsc (b ∷ c) cs h k =
    rw
      (
        lt→ltb (length nsc) nsc_size (omega arith),
        ne→== b b'/' h.0,
        components-append (nsc ++ b ∷ []) c cs h.1 (omega (arith, length-append nsc (b ∷ []))),
        append_assoc nsc (b ∷ []) c,
      )
      refl

components_last : (c : Bytes) → IsComponent c → components c [] ≡ some (c ∷ [])
unfolding components
components_last c h =
    rw (lt→ltb (length c) nsc_size h.1, ne→== (length c) 0 (λ e. absurd (omega (arith, h.0, e))))
      refl

components_next :
    (c : Bytes) (cs : Bytes) (ul : List Bytes)
    → IsComponent c
    → components [] cs ≡ some ul
    → components c (b'/' ∷ cs) ≡ some (c ∷ ul)
unfolding components
components_next c cs ul h e = rw (components, lt→ltb (length c) nsc_size h.1, e) refl

components-slashed :
    (c : Bytes) (cs : List Bytes)
    → IsComponent c
    → AreComponents cs
    → components [] (c ++ slashed cs) ≡ some (c ∷ cs)
components-slashed c [] h k =
    components-append [] c [] h.2 (omega (arith, h.1)) ∙ components_last c h
components-slashed c (d ∷ cs) h k =
    components-append [] c (slashed (d ∷ cs)) h.2 (omega (arith, h.1))
    ∙ components_next c (d ++ slashed cs) (d ∷ cs) h (components-slashed d cs k.0 k.1)

-- What addXmlNamespace writes for each component.
abbrev pub item : Bytes → Bytes
item c = codes "<NAMESPACE NAME=\"" ++ (c ++ (codes "\"></NAMESPACE>\n" ++ []))

abbrev pub items : List Bytes → Bytes
items [] = []
items (c ∷ cs) = item c ++ items cs

add_components_lem :
    (cs : List Bytes) (sb : StringBuffer) (s : Bytes)
    → Holds sb s
    → (sb' : StringBuffer) × (add_components sb cs ≡ some sb') × Holds sb' (s ++ items cs)
unfolding add_components append3_chars
add_components_lem [] sb s h = (sb, refl, rw append-nil h)
add_components_lem (c ∷ cs) sb s h =
    let (a, e, k) =
      append_all_lem
        (some (codes "<NAMESPACE NAME=\"") ∷ some c ∷ some (codes "\"></NAMESPACE>\n") ∷ []) sb s
        h in
    let (b, f, l) = add_components_lem cs a (s ++ item c) k in
    (
      b,
      ap (λ o. o >>= λ x. add_components x cs) e ∙ f,
      subst (λ t. Holds b t) (append_assoc s (item c) (items cs)) l,
    )

-- The text of a name space.
abbrev pub name_space_text : List Bytes → Bytes
name_space_text cs = codes "<LOCALNAMESPACEPATH>\n" ++ (items cs ++ codes "</LOCALNAMESPACEPATH>\n")

pub add_xml_namespace_lem :
    (c : Bytes) (cs : List Bytes) (sb : StringBuffer) (s : Bytes)
    → Holds sb s
    → IsComponent c
    → AreComponents cs
    → (sb' : StringBuffer) × (add_xml_namespace sb (some (c ++ slashed cs)) ≡ some sb')
      × Holds sb' (s ++ name_space_text (c ∷ cs))
unfolding add_xml_namespace get_name_space_components
add_xml_namespace_lem c cs sb s h p q =
    let head = codes "<LOCALNAMESPACEPATH>\n" in
    let end = codes "</LOCALNAMESPACEPATH>\n" in
    let (a, e, k) = append_chars_lem sb s head h in
    let (b, f, l) = add_components_lem (c ∷ cs) a (s ++ head) k in
    let (d, g, m) = append_chars_lem b ((s ++ head) ++ items (c ∷ cs)) end l in
    (
      d,
      rw (components-slashed c cs p q, e, f) g,
      subst (λ t. Holds d t)
          (append_assoc (s ++ head) (items (c ∷ cs)) end
            ∙ append_assoc s head (items (c ∷ cs) ++ end))
          m,
    )

pub items-lines :
    (cs : List Bytes) (rest : Bytes)
    → b'\n' ∷ (items cs ++ (codes "</LOCALNAMESPACEPATH>\n" ++ rest)) ≡ lines cs (b'\n' ∷ rest)
items-lines [] rest = refl
items-lines (c ∷ cs) rest =
    let quote = codes "\"></NAMESPACE>\n" in
    let end = codes "</LOCALNAMESPACEPATH>\n" ++ rest in
    ap (λ t. b'\n' ∷ (codes "<NAMESPACE NAME=\"" ++ t))
      (append_assoc (c ++ quote) (items cs) end
        ∙ append_assoc c quote (items cs ++ end)
        ∙ ap (λ t. c ++ (codes "\"></NAMESPACE>" ++ t)) (items-lines cs rest))

pub AllWithout-AreComponents : (cs : List Bytes) → AreComponents cs → AllWithout cs
AllWithout-AreComponents [] h = tt
AllWithout-AreComponents (c ∷ cs) h = (h.0.3, AllWithout-AreComponents cs h.1)
