-- ===== src/NameSpace/Hosts.antt =====
-- The path of a name space with its host, as text and as what the parser of the responses makes of
-- it.
use mathlib.Core.Path.{subst}
use sblim_sfcc.Base.{
  ◌≡◌, ◌∙◌, ap, false, List, [], ◌∷◌, ◌++◌, Option, some, append_assoc, Bytes, codes,
}
use sblim_sfcc.Grammar.{add_name_space, name_space_path}
use sblim_sfcc.Grammar.Hosts.{host_text, name_space_path_lem}
use sblim_sfcc.Grammar.NameSpaces.{parser}
use sblim_sfcc.NameSpace.{add_xml_namespace_path, host_or_local}
use sblim_sfcc.NameSpace.RoundTrip.{
  IsComponent, AreComponents, slashed, items, name_space_text, add_xml_namespace_lem, items-lines,
  AllWithout-AreComponents, joined-slashed,
}
use sblim_sfcc.StringBuffer.{StringBuffer, append3_chars}
use sblim_sfcc.StringBuffer.Laws.{Holds, append_chars_lem, append_all_lem}
use sblim_sfcc.Xml.{Token, ztok_namespacepath, done}
use sblim_sfcc.Xml.Elements.{IsTrim}
use sblim_sfcc.Xml.Reply.{Written, host}
use sblim_sfcc.Xml.Words.{Without}

-- The element HOST with its line end.
abbrev host_item : Bytes → Bytes
host_item h = codes "<HOST>" ++ (h ++ (codes "</HOST>\n" ++ []))

abbrev path_text : Bytes → List Bytes → Bytes
path_text h cs =
    codes "<NAMESPACEPATH>\n" ++ (host_item h ++ (name_space_text cs ++ codes "</NAMESPACEPATH>\n"))

add_xml_namespace_path_lem :
    (hn : Option Bytes) (c : Bytes) (cs : List Bytes) (sb : StringBuffer) (s : Bytes)
    → Holds sb s
    → IsComponent c
    → AreComponents cs
    → (sb' : StringBuffer) × (add_xml_namespace_path sb hn (some (c ++ slashed cs)) ≡ some sb')
      × Holds sb' (s ++ path_text (host_or_local hn) (c ∷ cs))
unfolding add_xml_namespace_path append3_chars
add_xml_namespace_path_lem hn c cs sb s h p q =
    let n = host_or_local hn in
    let start = codes "<NAMESPACEPATH>\n" in
    let end = codes "</NAMESPACEPATH>\n" in
    let text = name_space_text (c ∷ cs) in
    let (a, e, k) = append_chars_lem sb s start h in
    let (b, f, l) =
      append_all_lem (some (codes "<HOST>") ∷ some n ∷ some (codes "</HOST>\n") ∷ []) a (s ++ start)
        k in
    let (d, g, m) = add_xml_namespace_lem c cs b ((s ++ start) ++ host_item n) l p q in
    let (r, j, o) = append_chars_lem d (((s ++ start) ++ host_item n) ++ text) end m in
    (
      r,
      rw (e, f, g) j,
      subst (λ t. Holds r t)
          (append_assoc ((s ++ start) ++ host_item n) text end
            ∙ append_assoc (s ++ start) (host_item n) (text ++ end)
            ∙ append_assoc s start (host_item n ++ (text ++ end)))
          o,
    )

path_text-lines :
    (h : Bytes) (cs : List Bytes) (rest : Bytes)
    → path_text h cs ++ rest ≡ host_text h cs (b'\n' ∷ rest)
path_text-lines h cs rest =
    let close = codes "</HOST>\n" ++ [] in
    let end = codes "</NAMESPACEPATH>\n" in
    let local = codes "</LOCALNAMESPACEPATH>\n" in
    let text = name_space_text cs in
    ap (λ t. codes "<NAMESPACEPATH>\n" ++ t)
      (append_assoc (host_item h) (text ++ end) rest
        ∙ ap (λ t. codes "<HOST>" ++ t)
            (append_assoc h close ((text ++ end) ++ rest)
              ∙ ap (λ t. h ++ (codes "</HOST>\n" ++ t))
                  (append_assoc text end rest
                    ∙ ap (λ t. codes "<LOCALNAMESPACEPATH>" ++ b'\n' ∷ t)
                        (append_assoc (items cs) local (end ++ rest))
                    ∙ ap (λ t. codes "<LOCALNAMESPACEPATH>" ++ t) (items-lines cs (end ++ rest)))))

-- A host that neither begins nor ends with a blank and has no `<`, or no host, and a name space of
-- one component or more, each of 1 to 255 bytes without `/` and without quotes, with a `/` between
-- each two: addXmlNamespacePath appends a text to the buffer of a request, with no fault, and
-- nameSpacePath reads from that text the host, or `localhost`, and the name space, and leaves what
-- stands behind its end tag.
pub name_space_path_round_trip :
    (hn : Option Bytes) (c : Bytes) (cs : List Bytes) (sb : StringBuffer) (s : Bytes)
    → Holds sb s
    → IsTrim (host_or_local hn)
    → Without b'<' (host_or_local hn)
    → IsComponent c
    → AreComponents cs
    → let ns = c ++ slashed cs in
      (t : Bytes) × (sb' : StringBuffer) × (add_xml_namespace_path sb hn (some ns) ≡ some sb')
      × Holds sb' (s ++ t)
      × ((rest : Bytes) (etag ct : Token) (u : Written) (i : Option Bytes)
          → name_space_path u (parser (t ++ rest) etag ct false i)
            ≡ done (
              (host (some (host_or_local hn)), some ns),
              parser (b'\n' ∷ rest) etag ztok_namespacepath false i,
            ))
unfolding add_name_space
name_space_path_round_trip hn c cs sb s h v w p q =
    let n = host_or_local hn in
    let (sb', e, k) = add_xml_namespace_path_lem hn c cs sb s h p q in
    (
      path_text n (c ∷ cs),
      sb',
      e,
      k,
      λ rest etag ct u i.
          ap (λ x. name_space_path u (parser x etag ct false i)) (path_text-lines n (c ∷ cs) rest)
          ∙ name_space_path_lem n (c ∷ cs) (b'\n' ∷ rest) etag ct u i v w
              (AllWithout-AreComponents (c ∷ cs) (p, q))
          ∙ ap
              (λ o.
                done ((host (some n), o), parser (b'\n' ∷ rest) etag ztok_namespacepath false i))
              (joined-slashed cs c),
    )
