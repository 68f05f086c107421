-- ===== src/NameSpace.antt =====
-- The name space of a path in a request, and its host: getNameSpaceComponents of
-- backend/cimxml/objectpath.c, addXmlNamespace and addXmlNamespacePath of backend/cimxml/client.c.
pub mod RoundTrip
pub mod Overflow
pub mod Hosts
use sblim_sfcc.Base.{
  ℕ, ◌+◌, Bool, List, [], ◌∷◌, ◌++◌, Option, none, some, ◌==◌, ltb, if◌then◌else◌, ◌>>=◌, length,
  Bytes, codes,
}
use sblim_sfcc.StringBuffer.{StringBuffer, append_chars, append3_chars}

-- The size of `nsc`.
abbrev pub nsc_size : ℕ
nsc_size = 256

-- The loop over the bytes of the name space: `nsc` holds the `s` bytes of the component so far, and
-- a write at `nsc_size` is a fault.
unfoldable pub components : Bytes → Bytes → Option (List Bytes)
components nsc [] =
    if ltb (length nsc) nsc_size then some (if length nsc == 0 then [] else nsc ∷ []) else none
components nsc (c ∷ cs) =
    let next = components [] cs >>= λ ul. some (nsc ∷ ul) in
    let more = components (nsc ++ c ∷ []) cs in
    if ltb (length nsc) nsc_size then (if c == b'/' then next else more) else none

-- getNameSpaceComponents, of the name space of the path.
unfoldable pub get_name_space_components : Option Bytes → Option (List Bytes)
unfolding components
get_name_space_components none = some []
get_name_space_components (some ns) = components [] ns

unfoldable pub add_components : StringBuffer → List Bytes → Option StringBuffer
unfolding append3_chars
add_components sb [] = some sb
add_components sb (nsp ∷ nsc) =
    append3_chars sb (some (codes "<NAMESPACE NAME=\"")) (some nsp)
      (some (codes "\"></NAMESPACE>\n"))
    >>= λ b. add_components b nsc

unfoldable pub add_xml_namespace : StringBuffer → Option Bytes → Option StringBuffer
unfolding get_name_space_components add_components append_chars
add_xml_namespace sb ns = get_name_space_components ns >>= λ nsc.
    append_chars sb (some (codes "<LOCALNAMESPACEPATH>\n")) >>= λ a.
    add_components a nsc >>= λ b. append_chars b (some (codes "</LOCALNAMESPACEPATH>\n"))

unfoldable pub host_or_local : Option Bytes → Bytes
host_or_local none = codes "localhost"
host_or_local (some h) = h

-- addXmlNamespacePath, of the host and the name space of the path.
unfoldable pub add_xml_namespace_path :
    StringBuffer → Option Bytes → Option Bytes → Option StringBuffer
unfolding host_or_local add_xml_namespace append_chars append3_chars
add_xml_namespace_path sb hn ns = append_chars sb (some (codes "<NAMESPACEPATH>\n")) >>= λ a.
    append3_chars a (some (codes "<HOST>")) (some (host_or_local hn)) (some (codes "</HOST>\n"))
    >>= λ b. add_xml_namespace b ns >>= λ c. append_chars c (some (codes "</NAMESPACEPATH>\n"))
