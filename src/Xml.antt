-- ===== src/Xml.antt =====
-- backend/cimxml/cimXmlParser.c: the buffer that the lexer reads and writes, and the scanners of
-- words, attributes and contents. The buffer is the bytes from `cur` to `last`, without the NUL
-- behind them; a read or a write behind that NUL, or through NULL, is a fault. `char` is signed,
-- as on x86: the bytes from 128 on compare below a blank.
pub mod Attributes
pub mod Types
pub mod Reply
pub mod Messages
pub mod Paths
pub mod Declarations
pub mod Lex
pub mod Shrinks
pub mod Progress
pub mod Advance
pub mod Frames
pub mod Processes
pub mod Terminates
pub mod Words
pub mod RoundTrip
pub mod Tags
pub mod Names
pub mod Table
pub mod Elements
pub mod TypeNames
pub mod Faults
use sblim_sfcc.Base.{
  ℕ, zero, suc, Bool, true, false, not, ◌&&◌, ◌||◌, List, [], ◌∷◌, map, Option, none, some, ◌==◌,
  leb, if◌then◌else◌, length, Bytes, to_lower, codes, same_text,
}

-- The tokens: `no_token` is 0, which sfccLex returns where it finds none.
pub data Token : Type 0 where
  no_token xtok_xml ztok_xml xtok_cim ztok_cim xtok_message ztok_message xtok_simplersp
        ztok_simplersp xtok_simpleexpreq ztok_simpleexpreq xtok_exportindication ztok_expmethodcall
        xtok_ep_instance ztok_expparamvalue xtok_imethodresp ztok_imethodresp xtok_methodresp
        ztok_methodresp xtok_error ztok_error xtok_iretvalue ztok_iretvalue xtok_retvalue
        ztok_retvalue xtok_namespacepath ztok_namespacepath xtok_localnamespacepath
        ztok_localnamespacepath xtok_namespace ztok_namespace ztok_iparamvalue xtok_returnvalue
        ztok_returnvalue xtok_host ztok_host xtok_value ztok_value xtok_valuearray ztok_valuearray
        xtok_valuereference ztok_valuereference xtok_classname ztok_classname xtok_instancename
        ztok_instancename xtok_keybinding ztok_keybinding xtok_keyvalue ztok_keyvalue
        xtok_valuenamedinstance ztok_valuenamedinstance xtok_qualifier ztok_qualifier xtok_property
        ztok_property xtok_propertyarray ztok_propertyarray xtok_propertyreference
        ztok_propertyreference xtok_param ztok_param xtok_paramarray ztok_paramarray xtok_paramref
        ztok_paramref xtok_paramrefarray ztok_paramrefarray xtok_method ztok_method xtok_class
        ztok_class xtok_instance ztok_instance xtok_valueobjectwithpath ztok_valueobjectwithpath
        xtok_paramvalue ztok_paramvalue xtok_instancepath ztok_instancepath xtok_objectpath
        ztok_objectpath xtok_localinstancepath ztok_localinstancepath xtok_localclasspath
        ztok_localclasspath xtok_classpath ztok_classpath xtok_valuerefarray ztok_valuerefarray
        xtok_cdata ztok_cdata :
      Token

-- How a call ends: with a result, in `Throw`, which leaves the program, in an access outside
-- the buffer, or not at all.
pub data Outcome {ℓ} (A : Type ℓ) : Type ℓ where
  done : A → Outcome A
  thrown fault endless : Outcome A

infixl 5 ◌>>=◌
abbrev pub ◌>>=◌ {ℓ κ} : {A : Type ℓ} {B : Type κ} → Outcome A → (A → Outcome B) → Outcome B
done a >>= f = f a
thrown >>= f = thrown
fault >>= f = fault
endless >>= f = endless

-- struct xmlBuffer: `cur` is `none` where it is NULL, and `nulled` says that `nulledChar` is set.
pub record XmlBuffer : Type 0 where
  pub cur : Option Bytes
  pub nulled : Bool
  pub e_tag_found : Bool
  pub etag : Token

unfoldable pub new_xml_buffer : Bytes → XmlBuffer
new_xml_buffer s = record { cur = some s; nulled = false; e_tag_found = false; etag = no_token }

-- A read through a pointer.
abbrev pub pointee : Option Bytes → Outcome Bytes
pointee none = fault
pointee (some c) = done c

-- `c <= ' '` on a signed char.
abbrev pub is_blank : ℕ → Bool
is_blank c = leb c b' ' || leb 128 c

-- `isalpha` and `isalnum` in the C locale.
abbrev pub is_alpha : ℕ → Bool
is_alpha c = (leb b'A' c && leb c b'Z') || (leb b'a' c && leb c b'z')

abbrev pub is_alnum : ℕ → Bool
is_alnum c = is_alpha c || (leb b'0' c && leb c b'9')

-- A test of the byte at a place; the byte at the end is NUL.
abbrev pub at : (ℕ → Bool) → Bytes → Bool
at p [] = p 0
at p (c ∷ cs) = p c

unfoldable pub skip_ws : Bytes → Bytes
skip_ws [] = []
skip_ws (c ∷ cs) = let rest = skip_ws cs in if is_blank c then rest else c ∷ cs

-- What stands behind a text at the start, up to the case where `fold` says so.
unfoldable pub behind : (ℕ → ℕ) → Bytes → Bytes → Option Bytes
behind fold [] cur = some cur
behind fold (w ∷ ws) [] = none
behind fold (w ∷ ws) (c ∷ cs) =
    let rest = behind fold ws cs in if fold w == fold c then rest else none

abbrev pub exactly : ℕ → ℕ
exactly c = c

unfoldable pub get_chars : Bytes → Bytes → Option Bytes
unfolding behind
get_chars cur s = behind exactly s cur

unfoldable pub get_char : Bytes → ℕ → Option Bytes
get_char [] c = none
get_char (b ∷ cur) c = if b == c then some cur else none

-- A match counts if no letter or digit follows it.
abbrev pub at_word_end : Option Bytes → Option Bytes
at_word_end none = none
at_word_end (some cur) = if at is_alnum cur then none else some cur

unfoldable pub next_equals : Bytes → Bytes → Bool
unfolding behind
next_equals n t = elim (at_word_end (behind exactly t n)) [ none ↦ false | some cur ↦ true ]

unfoldable pub get_word : Bytes → Bytes → Bool → Option Bytes
unfolding behind
get_word cur w x_case = at_word_end (behind (if x_case then exactly else to_lower) w cur)

-- The bytes before the first `d`, and those behind it.
unfoldable pub cut_at : ℕ → Bytes → Option (Bytes × Bytes)
cut_at d [] = none
cut_at d (c ∷ cs) =
    let rest = cut_at d cs in
    if c == d then some ([], cs) else elim rest [ none ↦ none | some (s, r) ↦ some (c ∷ s, r) ]

-- `strstr`: the bytes before the first `s`, and those behind it.
unfoldable pub cut_at_text : Bytes → Bytes → Option (Bytes × Bytes)
unfolding behind
cut_at_text s [] = elim (behind exactly s []) [ none ↦ none | some r ↦ some ([], r) ]
cut_at_text s (c ∷ cs) =
    let rest = cut_at_text s cs in
    elim (behind exactly s (c ∷ cs)) [
      | some r ↦ some ([], r)
      | none ↦ elim rest [ none ↦ none | some (t, r) ↦ some (c ∷ t, r) ]
    ]

-- The loop ends at `last` too, and the step behind it leaves the buffer: a text without `>` is a
-- fault either way.
unfoldable pub skip_tag : Bytes → Outcome Bytes
unfolding cut_at
skip_tag cur = elim (cut_at b'>' cur) [ none ↦ fault | some (s, r) ↦ done r ]

-- The loop of getValue, up to the delimiter `dlm`, which becomes the NUL behind the value.
unfoldable pub value_to : ℕ → Bytes → Outcome (Option Bytes × Bytes)
unfolding cut_at
value_to dlm cur = elim (cut_at dlm cur) [ none ↦ fault | some (v, r) ↦ done (some v, r) ]

unfoldable pub get_value : Bytes → Outcome (Option Bytes × Bytes)
unfolding skip_ws get_char value_to
get_value cur = elim (get_char (skip_ws cur) b'"') [
  | some r ↦ value_to b'"' r
  | none ↦ elim (get_char (skip_ws cur) b'\'') [
    | some r ↦ value_to b'\'' r
    | none ↦ done (none, skip_ws cur)
  ]
]
