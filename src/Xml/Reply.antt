-- ===== src/Xml/Reply.antt =====
-- What a function of the table of tags in backend/cimxml/cimXmlParser.c does with a start tag:
-- the token, the fields that it writes into the union of backend/cimxml/cimXmlParser.h and into
-- the header of the response, and the buffer.
use sblim_sfcc.Base.{
  ℕ, zero, suc, Bool, true, false, List, [], ◌∷◌, Option, none, some, if◌then◌else◌, Bytes, codes,
  same_name, ◌||◌,
}
use sblim_sfcc.Cmpi.{null_type, instance_type, array_bits}
use sblim_sfcc.Xml.{Token, no_token, Outcome, done, thrown, ◌>>=◌, XmlBuffer, pointee}
use sblim_sfcc.Xml.Attributes.{attrs_ok, tag_equals, get_content}
use sblim_sfcc.Xml.Types.{xml_to_cmpi_type}
use Prim.Native.Nat.{bit_or}

pub data TypeProperty : Type 0 where
  unknown_property value_property reference_property array_property : TypeProperty

-- The fields of parseUnion that a call writes, in the order of the source. The room behind an
-- array of values is the parser heap's.
pub data Written : Type 0 where
  untouched local_name_space_path : Written
  message method_resp name_space class_name instance_name key_binding instance_start host value :
      Option Bytes → Written
  error_resp class_start key_value : Option Bytes → Option Bytes → Written
  return_value : ℕ → Written
  param_value : Option Bytes → ℕ → Written
  value_array value_ref_array : ℕ → ℕ → Written
  qualifier : Option Bytes → ℕ → Bool → Bool → Bool → Bool → Bool → Written
  property : Option Bytes → ℕ → Option Bytes → Option Bytes → Bool → TypeProperty → Written
  method : Option Bytes → ℕ → Option Bytes → Bool → Written
  param : Token → Option Bytes → ℕ → Option Bytes → Option Bytes → Written

-- `id` is what the call stores in `respHdr.id`, if it does.
pub record Reply : Type 0 where
  pub token : Token
  pub written : Written
  pub id : Option (Option Bytes)
  pub buffer : XmlBuffer

abbrev pub reply : Token → Written → Option (Option Bytes) → XmlBuffer → Reply
reply t w i xb = record { token = t; written = w; id = i; buffer = xb }

abbrev pub no_reply : XmlBuffer → Reply
no_reply xb = reply no_token untouched none xb

-- An entry of `attr`.
abbrev pub attr : List (Option Bytes) → ℕ → Option Bytes
attr [] i = none
attr (a ∷ as') zero = a
attr (a ∷ as') (suc i) = attr as' i

-- `if (tagEquals (…))`, with what follows as `k`.
abbrev pub matched : XmlBuffer → Bool → Option Bytes → (Bytes → Outcome Reply) → Outcome Reply
matched xb false cur k = done (no_reply (record xb { cur = cur }))
matched xb true cur k = pointee cur >>= k

unfoldable pub with_tag : Bytes → XmlBuffer → (Bytes → Outcome Reply) → Outcome Reply
unfolding tag_equals
with_tag tag xb k =
    pointee xb.cur >>= λ cur. tag_equals cur tag >>= λ found. matched xb found.0 found.1 k

-- The frame that the functions of the table share: tagEquals, attrsOk, and what follows.
unfoldable pub element :
    Bytes
    → List Bytes
    → Token
    → XmlBuffer
    → (List (Option Bytes) → XmlBuffer → Outcome Reply)
    → Outcome Reply
unfolding with_tag attrs_ok
element tag e etag xb k = with_tag tag xb (λ c. attrs_ok e tag etag xb c >>= λ r. k r.0 r.1)

-- A flag that is clear unless the attribute says "true".
unfoldable pub is_true : Option Bytes → Bool
is_true none = false
is_true (some s) = same_name s (codes "true")

-- The type of an array parameter.
unfoldable pub array_type : Option Bytes → ℕ
unfolding xml_to_cmpi_type
array_type none = null_type
array_type (some s) = bit_or (xml_to_cmpi_type (some s)) array_bits

-- The type of a PARAMVALUE from its attributes PARAMTYPE and EMBEDDEDOBJECT.
unfoldable pub param_type : List (Option Bytes) → Outcome ℕ
unfolding xml_to_cmpi_type
param_type a = elim (attr a 2) [
  | none ↦ done (xml_to_cmpi_type (attr a 1))
  | some s ↦
      if same_name s (codes "instance") || same_name s (codes "object")
      then done instance_type
      else thrown
]

-- An element whose content is its value.
unfoldable pub with_content : Token → (Option Bytes → Written) → XmlBuffer → Outcome Reply
unfolding get_content
with_content t w xb =
    pointee xb.cur >>= λ cur. done (reply t (w (get_content xb cur).0) none (get_content xb cur).1)

-- An element whose name must be the given one; `strcasecmp` reads the name.
unfoldable pub named : Bytes → Token → Option Bytes → XmlBuffer → Outcome Reply
named s t a xb =
    pointee a >>= λ n. done (if same_name n s then reply t untouched none xb else no_reply xb)
