-- ===== src/Cmpi.antt =====
-- The data of frontend/sfcc/cmcidt.h: type and state codes with their flag bits, return codes,
-- the union CMPIValue and the triple CMPIData, and the function table of the encapsulated
-- objects, through which the program copies them.
use sblim_sfcc.Base.{ℕ, ◌*◌, ◌≡◌, bit_and, Bool, not, Option, ◌==◌, Bytes}

-- CMPIType. `null_type` is CMPI_null.
abbrev pub null_type : ℕ
null_type = 0

abbrev pub boolean_type : ℕ
boolean_type = 2

abbrev pub real_bits : ℕ
real_bits = 2 * 4

abbrev pub sint64_type : ℕ
sint64_type = 15 * 16

abbrev pub uint64_type : ℕ
uint64_type = 11 * 16

-- CMPI_INTEGER, the union of CMPI_UINT and CMPI_SINT.
abbrev pub integer_bits : ℕ
integer_bits = 12 * 16

abbrev pub enc_bits : ℕ
enc_bits = 16 * 256

abbrev pub instance_type : ℕ
instance_type = 16 * 256

abbrev pub ref_type : ℕ
ref_type = 17 * 256

abbrev pub args_type : ℕ
args_type = 18 * 256

abbrev pub class_type : ℕ
class_type = 19 * 256

abbrev pub enumeration_type : ℕ
enumeration_type = 21 * 256

abbrev pub string_type : ℕ
string_type = 22 * 256

abbrev pub chars_type : ℕ
chars_type = 23 * 256

abbrev pub date_time_type : ℕ
date_time_type = 24 * 256

abbrev pub array_bits : ℕ
array_bits = 8192

-- CMPIValueState
abbrev pub good_value : ℕ
good_value = 0

abbrev pub null_value : ℕ
null_value = 256

abbrev pub key_value : ℕ
key_value = 512

abbrev pub bad_value : ℕ
bad_value = 32768

-- `code & mask`, as a condition.
abbrev pub has : ℕ → ℕ → Bool
has code mask = not (bit_and code mask == 0)

-- The CMPIrc codes that the modelled files return.
pub data Status : Type 0 where
  ok failed invalid_parameter not_supported not_found already_exists no_such_property
        method_not_found :
      Status

-- CMPIValue, as what its last write left: the bits of a scalar or a NULL pointer (`raw 0`), a
-- `char *`, a CMPIString with its `hdl`, another encapsulated object, or a pointer to an
-- object that has been released.
pub data Value (R : Type 0) : Type 0 where
  raw : ℕ → Value R
  chars : Bytes → Value R
  string : Option Bytes → Value R
  object : R → Value R
  freed : Value R

-- CMPIData
pub record Data (R : Type 0) : Type 0 where
  pub type : ℕ
  pub state : ℕ
  pub value : Value R

-- The function table of the encapsulated objects: `o->ft->clone` makes another object.
pub record ObjectFt (R : Type 0) : Type 0 where
  pub clone : R → R

-- Where objects are told apart by what they hold alone, a copy is the same.
pub record KeepsContent {R : Type 0} (ft : ObjectFt R) : Type 0 where
  pub clone_same : (o : R) → ft.clone o ≡ o

-- The pair of a type code and a `CMPIValue *` that a caller hands over. Where the type is
-- CMPI_chars the pointer is the text itself, which `text` stands for: `typed` is for the other types
-- only, since the pointer of a `typed` one points to a union.
pub data Arg (R : Type 0) : Type 0 where
  text : Option Bytes → Arg R
  typed : ℕ → Option (Value R) → Arg R

-- What `__convert2CMPIData` returns for no node.
abbrev pub null_data : {R : Type 0} → Data R
null_data = record { type = 0; state = null_value; value = raw 0 }
