-- ===== src/Tests.antt =====
-- The theorems at concrete inputs. The encapsulated objects are texts here, and a copy of one is
-- that text.
pub mod Properties
pub mod Instances
pub mod Arrays
pub mod Buffers
pub mod Values
pub mod Methods
pub mod Classes
pub mod Lexer
pub mod Escapes
pub mod Heaps
pub mod NameSpaces
pub mod Errors
use mathlib.Core.Path.{refl}
use sblim_sfcc.Base.{Bytes, Option, some, codes, ℕ}
use sblim_sfcc.Content.Objects.{Numbers}
use sblim_sfcc.Cmpi.{
  instance_type, object, ObjectFt, Arg, typed, text, raw, string, uint64_type, string_type,
  KeepsContent,
}

abbrev pub ft : ObjectFt Bytes
ft = record { clone = λ o. o }

instance abbrev pub ft_keeps : KeepsContent ft
ft_keeps = record { clone_same = λ o. refl }

abbrev pub first_name : Bytes
first_name = codes "Name"

abbrev pub other_name : Bytes
other_name = codes "Age"

abbrev pub text_arg : Arg Bytes
text_arg = text (some (codes "x"))

abbrev pub number_arg : Arg Bytes
number_arg = typed uint64_type (some (raw 7))

abbrev pub string_arg : Arg Bytes
string_arg = typed string_type (some (string (some (codes "y"))))

-- Objects that are their numbers, and the calls that number their copies.
abbrev pub number : ℕ → ℕ
number o = o

abbrev pub numbering : ℕ → ObjectFt ℕ
numbering k = record { clone = λ o. k }

pub numbering-Numbers : Numbers number numbering
numbering-Numbers k o = refl

-- One object of the caller, which is set at two places.
abbrev pub object_arg : Arg ℕ
object_arg = typed instance_type (some (object 100))
