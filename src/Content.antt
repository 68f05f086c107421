-- ===== src/Content.antt =====
-- What a property or a qualifier holds besides its name: made by an addition, with the same text
-- in property.c and qualifier.c, and changed in place.
pub mod Laws
pub mod Objects
pub mod History
use sblim_sfcc.Base.{ℕ, Bool, ◌||◌, Option, none, some, ◌==◌, if◌then◌else◌, ◌>>=◌, Bytes}
use sblim_sfcc.Cmpi.{
  has, null_type, string_type, chars_type, null_value, Value, raw, string, Data, ObjectFt, Arg,
  text, typed,
}
use sblim_sfcc.Value.{native_clone_value, native_release_value}

module _ {R : Type 0} where
  -- The new node's type, state and value, from the caller's.
  unfoldable pub new_content : ObjectFt R → Arg R → ℕ → Option (Data R)
  new_content ft (text s) st =
      if st == null_value
      then some (record { type = chars_type; state = null_value; value = raw 0 })
      else some (record { type = string_type; state = st; value = string s })
  new_content ft (typed t v) st =
      if t == null_type || st == null_value
      then some (record { type = t; state = null_value; value = raw 0 })
      else native_clone_value ft t v >>= λ c. some (record { type = t; state = st; value = c })

  -- The old value, released unless the state says that there is none.
  unfoldable pub release_old : Data R → Option (Value R)
  release_old d =
      if has d.state null_value then some d.value else native_release_value d.type d.value

  -- The branches of __setProperty behind the release: `old` is what that left.
  unfoldable pub set_property_value : ObjectFt R → ℕ → Value R → Arg R → Option (Data R)
  set_property_value ft st old (text s) =
      some (record { type = string_type; state = st; value = string s })
  set_property_value ft st old (typed t none) =
      some (record { type = t; state = null_value; value = old })
  set_property_value ft st old (typed t (some v)) =
      if t == null_type
      then some (record { type = t; state = null_value; value = old })
      else native_clone_value ft t (some v) >>= λ c.
          some (record { type = t; state = st; value = c })

  unfoldable pub set_property_content : ObjectFt R → Arg R → Data R → Option (Data R)
  unfolding set_property_value release_old
  set_property_content ft a d = release_old d >>= λ old. set_property_value ft d.state old a

  -- The same of __setQualifier, which makes no test for a NULL value.
  unfoldable pub set_qualifier_value : ObjectFt R → ℕ → Value R → Arg R → Option (Data R)
  set_qualifier_value ft st old (text s) =
      some (record { type = string_type; state = st; value = string s })
  set_qualifier_value ft st old (typed t v) =
      if t == null_type
      then some (record { type = t; state = null_value; value = old })
      else native_clone_value ft t v >>= λ c. some (record { type = t; state = st; value = c })

  unfoldable pub set_qualifier_content : ObjectFt R → Arg R → Data R → Option (Data R)
  unfolding set_qualifier_value release_old
  set_qualifier_content ft a d = release_old d >>= λ old. set_qualifier_value ft d.state old a
