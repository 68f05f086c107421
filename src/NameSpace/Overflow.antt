-- ===== src/NameSpace/Overflow.antt =====
-- A component of a name space that `nsc` has no room for.
use sblim_sfcc.Base.{
  ◌+◌, ◌≤◌, ◌≡◌, inl, inr, refl, [], ◌∷◌, ◌++◌, none, some, length, length-append, Bytes, arith,
  ltb, le→ltb, ne→==, Bool-cases,
}
use sblim_sfcc.NameSpace.{nsc_size, components, get_name_space_components}
use sblim_sfcc.Xml.Words.{Without}

-- A component reaches the end of `nsc` before it ends.
components_overflow :
    (nsc c rest : Bytes)
    → Without b'/' c
    → nsc_size ≤ length nsc + length c
    → components nsc (c ++ rest) ≡ none
unfolding components
components_overflow nsc [] [] h k = rw (le→ltb (length nsc) nsc_size (omega arith)) refl
components_overflow nsc [] (c ∷ rest) h k =
    rw (components, le→ltb (length nsc) nsc_size (omega arith)) refl
components_overflow nsc (b ∷ c) rest h k =
    let more =
      components_overflow (nsc ++ b ∷ []) c rest h.1 (omega (arith, length-append nsc (b ∷ []))) in
    elim (Bool-cases (ltb (length nsc) nsc_size)) [
      | inl e ↦ rw (e, ne→== b b'/' h.0, more) refl
      | inr e ↦ rw (components, e) refl
    ]

-- A name space whose first component has 256 bytes or more: getNameSpaceComponents writes past the
-- end of `nsc`.
pub get_name_space_components_overflow :
    (c rest : Bytes)
    → Without b'/' c
    → nsc_size ≤ length c
    → get_name_space_components (some (c ++ rest)) ≡ none
unfolding get_name_space_components
get_name_space_components_overflow c rest h k = components_overflow [] c rest h (omega (arith, k))
