-- ===== src/Qualifier/Laws.antt =====
-- The list of qualifiers as a map from names, and what its release and its copy need.
use sblim_sfcc.Base.{
  ℕ, ◌≡◌, refl, true, false, List, [], ◌∷◌, ◌++◌, none, some, arith, if◌then◌else◌, Bytes,
  same_name,
}
use sblim_sfcc.Cmpi.{ok, Data, ObjectFt, Arg, KeepsContent}
use sblim_sfcc.Content.{new_content, set_qualifier_content}
use sblim_sfcc.Content.Laws.{
  IsAddable, IsHeld, IsQualifierArg, new_content-IsHeld, set_qualifier_content-IsHeld,
  release_total,
}
use sblim_sfcc.Named.{find}
use sblim_sfcc.Named.Laws.{
  IsUnique, find-concat, add_absent, replace, change_present, find-replace, IsUnique-concat,
  IsUnique-replace, All, All-concat, All-replace, All-find,
}
use sblim_sfcc.Qualifier.{
  Qualifier, name_of, add_qualifier, set_qualifier, get_data_qualifier, release_qualifiers,
  clone_qualifiers,
}
use sblim_sfcc.Value.Copies.{is_sound, clone_same}

module _ {R : Type 0} where
  -- Each node can be released.
  abbrev pub AllHeld : List (Qualifier R) → Type 0
  AllHeld = All name_of (λ q. IsHeld q.content)

  abbrev pub IsValid : List (Qualifier R) → Type 0
  IsValid qs = IsUnique name_of qs × AllHeld qs

  -- A valid list of qualifiers is released with no fault.
  pub release_qualifiers_total :
      (qs : List (Qualifier R)) → AllHeld qs → release_qualifiers qs ≡ some tt
  unfolding release_qualifiers
  release_qualifiers_total [] h = refl
  release_qualifiers_total (q ∷ qs) h =
      let (w, e) = release_total q.content.type q.content.value h.0.1 in
      rw e (release_qualifiers_total qs h.1)

  -- The values fit their types.
  abbrev pub AllSound : List (Qualifier R) → Type 0
  AllSound = All name_of (λ q. is_sound q.content.type q.content.value ≡ true)

  pub clone_qualifiers_same :
      (ft : ObjectFt R) ⦃keeps : KeepsContent ft⦄ (qs : List (Qualifier R))
      → AllSound qs
      → clone_qualifiers ft qs ≡ some qs
  unfolding clone_qualifiers
  clone_qualifiers_same ft [] h = refl
  clone_qualifiers_same ft (q ∷ qs) h =
      rw (clone_same ft q.content.type q.content.value h.0, clone_qualifiers_same ft qs h.1)

  -- addQualifier to a valid list where the name is new, with a proper argument and state: no
  -- fault, the list stays valid, and the look-up of that name alone changes, to the new content.
  pub add_qualifier_lem :
      (ft : ObjectFt R) (n : Bytes) (a : Arg R) (st : ℕ) (qs : List (Qualifier R))
      → IsValid qs
      → IsAddable a st
      → find name_of n qs ≡ none
      → (d : Data R) × (qs' : List (Qualifier R)) × (new_content ft a st ≡ some d)
        × (add_qualifier ft n a st qs ≡ some (false, qs'))
        × IsValid qs'
        × ((m : Bytes)
            → get_data_qualifier qs' (some m)
              ≡ (if same_name n m then (d, ok) else get_data_qualifier qs (some m)))
  unfolding add_qualifier get_data_qualifier
  add_qualifier_lem ft n a st qs v p f =
      let (d, e, held) = new_content-IsHeld ft a st p in
      let q : Qualifier R = record { name = n; content = d } in
      (
        d,
        qs ++ q ∷ [],
        e,
        rw e (add_absent name_of n q qs f),
        (
          IsUnique-concat name_of qs q v.0 f,
          All-concat name_of (λ p. IsHeld p.content) qs q v.1 held,
        ),
        λ m. rw (find-concat name_of m qs q f) (ground arith),
      )

  -- setQualifier on a valid list at a name that is there, with a proper argument: no fault, the
  -- list stays valid, and that name alone has the changed content.
  pub set_qualifier_lem :
      (ft : ObjectFt R) (n : Bytes) (a : Arg R) (qs : List (Qualifier R)) (q : Qualifier R)
      → IsValid qs
      → IsQualifierArg a
      → find name_of n qs ≡ some q
      → (d : Data R) × (qs' : List (Qualifier R)) × (set_qualifier_content ft a q.content ≡ some d)
        × (set_qualifier ft n a qs ≡ some (true, qs'))
        × IsValid qs'
        × ((m : Bytes)
            → get_data_qualifier qs' (some m)
              ≡ (if same_name n m then (d, ok) else get_data_qualifier qs (some m)))
  unfolding set_qualifier get_data_qualifier
  set_qualifier_lem ft n a qs q v p f =
      let (d, e, held) =
        set_qualifier_content-IsHeld ft a q.content
          (All-find name_of (λ p. IsHeld p.content) n qs q v.1 f) p in
      let q' : Qualifier R = record q { content = d } in
      (
        d,
        replace name_of n q' qs,
        e,
        change_present name_of n _ qs q q' f (rw e refl),
        (
          IsUnique-replace name_of n q' qs q v.0 f refl,
          All-replace name_of (λ p. IsHeld p.content) n qs q' v.1 held,
        ),
        λ m. rw (find-replace name_of n m qs q q' f refl) (ground arith),
      )
