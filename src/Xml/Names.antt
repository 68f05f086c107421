-- ===== src/Xml/Names.antt =====
-- A test of the names of attributes: letters and digits behind a letter, and all different.
use sblim_sfcc.Base.{
  ◌≡◌, refl, Bool, true, false, not, ◌&&◌, List, [], ◌∷◌, Bytes, arith, same_name,
}
use sblim_sfcc.Xml.{is_alpha, is_alnum}
use sblim_sfcc.Xml.RoundTrip.{IsNew, AreNames}
use sblim_sfcc.Xml.Words.{AllAlnum, IsName}

abbrev pub all_alnum : Bytes → Bool
all_alnum [] = true
all_alnum (c ∷ cs) = is_alnum c && all_alnum cs

abbrev pub is_name : Bytes → Bool
is_name [] = false
is_name (c ∷ cs) = is_alpha c && all_alnum cs

abbrev pub is_new : Bytes → List Bytes → Bool
is_new n [] = true
is_new n (m ∷ ms) = not (same_name n m) && is_new n ms

abbrev pub are_names : List Bytes → Bool
are_names [] = true
are_names (n ∷ ns) = is_name n && (is_new n ns && are_names ns)

and_left : (a b : Bool) → a && b ≡ true → a ≡ true
and_left true b h = refl
and_left false b h = h

and_right : (a b : Bool) → a && b ≡ true → b ≡ true
and_right true b h = h
and_right false b h = ground arith

not_inv : (a : Bool) → not a ≡ true → a ≡ false
not_inv true h = ground arith
not_inv false h = refl

AllAlnum-all_alnum : (n : Bytes) → all_alnum n ≡ true → AllAlnum n
AllAlnum-all_alnum [] h = tt
AllAlnum-all_alnum (c ∷ n) h = (
  and_left (is_alnum c) (all_alnum n) h,
  AllAlnum-all_alnum n (and_right (is_alnum c) (all_alnum n) h),
)

IsName-is_name : (n : Bytes) → is_name n ≡ true → IsName n
IsName-is_name [] h = ground arith
IsName-is_name (c ∷ n) h = (
  and_left (is_alpha c) (all_alnum n) h,
  AllAlnum-all_alnum n (and_right (is_alpha c) (all_alnum n) h),
)

IsNew-is_new : (n : Bytes) (ns : List Bytes) → is_new n ns ≡ true → IsNew n ns
IsNew-is_new n [] h = tt
IsNew-is_new n (m ∷ ms) h = (
  not_inv (same_name n m) (and_left (not (same_name n m)) (is_new n ms) h),
  IsNew-is_new n ms (and_right (not (same_name n m)) (is_new n ms) h),
)

pub AreNames-are_names : (ns : List Bytes) → are_names ns ≡ true → AreNames ns
AreNames-are_names [] h = tt
AreNames-are_names (n ∷ ns) h =
    let rest = and_right (is_name n) (is_new n ns && are_names ns) h in
    (
      IsName-is_name n (and_left (is_name n) (is_new n ns && are_names ns) h),
      IsNew-is_new n ns (and_left (is_new n ns) (are_names ns) rest),
      AreNames-are_names ns (and_right (is_new n ns) (are_names ns) rest),
    )
