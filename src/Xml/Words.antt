-- ===== src/Xml/Words.antt =====
-- How getWord and getValue read what is written with spaces, `=` and quotes.
use sblim_sfcc.Base.{
  ℕ, ◌≡◌, ◌≢◌, refl, inl, inr, Bool, true, false, [], ◌∷◌, ◌++◌, none, some, arith, ◌==◌, ==_refl,
  ne→==, if◌then◌else◌, Bool-cases, Bytes, same_name, to_lower,
}
use sblim_sfcc.Xml.{
  done, is_blank, is_alpha, is_alnum, at, exactly, skip_ws, behind, get_char, at_word_end, get_word,
  cut_at, value_to, get_value,
}
use sblim_sfcc.Xml.Attributes.{value_behind}

-- Letters and digits.
abbrev pub AllAlnum : Bytes → Type 0
AllAlnum [] = Unit {0}
AllAlnum (c ∷ cs) = (is_alnum c ≡ true) × AllAlnum cs

-- A name of an attribute: letters and digits behind a letter.
abbrev pub IsName : Bytes → Type 0
IsName [] = ⊥
IsName (c ∷ cs) = (is_alpha c ≡ true) × AllAlnum cs

-- No byte of the text is `d`.
abbrev pub Without : ℕ → Bytes → Type 0
Without d [] = Unit {0}
Without d (c ∷ cs) = (c ≢ d) × Without d cs

IsName-AllAlnum : (n : Bytes) → IsName n → AllAlnum n
IsName-AllAlnum [] h = tt
IsName-AllAlnum (c ∷ cs) h = (ground (arith, h.0), h.1)

pub cut_at-append : (d : ℕ) (s r : Bytes) → Without d s → cut_at d (s ++ d ∷ r) ≡ some (s, r)
unfolding cut_at
cut_at-append d [] r h = rw (cut_at, ==_refl d) refl
cut_at-append d (c ∷ s) r h = rw (cut_at, ne→== c d h.0, cut_at-append d s r h.1) refl

pub behind-append : (fold : ℕ → ℕ) (w x : Bytes) → behind fold w (w ++ x) ≡ some x
unfolding behind
behind-append fold [] x = refl
behind-append fold (c ∷ w) x = rw (==_refl (fold c)) (behind-append fold w x)

-- A word that is written is read, if no letter or digit follows it.
pub get_word-append :
    (w x : Bytes) (b : Bool) → at is_alnum x ≡ false → get_word (w ++ x) w b ≡ some x
unfolding get_word
get_word-append w x b h = rw (behind-append (if b then exactly else to_lower) w x, h) refl

equals_sign : (c : ℕ) → is_alnum c ≡ true → to_lower c == to_lower b'=' ≡ false
unfolding to_lower
equals_sign c h = ground arith

behind-other :
    (w n x : Bytes)
    → AllAlnum w
    → AllAlnum n
    → same_name w n ≡ false
    → at_word_end (behind to_lower w (n ++ b'=' ∷ x)) ≡ none
unfolding behind same_name
behind-other [] [] x p q h = ground arith
behind-other [] (c ∷ n) x p q h = rw q.0 refl
behind-other (a ∷ w) [] x p q h =
    let differ : to_lower a == to_lower b'=' ≡ false = equals_sign a p.0 in rw differ refl
behind-other (a ∷ w) (c ∷ n) x p q h = elim (Bool-cases (to_lower a == to_lower c)) [
  | inr e ↦ rw e refl
  | inl e ↦ rw e (behind-other w n x p.1 q.1 (rw e at h))
]

-- A name in front of `=` is not taken for another.
pub get_word-other :
    (w n x : Bytes)
    → IsName w
    → IsName n
    → same_name w n ≡ false
    → get_word (n ++ b'=' ∷ x) w false ≡ none
unfolding get_word
get_word-other w n x p q h = behind-other w n x (IsName-AllAlnum w p) (IsName-AllAlnum n q) h

pub skip_ws-IsName : (n x : Bytes) → IsName n → skip_ws (n ++ x) ≡ n ++ x
unfolding skip_ws
skip_ws-IsName [] x h = elim h [ ]
skip_ws-IsName (c ∷ n) x h = let seen : is_blank c ≡ false = ground (arith, h.0) in rw seen refl

pub value_behind-append :
    (v x : Bytes) → Without b'"' v → value_behind (b'=' ∷ b'"' ∷ (v ++ b'"' ∷ x)) ≡ done (some v, x)
unfolding value_behind get_value value_to skip_ws get_char
value_behind-append v x h = rw (value_behind, get_value, value_to, cut_at-append b'"' v x h) refl
