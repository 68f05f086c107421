-- ===== src/Xml/RoundTrip.antt =====
-- Attributes and start tags that are written are read back.
use mathlib.Core.List.{append_assoc}
use sblim_sfcc.Base.{
  ℕ, zero, suc, ◌<◌, ◌≡◌, ◌∙◌, ap, refl, inl, inr, ◌⊎◌, Bool, true, false, List, [], ◌∷◌, ◌++◌,
  Option, none, some, arith, if◌then◌else◌, length, Bytes, same_name,
}
use sblim_sfcc.Xml.{done, ◌>>=◌, is_alpha, at, skip_ws, get_word}
use sblim_sfcc.Xml.Attributes.{Slot, slots, attrs, value_behind, read_attr, read_attrs}
use sblim_sfcc.Xml.Words.{
  IsName, Without, get_word-append, get_word-other, skip_ws-IsName, value_behind-append,
}

-- The value of an attribute, in front of `x`.
abbrev pub quoted : Bytes → Bytes → Bytes
quoted v x = b'=' ∷ b'"' ∷ (v ++ b'"' ∷ x)

-- Attributes as a server writes them, in front of the end of the tag.
abbrev pub render : List Bytes → List (Option Bytes) → Bytes → Bytes
render [] vs end = end
render (n ∷ ns) [] end = end
render (n ∷ ns) (none ∷ vs) end = render ns vs end
render (n ∷ ns) (some v ∷ vs) end = b' ' ∷ (n ++ quoted v (render ns vs end))

-- One value or none for each name, and no quote in a value.
abbrev pub AreValues : List Bytes → List (Option Bytes) → Type 0
AreValues [] [] = Unit {0}
AreValues [] (v ∷ vs) = ⊥
AreValues (n ∷ ns) [] = ⊥
AreValues (n ∷ ns) (none ∷ vs) = AreValues ns vs
AreValues (n ∷ ns) (some v ∷ vs) = Without b'"' v × AreValues ns vs

-- The name is none of the others, whatever its case.
abbrev pub IsNew : Bytes → List Bytes → Type 0
IsNew n [] = Unit {0}
IsNew n (m ∷ ms) = (same_name n m ≡ false) × IsNew n ms

abbrev pub AreNames : List Bytes → Type 0
AreNames [] = Unit {0}
AreNames (n ∷ ns) = IsName n × IsNew n ns × AreNames ns

-- An entry that no attribute of the names in `ns` is taken for.
abbrev pub Passed : List Bytes → Slot → Type 0
Passed ns s = (s.wa ≡ true) ⊎ (IsName s.name × IsNew s.name ns)

abbrev pub AllPassed : List Bytes → List Slot → Type 0
AllPassed ns [] = Unit {0}
AllPassed ns (s ∷ ss) = Passed ns s × AllPassed ns ss

abbrev pub fill : List Bytes → List (Option Bytes) → List Slot
fill [] vs = []
fill (n ∷ ns) [] = slots (n ∷ ns)
fill (n ∷ ns) (none ∷ vs) = record { name = n; attr = none; wa = false } ∷ fill ns vs
fill (n ∷ ns) (some v ∷ vs) = record { name = n; attr = some v; wa = true } ∷ fill ns vs

pub attrs-fill :
    (ns : List Bytes) (vs : List (Option Bytes)) → AreValues ns vs → attrs (fill ns vs) ≡ vs
attrs-fill [] [] h = refl
attrs-fill [] (v ∷ vs) h = elim h [ ]
attrs-fill (n ∷ ns) [] h = elim h [ ]
attrs-fill (n ∷ ns) (none ∷ vs) h = ap (◌∷◌ none) (attrs-fill ns vs h)
attrs-fill (n ∷ ns) (some v ∷ vs) h = ap (◌∷◌ (some v)) (attrs-fill ns vs h.1)

AllPassed-tail :
    (n : Bytes) (ns : List Bytes) (ss : List Slot) → AllPassed (n ∷ ns) ss → AllPassed ns ss
AllPassed-tail n ns [] h = tt
AllPassed-tail n ns (s ∷ ss) h =
    (elim h.0 [ inl e ↦ inl e | inr p ↦ inr (p.0, p.1.1) ], AllPassed-tail n ns ss h.1)

AllPassed-concat :
    (ns : List Bytes) (ss : List Slot) (s : Slot)
    → AllPassed ns ss
    → Passed ns s
    → AllPassed ns (ss ++ s ∷ [])
AllPassed-concat ns [] s h p = (p, tt)
AllPassed-concat ns (t ∷ ss) s h p = (h.0, AllPassed-concat ns ss s h.1 p)

if-true {ℓ} : {A : Type ℓ} (c : Bool) (x y : A) → c ≡ true → (if c then x else y) ≡ x
if-true true x y e = refl
if-true false x y e = ground arith

if-same {ℓ} : {A : Type ℓ} (c : Bool) (x y : A) → y ≡ x → (if c then x else y) ≡ x
if-same true x y e = refl
if-same false x y e = e

pub read_attr-hit :
    (n cur r : Bytes) (ss : List Slot)
    → get_word cur n false ≡ some r
    → read_attr (record { name = n; attr = none; wa = false } ∷ ss) cur
      ≡ (value_behind r >>= λ p. done (record { name = n; attr = p.0; wa = true } ∷ ss, p.1))
unfolding read_attr
read_attr-hit n cur r ss e = rw (read_attr, e) refl

read_attr-pass :
    (s : Slot) (ss : List Slot) (cur : Bytes)
    → (s.wa ≡ true) ⊎ (get_word cur s.name false ≡ none)
    → read_attr (s ∷ ss) cur ≡ (read_attr ss cur >>= λ p. done (s ∷ p.0, p.1))
unfolding read_attr
read_attr-pass s ss cur (inl e) = if-true s.wa _ _ e
read_attr-pass s ss cur (inr e) = if-same s.wa _ _ (rw (read_attr, e) refl)

-- The inner loop passes the entries before the one that is written, and fills that.
read_attr-append :
    (pre : List Slot) (n : Bytes) (ns : List Bytes) (ss : List Slot) (v x : Bytes)
    → AllPassed (n ∷ ns) pre
    → IsName n
    → Without b'"' v
    → read_attr (pre ++ record { name = n; attr = none; wa = false } ∷ ss) (n ++ quoted v x)
      ≡ done (pre ++ record { name = n; attr = some v; wa = true } ∷ ss, x)
read_attr-append [] n ns ss v x h p q =
    read_attr-hit n (n ++ quoted v x) (quoted v x) ss (get_word-append n (quoted v x) false refl)
    ∙ ap (λ m. m >>= λ p. done (record { name = n; attr = p.0; wa = true } ∷ ss, p.1))
        (value_behind-append v x q)
read_attr-append (s ∷ pre) n ns ss v x h p q =
    read_attr-pass s (pre ++ record { name = n; attr = none; wa = false } ∷ ss) (n ++ quoted v x)
      (passes h.0)
    ∙ ap (λ m. m >>= λ p. done (s ∷ p.0, p.1)) (read_attr-append pre n ns ss v x h.1 p q)
  where
    passes : Passed (n ∷ ns) s → (s.wa ≡ true) ⊎ (get_word (n ++ quoted v x) s.name false ≡ none)
    passes (inl e) = inl e
    passes (inr (name, new)) = inr (get_word-other s.name n (b'"' ∷ (v ++ b'"' ∷ x)) name p new.0)

starts : (n x : Bytes) → IsName n → at is_alpha (n ++ x) ≡ true
starts [] x h = elim h [ ]
starts (c ∷ n) x h = h.0

-- One round of the loop over the attributes.
pub read_attrs_step :
    (fuel : ℕ) (ss : List Slot) (n x : Bytes)
    → IsName n
    → read_attrs (suc fuel) ss (b' ' ∷ (n ++ x))
      ≡ (read_attr ss (n ++ x) >>= λ p. read_attrs fuel p.0 p.1)
unfolding read_attrs
read_attrs_step fuel ss n x h = rw (read_attrs, skip_ws-IsName n x h, starts n x h) refl

-- The loop over the attributes reads what was written, and stops at the end of the tag.
pub read_attrs-render :
    (fuel : ℕ) (pre : List Slot) (ns : List Bytes) (vs : List (Option Bytes)) (end : Bytes)
    → AllPassed ns pre
    → AreNames ns
    → AreValues ns vs
    → skip_ws end ≡ end
    → at is_alpha end ≡ false
    → length ns < fuel
    → read_attrs fuel (pre ++ slots ns) (render ns vs end) ≡ done (pre ++ fill ns vs, end)
unfolding read_attrs
read_attrs-render zero pre ns vs end h p q k l m = absurd (omega arith)
read_attrs-render (suc fuel) pre [] [] end h p q k l m = rw (read_attrs, k, l) refl
read_attrs-render fuel pre [] (v ∷ vs) end h p q k l m = elim q [ ]
read_attrs-render fuel pre (n ∷ ns) [] end h p q k l m = elim q [ ]
read_attrs-render fuel pre (n ∷ ns) (none ∷ vs) end h p q k l m =
    let s : Slot = record { name = n; attr = none; wa = false } in
    rw (← append_assoc pre (s ∷ []) (slots ns), ← append_assoc pre (s ∷ []) (fill ns vs))
      (read_attrs-render fuel (pre ++ s ∷ []) ns vs end
        (AllPassed-concat ns pre s (AllPassed-tail n ns pre h) (inr (p.0, p.1))) p.2 q k l
        (omega arith))
read_attrs-render (suc fuel) pre (n ∷ ns) (some v ∷ vs) end h p q k l m =
    let x = render ns vs end in
    let s : Slot = record { name = n; attr = some v; wa = true } in
    rw
      (
        read_attrs,
        skip_ws-IsName n (quoted v x) p.0,
        starts n (quoted v x) p.0,
        read_attr-append pre n ns (slots ns) v x h p.0 q.0,
        ← append_assoc pre (s ∷ []) (slots ns),
        ← append_assoc pre (s ∷ []) (fill ns vs),
      )
      (read_attrs-render fuel (pre ++ s ∷ []) ns vs end
        (AllPassed-concat ns pre s (AllPassed-tail n ns pre h) (inl refl)) p.2 q.1 k l
        (omega arith))
