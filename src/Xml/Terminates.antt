-- ===== src/Xml/Terminates.antt =====
-- sfccLex ends, and so does the sequence of its calls that startParsing of
-- backend/cimxml/grammar.c drives.
use sblim_sfcc.Base.{
  ℕ, zero, suc, ◌*◌, ◌<◌, ◌≤◌, ◌≡◌, refl, inl, inr, Bool, true, false, List, [], ◌∷◌, Option, none,
  some, arith, if◌then◌else◌, Bool-cases, Option-cases, some-inj, length, Bytes, codes,
}
use mathlib.Core.Path.{subst}
use sblim_sfcc.Xml.{
  Token, no_token, Outcome, done, endless, ◌>>=◌, XmlBuffer, pointee, skip_ws, skip_tag, get_char,
  get_chars, next_equals,
}
use sblim_sfcc.Xml.Advance.{measure, Advances, Advancing}
use sblim_sfcc.Xml.Lex.{
  left, Tag, tags, find_tag, next_tag, end_tag, start_tag, skip_comment, lex_tag, after_next,
  lex_loop, sfcc_lex,
}
use sblim_sfcc.Xml.Processes.{AllAdvance, AllAdvance-tags}
use sblim_sfcc.Xml.Reply.{Reply}
use sblim_sfcc.Xml.Shrinks.{
  Ensures, Ensures-bind, Ensures-mono, Ensures-if, length-skip_ws, Ensures-skip_tag,
  length-cut_at_text,
}

Advances-mono :
    (m n : ℕ) (o : Outcome Reply) → m ≤ n → Ensures (Advances m) o → Ensures (Advances n) o
Advances-mono m n o h k =
    Ensures-mono (Advances m) (Advances n) o k
      (λ r a. elim a [ inl e ↦ inl e | inr l ↦ inr (omega (arith, h, l)) ])

Advancing-find_tag :
    (ts : List Tag) (next : Bytes) (t : Tag)
    → AllAdvance ts
    → find_tag ts next ≡ some t
    → Advancing t.process
unfolding find_tag
Advancing-find_tag [] next t a h = ground arith
Advancing-find_tag (s ∷ ts) next t a h = elim (Bool-cases (next_equals next s.tag)) [
  | inl e ↦ let same : s ≡ t = some-inj s t (rw e at h) in subst (λ x. Advancing x.process) same a.0
  | inr e ↦ Advancing-find_tag ts next t a.1 (rw e at h)
]

Ensures-start_tag :
    (next : Bytes) (b : XmlBuffer) → Ensures (Advances (2 * left b.cur)) (start_tag next b)
unfolding start_tag
Ensures-start_tag next b = elim (Option-cases (find_tag tags next)) [
  | inl e ↦ rw (start_tag, e) (inl refl)
  | inr (t, e) ↦ rw (start_tag, e) (Advancing-find_tag tags next t AllAdvance-tags e b)
]

Ensures-end_tag :
    (name : Bytes) (b : XmlBuffer) (cur : Bytes)
    → length cur ≤ left b.cur
    → Ensures (Advances (measure b)) (end_tag name b cur)
unfolding end_tag
Ensures-end_tag name b cur h = elim (Option-cases (find_tag tags name)) [
  | inl e ↦ rw (end_tag, e) (inl refl)
  | inr (t, e) ↦
      rw (end_tag, e)
        (Ensures-bind (λ r. length r < length cur) (Advances (measure b)) (skip_tag cur) _
          (Ensures-skip_tag cur) (λ r k. inr (omega (arith, h, k))))
]

Ensures-skip_comment : (cur : Bytes) → Ensures (λ r. length r < length cur) (skip_comment cur)
unfolding skip_comment
Ensures-skip_comment cur = elim (length-cut_at_text (codes "-->") cur) [
  | inl e ↦ rw (skip_comment, e) tt
  | inr (s, r, e, h) ↦ rw (skip_comment, e) (omega (arith, h))
]

Ensures-lex_tag :
    (again : XmlBuffer → Outcome Reply) (next : Bytes) (b : XmlBuffer) (cur : Bytes)
    → length cur ≡ left b.cur
    → ((x : XmlBuffer) → left x.cur < left b.cur → Ensures (Advances (measure x)) (again x))
    → Ensures (Advances (measure b)) (lex_tag again next b cur)
unfolding lex_tag
Ensures-lex_tag again next b cur h k =
    Ensures-if (Advances (measure b)) b.e_tag_found _ _ (λ e. inr (ground arith))
      (λ e. elim (Option-cases (get_char next b'/')) [
        | inr (name, f) ↦ rw f (Ensures-end_tag name b cur (omega (arith, h)))
        | inl f ↦ rw f (elim (Option-cases (get_chars cur (codes "<!--"))) [
          | inl g ↦ rw g (
              Advances-mono (2 * left b.cur) (measure b) (start_tag next b) (omega arith)
                (Ensures-start_tag next b))
          | inr (r, g) ↦ rw g (
              Ensures-bind (λ c. length c < length cur) (Advances (measure b)) (skip_comment cur)
                (λ c. again (record b { cur = some c })) (Ensures-skip_comment cur)
                (λ c l.
                  Advances-mono (measure (record b { cur = some c })) (measure b)
                    (again (record b { cur = some c })) (omega (arith, h, l))
                    (k (record b { cur = some c }) (omega (arith, h, l)))))
        ])
      ])

measure-next_tag :
    (xb : XmlBuffer) (cur : Bytes)
    → xb.cur ≡ some cur
    → (measure (next_tag xb cur).1 ≤ measure xb) × (left (next_tag xb cur).1.cur ≤ left xb.cur)
unfolding next_tag
measure-next_tag xb [] e = (omega arith, omega arith)
measure-next_tag xb (c ∷ cs) e = cases xb.nulled (get_char (skip_ws (c ∷ cs)) b'<')
  where
    same : left xb.cur ≡ length (c ∷ cs)
    same = rw e refl

    Keeps : XmlBuffer → Type 0
    Keeps b = (measure b ≤ measure xb) × (left b.cur ≤ left xb.cur)

    cases :
        (n : Bool) (o : Option Bytes)
        → Keeps
            (if◌then◌else◌ {A = Option Bytes × XmlBuffer} n
              (some cs, record xb { nulled = false })
              (o, record xb { cur = some (skip_ws (c ∷ cs)) })).1
    cases true o = (omega arith, omega arith)
    cases false o =
        (omega (arith, same, length-skip_ws (c ∷ cs)), omega (arith, same, length-skip_ws (c ∷ cs)))

Ensures-after_next :
    (again : XmlBuffer → Outcome Reply) (next : Option Bytes) (b : XmlBuffer)
    → ((x : XmlBuffer) → left x.cur < left b.cur → Ensures (Advances (measure x)) (again x))
    → Ensures (Advances (measure b)) (after_next again next b)
unfolding after_next
Ensures-after_next again none b k = inl refl
Ensures-after_next again (some next) b k = go b.cur refl
  where
    go :
        (o : Option Bytes)
        → b.cur ≡ o
        → Ensures (Advances (measure b)) (pointee o >>= λ cur. lex_tag again next b cur)
    go none e = tt
    go (some cur) e = Ensures-lex_tag again next b cur (rw e refl) k

-- The loop of sfccLex ends within one step more than there are bytes left.
Ensures-lex_loop :
    (fuel : ℕ) (xb : XmlBuffer)
    → left xb.cur < fuel
    → Ensures (Advances (measure xb)) (lex_loop fuel xb)
unfolding lex_loop
Ensures-lex_loop zero xb h = absurd (omega arith)
Ensures-lex_loop (suc fuel) xb h = go xb.cur refl (λ x k. Ensures-lex_loop fuel x k)
  where
    loop : XmlBuffer → Outcome Reply
    loop x = lex_loop fuel x

    go :
        (o : Option Bytes)
        → xb.cur ≡ o
        → ((x : XmlBuffer) → left x.cur < fuel → Ensures (Advances (measure x)) (loop x))
        → Ensures
            (Advances (measure xb))
            (pointee o >>= λ cur. after_next loop (next_tag xb cur).0 (next_tag xb cur).1)
    go none e ih = tt
    go (some cur) e ih =
        let (m, l) = measure-next_tag xb cur e in
        let b = (next_tag xb cur).1 in
        Advances-mono (measure b) (measure xb) (after_next loop (next_tag xb cur).0 b) m
          (Ensures-after_next loop (next_tag xb cur).0 b (λ x k. ih x (omega (arith, h, k, l))))

-- Every call of sfccLex ends, and a token that it returns lowers the measure of the buffer: two
-- for each byte left, and one for an end tag that is still to be returned.
pub sfcc_lex-Advances : (xb : XmlBuffer) → Ensures (Advances (measure xb)) (sfcc_lex xb)
unfolding sfcc_lex
sfcc_lex-Advances xb = Ensures-lex_loop (suc (left xb.cur)) xb (omega arith)

-- The calls of sfccLex until one returns 0.
is_end : Token → Bool
is_end no_token = true
is_end t = false

not_end : (t : Token) → t ≡ no_token → is_end t ≡ false → ⊥
unfolding is_end
not_end t n e = let k : is_end t ≡ true = rw n refl in cc

follow : (XmlBuffer → Outcome (List Reply)) → Reply → Outcome (List Reply)
follow again r = if is_end r.token then done [] else (again r.buffer >>= λ rs. done (r ∷ rs))

smaller : {n : ℕ} (r : Reply) → Advances n r → is_end r.token ≡ false → measure r.buffer < n
smaller r (inl n) e = absurd (not_end r.token n e)
smaller r (inr l) e = l

unfoldable pub lex_all : ℕ → XmlBuffer → Outcome (List Reply)
unfolding sfcc_lex follow is_end
lex_all zero xb = endless
lex_all (suc fuel) xb = sfcc_lex xb >>= λ r. follow (λ x. lex_all fuel x) r

-- The calls of sfccLex on a buffer end: after no more tokens than twice its bytes and one, a call
-- returns 0, leaves the program, or reads outside the buffer.
pub lex_all_ends :
    (fuel : ℕ) (xb : XmlBuffer)
    → measure xb < fuel
    → Ensures (λ rs. length rs ≤ measure xb) (lex_all fuel xb)
unfolding lex_all follow
lex_all_ends zero xb h = absurd (omega arith)
lex_all_ends (suc fuel) xb h =
    let Few : List Reply → Type 0 = λ rs. length rs ≤ measure xb in
    Ensures-bind (Advances (measure xb)) Few (sfcc_lex xb) (λ r. follow (λ x. lex_all fuel x) r)
      (sfcc_lex-Advances xb)
      (λ r a.
        Ensures-if Few (is_end r.token) _ _ (λ e. omega arith)
          (λ e.
            let less : measure r.buffer < measure xb = smaller r a e in
            Ensures-bind (λ rs. length rs ≤ measure r.buffer) Few (lex_all fuel r.buffer) _
              (lex_all_ends fuel r.buffer (omega (arith, h, less)))
              (λ rs k. omega (arith, k, less))))
