-- ===== src/Xml/Frames.antt =====
-- What the frames of the functions of the table of tags leave of the buffer.
use sblim_sfcc.Base.{
  ℕ, suc, ◌||◌, ◌*◌, ◌<◌, ◌≤◌, ◌≡◌, refl, inl, inr, Bool, true, false, List, [], ◌∷◌, Option, none,
  some, arith, if◌then◌else◌, length, length-append, Bytes, codes, same_name,
}
use sblim_sfcc.Cmpi.{instance_type}
use sblim_sfcc.Xml.Types.{xml_to_cmpi_type}
use sblim_sfcc.Xml.{Token, thrown, ztok_cdata, Outcome, done, ◌>>=◌, XmlBuffer, pointee}
use sblim_sfcc.Xml.Advance.{measure, Ensures-attrs_ok, Advances, Advancing, Ensures-with_tag}
use sblim_sfcc.Xml.Attributes.{attrs_ok, get_content, content_of, cut_content}
use sblim_sfcc.Xml.Lex.{left}
use sblim_sfcc.Xml.Reply.{
  Reply, reply, no_reply, Written, attr, element, with_content, named, param_type, untouched,
}
use sblim_sfcc.Xml.Shrinks.{Ensures, Ensures-bind, length-cut_at, length-cut_at_text}
use sblim_sfcc.Xml.Declarations.{proc_cdata, cdata_end}

pub Ensures-element :
    (tag : Bytes) (e : List Bytes) (etag : Token)
    (k : List (Option Bytes) → XmlBuffer → Outcome Reply)
    → ((a : List (Option Bytes)) (b : XmlBuffer) (n : ℕ)
        → measure b < n
        → Ensures (Advances n) (k a b))
    → Advancing (λ xb. element tag e etag xb k)
unfolding element
Ensures-element tag e etag k h xb = Ensures-with_tag tag xb _ (λ c l.
    Ensures-bind (λ p. measure p.1 < 2 * length c) (Advances (2 * left xb.cur))
      (attrs_ok e tag etag xb c) (λ p. k p.0 p.1) (Ensures-attrs_ok e tag etag xb c)
      (λ p m. h p.0 p.1 (2 * left xb.cur) (omega (arith, l, m))))

pub Ensures-plain :
    (tag : Bytes) (e : List Bytes) (etag t : Token) (w : List (Option Bytes) → Written)
    (i : List (Option Bytes) → Option (Option Bytes))
    → Advancing (λ xb. element tag e etag xb (λ a b. done (reply t (w a) (i a) b)))
Ensures-plain tag e etag t w i =
    Ensures-element tag e etag (λ a b. done (reply t (w a) (i a) b)) (λ a b n h. inr h)

-- What stands behind the content is within the buffer.
abbrev pub Within : Bytes → Option Bytes → Type 0
Within cur none = Unit {0}
Within cur (some r) = length r < length cur

Within-cut_content : (cur : Bytes) → Within cur (cut_content cur).1
unfolding cut_content
Within-cut_content cur = elim (length-cut_at b'<' cur) [
  | inl e ↦ rw (cut_content, e) tt
  | inr (s, r, e, h) ↦ rw (cut_content, e) (omega (arith, h))
]

measure-content_of :
    (xb : XmlBuffer) (cur s : Bytes) (r : Option Bytes)
    → xb.cur ≡ some cur
    → Within cur r
    → measure (content_of xb s r).1 ≤ measure xb
unfolding content_of
measure-content_of xb cur [] r e h = omega arith
measure-content_of xb cur (c ∷ s) none e h = omega arith
measure-content_of xb cur (c ∷ s) (some r) e h =
    let same : left xb.cur ≡ length cur = rw e refl in omega (arith, same, h)

measure-get_content :
    (xb : XmlBuffer) (cur : Bytes) → xb.cur ≡ some cur → measure (get_content xb cur).1 ≤ measure xb
unfolding get_content
measure-get_content xb cur e =
    cases xb.e_tag_found (content_of xb (cut_content cur).0 (cut_content cur).1)
      (measure-content_of xb cur (cut_content cur).0 (cut_content cur).1 e (Within-cut_content cur))
  where
    cases :
        (f : Bool) (p : Option Bytes × XmlBuffer)
        → measure p.1 ≤ measure xb
        → measure (if f then (none, xb) else p).1 ≤ measure xb
    cases true p h = omega arith
    cases false p h = h

pub Ensures-with_content :
    (t : Token) (w : Option Bytes → Written) (b : XmlBuffer) (n : ℕ)
    → measure b < n
    → Ensures (Advances n) (with_content t w b)
unfolding with_content
Ensures-with_content t w b n h = go b.cur refl
  where
    go :
        (o : Option Bytes)
        → b.cur ≡ o
        → Ensures (Advances n) (
            pointee o >>= λ cur.
            done (reply t (w (get_content b cur).0) none (get_content b cur).1))
    go none e = tt
    go (some cur) e = inr (omega (arith, h, measure-get_content b cur e))

pub Ensures-named :
    (s : Bytes) (t : Token) (a : Option Bytes) (b : XmlBuffer) (n : ℕ)
    → measure b < n
    → Ensures (Advances n) (named s t a b)
unfolding named
Ensures-named s t none b n h = tt
Ensures-named s t (some m) b n h = cases (same_name m s)
  where
    cases : (c : Bool) → Advances n (if c then reply t untouched none b else no_reply b)
    cases true = inr h
    cases false = inl refl

pub Ensures-param :
    (t : Token) (w : ℕ → Written) (m : Outcome ℕ) (b : XmlBuffer) (n : ℕ)
    → measure b < n
    → Ensures (λ x. Unit {0}) m
    → Ensures (Advances n) (m >>= λ x. done (reply t (w x) none b))
Ensures-param t w m b n h e =
    Ensures-bind (λ x. Unit {0}) (Advances n) m (λ x. done (reply t (w x) none b)) e (λ x u. inr h)

pub Ensures-param_type : (a : List (Option Bytes)) → Ensures (λ x. Unit {0}) (param_type a)
unfolding param_type
Ensures-param_type a = cases (attr a 2)
  where
    choose : (c : Bool) → Ensures (λ x. Unit {0}) (if c then done instance_type else thrown)
    choose true = tt
    choose false = tt

    cases :
        (o : Option Bytes)
        → Ensures
            (λ x. Unit {0})
            (elim o [
              | none ↦ done (xml_to_cmpi_type (attr a 1))
              | some s ↦
                  if same_name s (codes "instance") || same_name s (codes "object")
                  then done instance_type
                  else thrown
            ])
    cases none = tt
    cases (some s) = choose (same_name s (codes "instance") || same_name s (codes "object"))

measure-cdata_end :
    (cur : Bytes) (b : XmlBuffer) (n : ℕ)
    → measure b < n
    → b.cur ≡ some cur
    → Ensures (Advances n) (cdata_end cur b)
unfolding cdata_end
measure-cdata_end cur b n h e = elim (length-cut_at_text (codes "]]>") cur) [
  | inl k ↦ rw (cdata_end, k) (inl refl)
  | inr (s, r, k, l) ↦
      rw (cdata_end, k)
        (let same : left b.cur ≡ length cur = rw e refl in
          inr (omega (arith, same, l, length-append s (b'<' ∷ b'/' ∷ b'>' ∷ r))))
]

pub Advancing-proc_cdata : Advancing proc_cdata
unfolding proc_cdata
Advancing-proc_cdata xb = Ensures-with_tag (codes "![CDATA[") xb _ (λ c l.
    Ensures-bind (λ p. measure p.1 < 2 * suc (length c)) (Advances (2 * left xb.cur))
      (attrs_ok [] (codes "![CDATA[") ztok_cdata xb (b'>' ∷ c)) _
      (Ensures-attrs_ok [] (codes "![CDATA[") ztok_cdata xb (b'>' ∷ c))
      (λ p m. go p.1 p.1.cur refl (2 * left xb.cur) (omega (arith, l, m))))
  where
    go :
        (b : XmlBuffer) (o : Option Bytes)
        → b.cur ≡ o
        → (n : ℕ) → measure b < n
        → Ensures (Advances n) (pointee o >>= λ d. cdata_end d b)
    go b none e n h = tt
    go b (some cur) e n h = measure-cdata_end cur b n h e
