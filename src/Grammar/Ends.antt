-- ===== src/Grammar/Ends.antt =====
-- The functions of the grammar end: each loop reads tokens, and each token leaves less of the
-- buffer.
use mathlib.Core.Path.{subst}
use sblim_sfcc.Base.{
  ℕ, zero, suc, ◌*◌, ◌<◌, ◌≤◌, ◌≡◌, ◌≢◌, ap, refl, inl, inr, ◌⊎◌, Bool, true, false, Option, none,
  some, Bytes, arith,
}
use sblim_sfcc.Grammar.{
  token_code, same_token, Parser, local_lex, expect, parse_name_space, name_space_of,
  add_name_space, name_spaces, local_name_space_path, parse_host, name_space_path, parse_class_name,
  class_path,
}
use sblim_sfcc.Xml.{
  Token, no_token, xtok_localnamespacepath, ztok_localnamespacepath, xtok_namespace, ztok_namespace,
  xtok_host, ztok_host, xtok_namespacepath, ztok_namespacepath, xtok_classname, ztok_classname,
  xtok_classpath, ztok_classpath, Outcome, done, thrown, fault, endless, XmlBuffer, pointee,
}
use sblim_sfcc.Xml.Advance.{measure, Advances}
use sblim_sfcc.Xml.Lex.{left, sfcc_lex}
use sblim_sfcc.Xml.Reply.{Written, untouched, name_space}
use sblim_sfcc.Xml.Shrinks.{Ensures, Ensures-bind, Ensures-if}
use sblim_sfcc.Xml.Terminates.{sfcc_lex-Advances}

-- What localLex leaves: the same, or no token, or less of the buffer.
Read : Parser → Written × Parser → Type 0
Read p l =
    ((p.dont_lex ≡ true) × (l.1.xmb ≡ p.xmb) × (l.1.dont_lex ≡ false))
    ⊎ ((p.dont_lex ≡ false)
        × (l.1.dont_lex ≡ false)
        × ((l.1.ct ≡ no_token) ⊎ (measure l.1.xmb < measure p.xmb)))

Ensures-local_lex : (u : Written) (p : Parser) → Ensures (Read p) (local_lex u p)
unfolding local_lex Read
Ensures-local_lex u p =
    Ensures-if (Read p) p.dont_lex _ _ (λ e. inl (e, refl, refl))
      (λ e.
        Ensures-bind (Advances (measure p.xmb)) (Read p) (sfcc_lex p.xmb) _
          (sfcc_lex-Advances p.xmb) (λ r a. inr (e, e, a)))

-- A token that is not 0 was read from the buffer, or handed out again.
abbrev pub Least : Parser → Parser → Type 0
Least p q =
    (measure q.xmb ≤ measure p.xmb)
    × (q.dont_lex ≡ false)
    × (p.dont_lex ≡ false → measure q.xmb < measure p.xmb)

clash : (b : Bool) → b ≡ true → b ≡ false → ⊥
clash b h k = cc

Least-Read :
    (t : Token) (p : Parser) (l : Written × Parser)
    → same_token no_token t ≡ false
    → Read p l
    → same_token l.1.ct t ≡ true
    → Least p l.1
unfolding Read
Least-Read t p l n (inl (e, f, g)) s =
    let same : measure l.1.xmb ≡ measure p.xmb = ap measure f in
    (omega (arith, same), g, λ h. absurd (clash p.dont_lex e h))
Least-Read t p l n (inr (e, g, inl z)) s =
    absurd (clash (same_token no_token t) (subst (λ x. same_token x t ≡ true) z s) n)
Least-Read t p l n (inr (e, g, inr less)) s = (omega (arith, less), g, λ h. less)

Ensures-expect :
    {A : Type 0} (Q : A → Type 0) (t : Token) (u : Written) (p : Parser)
    (k : Written → Parser → Outcome A)
    → same_token no_token t ≡ false
    → ((v : Written) (q : Parser) → Least p q → Ensures Q (k v q))
    → Ensures Q (expect t u p k)
unfolding expect
Ensures-expect Q t u p k n h =
    Ensures-bind (Read p) Q (local_lex u p) _ (Ensures-local_lex u p) (λ l r.
      Ensures-if Q (same_token l.1.ct t) _ _ (λ e. h l.0 l.1 (Least-Read t p l n r e)) (λ e. tt))

-- nameSpace reads its end tag from the buffer.
Ensures-parse_name_space :
    (u : Written) (p : Parser)
    → Ensures
        (λ m. (measure m.1.xmb < measure p.xmb) × (m.1.dont_lex ≡ false))
        (parse_name_space u p)
unfolding parse_name_space same_token token_code
Ensures-parse_name_space u p =
    let Q : Written × Parser → Type 0 =
      λ m. (measure m.1.xmb < measure p.xmb) × (m.1.dont_lex ≡ false) in
    Ensures-expect Q xtok_namespace u p _ refl (λ v q l.
      Ensures-expect Q ztok_namespace v q _ refl (λ w r k. (omega (arith, l.0, k.2 l.1), k.1)))

Ensures-name_space_of : (u : Written) → Ensures (λ n. Unit {0}) (name_space_of u)
unfolding name_space_of
Ensures-name_space_of (name_space ns) = tt
Ensures-name_space_of u = tt

Ensures-pointee : (n : Option Bytes) → Ensures (λ x. Unit {0}) (pointee n)
Ensures-pointee none = tt
Ensures-pointee (some x) = tt

no_name_space : same_token no_token xtok_namespace ≡ false
unfolding same_token token_code
no_name_space = refl

-- The loop takes two tokens from the buffer for each round but the last.
Ensures-name_spaces :
    (fuel : ℕ) (u : Written) (v : Option Bytes) (p : Parser)
    → measure p.xmb < 2 * fuel
    → Ensures (λ r. Unit {0}) (name_spaces fuel u v p)
unfolding name_spaces
Ensures-name_spaces zero u v p h = absurd (omega arith)
Ensures-name_spaces (suc fuel) u v p h =
    let Any : Option Bytes × Parser → Type 0 = λ r. Unit {0} in
    let pn = record p { dont_lex = true } in
    Ensures-bind (λ m. (measure m.1.xmb < measure p.xmb) × (m.1.dont_lex ≡ false)) Any
      (parse_name_space u pn) _ (Ensures-parse_name_space u pn)
      (λ m a.
        Ensures-bind (λ n. Unit {0}) Any (name_space_of m.0) _ (Ensures-name_space_of m.0)
          (λ n b.
            Ensures-bind (λ x. Unit {0}) Any (pointee n) _ (Ensures-pointee n)
              (λ ns c.
                Ensures-bind (Read m.1) Any (local_lex m.0 m.1) _ (Ensures-local_lex m.0 m.1)
                  (λ l r.
                    Ensures-if Any (same_token l.1.ct xtok_namespace) _ _
                      (λ e. Ensures-name_spaces fuel l.0 (some (add_name_space v ns)) l.1 (
                        let k = (Least-Read xtok_namespace m.1 l no_name_space r e).2 a.1 in
                        omega (arith, h, a.0, k)))
                      (λ e. tt)))))

Ensures-local_name_space_path :
    (u : Written) (p : Parser) → Ensures (λ r. Unit {0}) (local_name_space_path u p)
unfolding local_name_space_path same_token token_code
Ensures-local_name_space_path u p =
    let Any : Option Bytes × Parser → Type 0 = λ r. Unit {0} in
    Ensures-expect Any xtok_localnamespacepath u p _ refl (λ v q l.
      Ensures-bind (Read q) Any (local_lex untouched q) _ (Ensures-local_lex untouched q) (λ m a.
        Ensures-bind Any Any _ _
          (Ensures-if Any (same_token m.1.ct xtok_namespace) _ _
            (λ e. Ensures-name_spaces (suc (left m.1.xmb.cur)) m.0 none m.1 (flag m.1.xmb))
            (λ e. tt))
          (λ r b.
            Ensures-expect Any ztok_localnamespacepath v (record r.1 { dont_lex = true })
              (λ w e. done (r.0, e)) refl (λ w e k. tt))))
  where
    flag : (xb : XmlBuffer) → measure xb < 2 * suc (left xb.cur)
    flag xb = ground arith

Ensures-parse_host : (u : Written) (p : Parser) → Ensures (λ r. Unit {0}) (parse_host u p)
unfolding parse_host same_token token_code
Ensures-parse_host u p =
    Ensures-expect (λ r. Unit {0}) xtok_host u p _ refl
      (λ v q l. Ensures-expect (λ r. Unit {0}) ztok_host v q _ refl (λ w r k. tt))

Ensures-parse_class_name :
    (u : Written) (p : Parser) → Ensures (λ r. Unit {0}) (parse_class_name u p)
unfolding parse_class_name same_token token_code
Ensures-parse_class_name u p =
    Ensures-expect (λ r. Unit {0}) xtok_classname u p _ refl
      (λ v q l. Ensures-expect (λ r. Unit {0}) ztok_classname v q _ refl (λ w r k. tt))

Ensures-name_space_path : (u : Written) (p : Parser) → Ensures (λ r. Unit {0}) (name_space_path u p)
unfolding name_space_path same_token token_code
Ensures-name_space_path u p =
    let Any : (Written × Option Bytes) × Parser → Type 0 = λ r. Unit {0} in
    Ensures-expect Any xtok_namespacepath u p _ refl (λ v q l.
      Ensures-bind (λ r. Unit {0}) Any (parse_host v q) _ (Ensures-parse_host v q)
        (λ h a.
          Ensures-bind (λ r. Unit {0}) Any (local_name_space_path untouched h.1) _
            (Ensures-local_name_space_path untouched h.1)
            (λ n b.
              Ensures-expect Any ztok_namespacepath v n.1 (λ w x. done ((h.0, n.0), x)) refl
                (λ w r k. tt))))

Ensures-class_path : (u : Written) (p : Parser) → Ensures (λ r. Unit {0}) (class_path u p)
unfolding class_path same_token token_code
Ensures-class_path u p =
    let Any : (Written × Option Bytes × Written) × Parser → Type 0 = λ r. Unit {0} in
    Ensures-expect Any xtok_classpath u p _ refl (λ v q l.
      Ensures-bind (λ r. Unit {0}) Any (name_space_path v q) _ (Ensures-name_space_path v q)
        (λ n a.
          Ensures-bind (λ r. Unit {0}) Any (parse_class_name untouched n.1) _
            (Ensures-parse_class_name untouched n.1)
            (λ c b.
              Ensures-expect Any ztok_classpath v c.1 (λ w x. done ((n.0.0, n.0.1, c.0), x)) refl
                (λ w r k. tt))))

not_endless : {A : Type 0} (o : Outcome A) → Ensures (λ r. Unit {0}) o → o ≢ endless
not_endless (done a) h e = cc
not_endless thrown h e = cc
not_endless fault h e = cc
not_endless endless h e = h

-- On every buffer, classPath ends, with the functions that it calls: with a result, with the end of
-- the program for a token that it does not expect, or with an access outside the buffer.
pub class_path-ends : (u : Written) (p : Parser) → class_path u p ≢ endless
class_path-ends u p = not_endless (class_path u p) (Ensures-class_path u p)
