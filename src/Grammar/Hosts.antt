-- ===== src/Grammar/Hosts.antt =====
-- What nameSpacePath reads from the text of addXmlNamespacePath.
use sblim_sfcc.Base.{
  ◌≡◌, ◌∙◌, refl, true, false, List, [], ◌∷◌, ◌++◌, Option, none, some, Bytes, codes, arith,
}
use sblim_sfcc.Grammar.{
  token_code, same_token, Parser, overwrite, with_id, local_lex, expect, local_name_space_path,
  parse_host, name_space_path,
}
use sblim_sfcc.Grammar.Lines.{sfcc_lex-line, path_line}
use sblim_sfcc.Grammar.NameSpaces.{
  lines, joined, AllWithout, parser, local_lex-sfcc_lex, expect_lem, local_name_space_path-lines,
}
use sblim_sfcc.Xml.{
  Token, xtok_namespacepath, ztok_namespacepath, xtok_host, ztok_host, ztok_localnamespacepath,
  done, XmlBuffer, skip_ws, get_char, cut_at, skip_tag, behind, next_equals,
}
use sblim_sfcc.Xml.Elements.{between, IsTrim, sfcc_lex-render, with_content-append}
use sblim_sfcc.Xml.Lex.{
  Tag, tags, find_tag, next_tag, lex_tag, after_next, lex_loop, sfcc_lex, end_tag,
}
use sblim_sfcc.Xml.Messages.{proc_host}
use sblim_sfcc.Xml.Paths.{proc_name_space_path}
use sblim_sfcc.Xml.Reply.{reply, element, with_content, untouched, host, Written}
use sblim_sfcc.Xml.Tags.{element-render}
use sblim_sfcc.Xml.Words.{Without}

host_tag : Tag
host_tag = record { tag = codes "HOST"; process = λ xb. proc_host xb; etag = ztok_host }

find_tag-host : (x : Bytes) → find_tag tags (codes "HOST" ++ b'>' ∷ x) ≡ some host_tag
unfolding find_tag next_equals host_tag
find_tag-host x = refl

host_process :
    (xb : XmlBuffer)
    → proc_host xb ≡ element (codes "HOST") [] ztok_host xb (λ a b. with_content xtok_host host b)
unfolding proc_host
host_process xb = refl

-- The buffer in front of the end tag of a host, where the `<` was overwritten.
abbrev pub in_host : Bytes → Token → XmlBuffer
in_host x etag = record {
  cur = some (0 ∷ (codes "/HOST>" ++ x));
  nulled = true;
  e_tag_found = false;
  etag = etag;
}

host_start :
    (h x : Bytes) (etag : Token)
    → IsTrim h
    → Without b'<' h
    → sfcc_lex (between (b'\n' ∷ (codes "<HOST>" ++ (h ++ (codes "</HOST>" ++ x)))) etag)
      ≡ done (reply xtok_host (host (some h)) none (in_host x etag))
unfolding host_tag
host_start h x etag p q =
    let s = b'>' ∷ (h ++ (codes "</HOST>" ++ x)) in
    sfcc_lex-line host_tag s etag
      (refl, (λ e. absurd (omega (arith, e))), (λ e. absurd (omega (arith, e)))) (find_tag-host _)
    ∙ host_process (between (codes "<HOST" ++ s) etag)
    ∙ element-render (codes "HOST") [] [] ztok_host (between (codes "<HOST" ++ s) etag)
        (λ a b. with_content xtok_host host b) false (h ++ (codes "</HOST>" ++ x)) refl tt tt refl
    ∙ with_content-append xtok_host host h (codes "/HOST>" ++ x) etag p q

host_end :
    (x : Bytes) (etag : Token)
    → sfcc_lex (in_host x etag) ≡ done (reply ztok_host untouched none (between x etag))
unfolding sfcc_lex lex_loop next_tag skip_ws get_char after_next lex_tag end_tag find_tag skip_tag
    cut_at
host_end x etag = refl

end_line :
    (x : Bytes) (etag : Token)
    → sfcc_lex (between (b'\n' ∷ (codes "</NAMESPACEPATH>" ++ x)) etag)
      ≡ done (reply ztok_namespacepath untouched none (between x etag))
unfolding sfcc_lex lex_loop next_tag skip_ws get_char after_next lex_tag end_tag find_tag
    next_equals behind skip_tag cut_at
end_line x etag = refl

path_tag_of_hosts : Tag
path_tag_of_hosts = record {
  tag = codes "NAMESPACEPATH";
  process = λ xb. proc_name_space_path xb;
  etag = ztok_namespacepath;
}

find_tag-hosts :
    (x : Bytes) → find_tag tags (codes "NAMESPACEPATH" ++ b'>' ∷ x) ≡ some path_tag_of_hosts
unfolding find_tag next_equals path_tag_of_hosts
find_tag-hosts x = refl

hosts_process :
    (xb : XmlBuffer)
    → proc_name_space_path xb
      ≡ element
          (codes "NAMESPACEPATH")
          []
          ztok_namespacepath
          xb
          (λ a b. done (reply xtok_namespacepath untouched none b))
unfolding proc_name_space_path
hosts_process xb = refl

hosts_start :
    (x : Bytes) (etag : Token)
    → sfcc_lex (between (codes "<NAMESPACEPATH>" ++ x) etag)
      ≡ done (reply xtok_namespacepath untouched none (between x etag))
unfolding path_tag_of_hosts
hosts_start x etag =
    sfcc_lex-render path_tag_of_hosts [] [] ztok_namespacepath etag
      (λ a b. done (reply xtok_namespacepath untouched none b)) false x
      (refl, (λ e. absurd (omega (arith, e))), (λ e. absurd (omega (arith, e)))) tt tt hosts_process
      (find_tag-hosts x)

-- The element HOST, behind a line end.
abbrev pub host_line : Bytes → Bytes → Bytes
host_line h x = b'\n' ∷ (codes "<HOST>" ++ (h ++ (codes "</HOST>" ++ x)))

local_lex_buffer :
    (u w : Written) (xb yb : XmlBuffer) (t ct : Token) (i : Option Bytes)
    → sfcc_lex xb ≡ done (reply t w none yb)
    → local_lex u (record { xmb = xb; id = i; ct = ct; dont_lex = false })
      ≡ done (overwrite u w, record { xmb = yb; id = i; ct = t; dont_lex = false })
unfolding local_lex with_id
local_lex_buffer u w xb yb t ct i e = rw (local_lex, e) refl

parse_host_lem :
    (h x : Bytes) (etag ct : Token) (u : Written) (i : Option Bytes)
    → IsTrim h
    → Without b'<' h
    → parse_host u (parser (host_line h x) etag ct false i)
      ≡ done (host (some h), parser x etag ztok_host false i)
unfolding parse_host same_token token_code overwrite
parse_host_lem h x etag ct u i p q =
    let v = host (some h) in
    let o = record (parser x etag xtok_host false i) { xmb = in_host x etag } in
    expect_lem xtok_host u v (parser (host_line h x) etag ct false i) o
      (λ a b. expect ztok_host a b (λ w r. done (w, r)))
      (local_lex_buffer u v (between (host_line h x) etag) (in_host x etag) xtok_host ct i
        (host_start h x etag p q))
      refl
    ∙ expect_lem ztok_host v v o (parser x etag ztok_host false i) (λ w r. done (w, r))
        (local_lex_buffer v untouched (in_host x etag) (between x etag) ztok_host xtok_host i
          (host_end x etag))
        refl

-- The path of a name space behind a line end.
path_behind_line :
    (x : Bytes) (etag ct : Token) (u : Written) (i : Option Bytes)
    → let s = codes "<LOCALNAMESPACEPATH>" ++ x in
      local_name_space_path u (parser (b'\n' ∷ s) etag ct false i)
      ≡ local_name_space_path u (parser s etag ct false i)
unfolding local_name_space_path expect local_lex
path_behind_line x etag ct u i =
    rw (local_name_space_path, expect, local_lex, path_line x etag) refl

name_space_path_step :
    (u v h : Written) (p q m n r : Parser) (o : Option Bytes)
    → local_lex u p ≡ done (v, q)
    → same_token q.ct xtok_namespacepath ≡ true
    → parse_host v q ≡ done (h, m)
    → local_name_space_path untouched m ≡ done (o, n)
    → local_lex v n ≡ done (v, r)
    → same_token r.ct ztok_namespacepath ≡ true
    → name_space_path u p ≡ done ((h, o), r)
unfolding name_space_path expect
name_space_path_step u v h p q m n r o e s f g d k =
    rw (name_space_path, expect, e, s, f, g)
      (expect_lem ztok_namespacepath v v n r (λ w x. done ((h, o), x)) d k)

-- The text of a host and of a name space, as addXmlNamespacePath writes it.
abbrev pub host_text : Bytes → List Bytes → Bytes → Bytes
host_text h cs rest =
    codes "<NAMESPACEPATH>"
    ++ host_line h (
        b'\n'
        ∷ (codes "<LOCALNAMESPACEPATH>" ++ lines cs (b'\n' ∷ (codes "</NAMESPACEPATH>" ++ rest))))

pub name_space_path_lem :
    (h : Bytes) (cs : List Bytes) (rest : Bytes) (etag ct : Token) (u : Written) (i : Option Bytes)
    → IsTrim h
    → Without b'<' h
    → AllWithout cs
    → name_space_path u (parser (host_text h cs rest) etag ct false i)
      ≡ done ((host (some h), joined none cs), parser rest etag ztok_namespacepath false i)
unfolding same_token token_code overwrite
name_space_path_lem h cs rest etag ct u i p q a =
    let z = b'\n' ∷ (codes "</NAMESPACEPATH>" ++ rest) in
    let y = codes "<LOCALNAMESPACEPATH>" ++ lines cs z in
    let x = host_line h (b'\n' ∷ y) in
    name_space_path_step u u (host (some h)) (parser (host_text h cs rest) etag ct false i)
      (parser x etag xtok_namespacepath false i) (parser (b'\n' ∷ y) etag ztok_host false i)
      (parser z etag ztok_localnamespacepath false i) (parser rest etag ztok_namespacepath false i)
      (joined none cs)
      (local_lex-sfcc_lex u untouched (host_text h cs rest) x etag xtok_namespacepath ct i
        (hosts_start x etag))
      refl (parse_host_lem h (b'\n' ∷ y) etag xtok_namespacepath u i p q)
      (path_behind_line (lines cs z) etag ztok_host untouched i
        ∙ local_name_space_path-lines cs z etag ztok_host untouched i a)
      (local_lex-sfcc_lex u untouched z rest etag ztok_namespacepath ztok_localnamespacepath i
        (end_line rest etag))
      refl
