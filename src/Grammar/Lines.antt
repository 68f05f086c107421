-- ===== src/Grammar/Lines.antt =====
-- The tokens of a name space as a request writes it, one tag behind the other with line ends
-- between them.
use sblim_sfcc.Base.{
  ◌≡◌, ◌∙◌, refl, sym, true, false, List, [], ◌∷◌, ◌++◌, none, some, Bytes, codes, arith, same_name,
  to_lower,
}
use sblim_sfcc.Xml.{
  Token, xtok_localnamespacepath, ztok_localnamespacepath, xtok_namespace, ztok_namespace, done,
  XmlBuffer, skip_ws, get_char, cut_at, skip_tag, behind, next_equals,
}
use sblim_sfcc.Xml.Elements.{
  between, IsTagName, get_char-IsTagName, get_chars-IsTagName, start_tag-find_tag, sfcc_lex-start,
  sfcc_lex-render,
}
use sblim_sfcc.Xml.Lex.{
  Tag, tags, find_tag, next_tag, lex_tag, after_next, lex_loop, sfcc_lex, end_tag,
}
use sblim_sfcc.Xml.Names.{are_names, AreNames-are_names}
use sblim_sfcc.Xml.Paths.{proc_local_name_space_path, proc_name_space}
use sblim_sfcc.Xml.Reply.{reply, attr, element, untouched, name_space, local_name_space_path}
use sblim_sfcc.Xml.RoundTrip.{render}
use sblim_sfcc.Xml.Tags.{closing, element-render}
use sblim_sfcc.Xml.Words.{Without}

-- At a start tag behind a line end, sfccLex is the function of its entry.
pub sfcc_lex-line :
    (t : Tag) (x : Bytes) (etag : Token)
    → IsTagName t.tag
    → find_tag tags (t.tag ++ x) ≡ some t
    → sfcc_lex (between (b'\n' ∷ b'<' ∷ (t.tag ++ x)) etag)
      ≡ t.process (between (b'<' ∷ (t.tag ++ x)) etag)
unfolding sfcc_lex lex_loop next_tag skip_ws get_char after_next lex_tag
sfcc_lex-line t x etag h e =
    rw (get_char-IsTagName t.tag x h, get_chars-IsTagName t.tag x h)
      (start_tag-find_tag t (t.tag ++ x) (between (b'<' ∷ (t.tag ++ x)) etag) e)

path_tag : Tag
path_tag = record {
  tag = codes "LOCALNAMESPACEPATH";
  process = λ xb. proc_local_name_space_path xb;
  etag = ztok_localnamespacepath;
}

find_tag-path : (x : Bytes) → find_tag tags (codes "LOCALNAMESPACEPATH" ++ b'>' ∷ x) ≡ some path_tag
unfolding find_tag next_equals path_tag
find_tag-path x = refl

path_process :
    (xb : XmlBuffer)
    → proc_local_name_space_path xb
      ≡ element
          (codes "LOCALNAMESPACEPATH")
          []
          ztok_localnamespacepath
          xb
          (λ a b. done (reply xtok_localnamespacepath local_name_space_path none b))
unfolding proc_local_name_space_path
path_process xb = refl

pub path_start :
    (x : Bytes) (etag : Token)
    → sfcc_lex (between (codes "<LOCALNAMESPACEPATH>" ++ x) etag)
      ≡ done (reply xtok_localnamespacepath local_name_space_path none (between x etag))
unfolding path_tag
path_start x etag =
    sfcc_lex-render path_tag [] [] ztok_localnamespacepath etag
      (λ a b. done (reply xtok_localnamespacepath local_name_space_path none b)) false x
      (refl, (λ e. absurd (omega (arith, e))), (λ e. absurd (omega (arith, e)))) tt tt path_process
      (find_tag-path x)

-- A line end in front of the start tag is passed.
pub path_line :
    (x : Bytes) (etag : Token)
    → sfcc_lex (between (b'\n' ∷ (codes "<LOCALNAMESPACEPATH>" ++ x)) etag)
      ≡ sfcc_lex (between (codes "<LOCALNAMESPACEPATH>" ++ x) etag)
unfolding path_tag
path_line x etag =
    let name : IsTagName (codes "LOCALNAMESPACEPATH") =
      (refl, (λ e. absurd (omega (arith, e))), (λ e. absurd (omega (arith, e)))) in
    sfcc_lex-line path_tag (b'>' ∷ x) etag name (find_tag-path x)
    ∙ sym (sfcc_lex-start path_tag (b'>' ∷ x) etag name (find_tag-path x))

name_tag : Tag
name_tag = record {
  tag = codes "NAMESPACE";
  process = λ xb. proc_name_space xb;
  etag = ztok_namespace;
}

find_tag-name : (x : Bytes) → find_tag tags (codes "NAMESPACE" ++ b' ' ∷ x) ≡ some name_tag
unfolding find_tag next_equals name_tag
find_tag-name x = refl

abbrev pub name_attrs : List Bytes
name_attrs = codes "NAME" ∷ []

name_attrs_lem : are_names name_attrs ≡ true
unfolding same_name to_lower
name_attrs_lem = refl

name_process :
    (xb : XmlBuffer)
    → proc_name_space xb
      ≡ element
          (codes "NAMESPACE")
          name_attrs
          ztok_namespace
          xb
          (λ a b. done (reply xtok_namespace (name_space (attr a 0)) none b))
unfolding proc_name_space
name_process xb = refl

-- `<NAMESPACE NAME="…">` with what stands behind it.
abbrev pub name_line : Bytes → Bytes → Bytes
name_line c x = codes "<NAMESPACE" ++ render name_attrs (some c ∷ []) (closing false x)

pub name_start :
    (c x : Bytes) (etag : Token)
    → Without b'"' c
    → sfcc_lex (between (b'\n' ∷ name_line c x) etag)
      ≡ done (reply xtok_namespace (name_space (some c)) none (between x etag))
unfolding name_tag
name_start c x etag h =
    let s = render name_attrs (some c ∷ []) (closing false x) in
    sfcc_lex-line name_tag s etag
      (refl, (λ e. absurd (omega (arith, e))), (λ e. absurd (omega (arith, e)))) (find_tag-name _)
    ∙ name_process (between (name_line c x) etag)
    ∙ element-render (codes "NAMESPACE") name_attrs (some c ∷ []) ztok_namespace
        (between (name_line c x) etag) _ false x refl (AreNames-are_names name_attrs name_attrs_lem)
        (h, tt) refl

pub name_end :
    (x : Bytes) (etag : Token)
    → sfcc_lex (between (codes "</NAMESPACE>" ++ x) etag)
      ≡ done (reply ztok_namespace untouched none (between x etag))
unfolding sfcc_lex lex_loop next_tag skip_ws get_char after_next lex_tag end_tag find_tag
    next_equals behind skip_tag cut_at
name_end x etag = refl

pub path_end :
    (x : Bytes) (etag : Token)
    → sfcc_lex (between (b'\n' ∷ (codes "</LOCALNAMESPACEPATH>" ++ x)) etag)
      ≡ done (reply ztok_localnamespacepath untouched none (between x etag))
unfolding sfcc_lex lex_loop next_tag skip_ws get_char after_next lex_tag end_tag find_tag
    next_equals behind skip_tag cut_at
path_end x etag = refl
