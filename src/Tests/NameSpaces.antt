-- ===== src/Tests/NameSpaces.antt =====
-- The theorems on name spaces at small paths.
use mathlib.Core.Logic.{◌≢◌}
use mathlib.Core.Path.{◌≡◌, refl}
use native.Mathlib.Omega.{arith}
use sblim_sfcc.Base.{
  ℕ, zero, suc, [], ◌∷◌, ◌++◌, false, Option, none, some, Bytes, codes, replicate, length-replicate,
}
use sblim_sfcc.Grammar.{name_space_path, class_path}
use sblim_sfcc.Grammar.Ends.{class_path-ends}
use sblim_sfcc.Grammar.NameSpaces.{parser}
use sblim_sfcc.NameSpace.{get_name_space_components, host_or_local, add_xml_namespace_path}
use sblim_sfcc.NameSpace.Overflow.{get_name_space_components_overflow}
use sblim_sfcc.NameSpace.Hosts.{name_space_path_round_trip}
use sblim_sfcc.NameSpace.RoundTrip.{IsComponent}
use sblim_sfcc.StringBuffer.{StringBuffer}
use sblim_sfcc.StringBuffer.Laws.{Holds}
use sblim_sfcc.Tests.Buffers.{buffer, buffer-Holds}
use sblim_sfcc.Xml.{Token, no_token, ztok_namespacepath, done, endless}
use sblim_sfcc.Xml.Elements.{IsTrim}
use sblim_sfcc.Xml.Reply.{Written, untouched, host}
use sblim_sfcc.Xml.Words.{Without}

root-IsComponent : IsComponent (codes "root")
root-IsComponent = (
  omega arith,
  omega arith,
  (
    (λ e. absurd (omega (arith, e))),
    (
      (λ e. absurd (omega (arith, e))),
      ((λ e. absurd (omega (arith, e))), ((λ e. absurd (omega (arith, e))), tt)),
    ),
  ),
  (
    (λ e. absurd (omega (arith, e))),
    (
      (λ e. absurd (omega (arith, e))),
      ((λ e. absurd (omega (arith, e))), ((λ e. absurd (omega (arith, e))), tt)),
    ),
  ),
)

local-IsTrim : IsTrim (host_or_local none)
unfolding host_or_local
local-IsTrim = (refl, refl)

Without-codes : Without b'<' (codes "localhost")
Without-codes = (
  (λ e. absurd (omega (arith, e))),
  (
    (λ e. absurd (omega (arith, e))),
    (
      (λ e. absurd (omega (arith, e))),
      (
        (λ e. absurd (omega (arith, e))),
        (
          (λ e. absurd (omega (arith, e))),
          (
            (λ e. absurd (omega (arith, e))),
            (
              (λ e. absurd (omega (arith, e))),
              ((λ e. absurd (omega (arith, e))), ((λ e. absurd (omega (arith, e))), tt)),
            ),
          ),
        ),
      ),
    ),
  ),
)

local-Without : Without b'<' (host_or_local none)
unfolding host_or_local
local-Without = Without-codes

name_space_path_round_trip_example :
    (t : Bytes) × (sb' : StringBuffer) × (add_xml_namespace_path buffer none
        (some (codes "root/root"))
      ≡ some sb')
    × Holds sb' (codes "a" ++ t)
    × ((rest : Bytes) (etag ct : Token) (u : Written) (i : Option Bytes)
        → name_space_path u (parser (t ++ rest) etag ct false i)
          ≡ done (
            (host (some (host_or_local none)), some (codes "root/root")),
            parser (b'\n' ∷ rest) etag ztok_namespacepath false i,
          ))
name_space_path_round_trip_example =
    name_space_path_round_trip none (codes "root") (codes "root" ∷ []) buffer (codes "a")
      buffer-Holds local-IsTrim local-Without root-IsComponent (root-IsComponent, tt)

class_path-ends_example :
    class_path untouched (parser (codes "<CLASSPATH><NAMESPACEPATH>") no_token no_token false none)
    ≢ endless
class_path-ends_example =
    class_path-ends untouched
      (parser (codes "<CLASSPATH><NAMESPACEPATH>") no_token no_token false none)

replicate-Without : (n d c : ℕ) → c ≢ d → Without d (replicate n c)
replicate-Without zero d c h = tt
replicate-Without (suc n) d c h = (h, replicate-Without n d c h)

get_name_space_components_overflow_example :
    get_name_space_components (some (replicate 256 b'x' ++ codes "/y")) ≡ none
get_name_space_components_overflow_example =
    get_name_space_components_overflow (replicate 256 b'x') (codes "/y")
      (replicate-Without 256 b'/' b'x' (λ e. absurd (omega (arith, e))))
      (omega (arith, length-replicate {A = ℕ} 256 b'x'))
