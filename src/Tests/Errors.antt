-- ===== src/Tests/Errors.antt =====
-- The theorems on errors in a response at small elements.
use mathlib.Core.Path.{◌≡◌}
use native.Mathlib.Omega.{arith}
use sblim_sfcc.Base.{false, none, some, Bytes, codes}
use sblim_sfcc.Decimal.{digits}
use sblim_sfcc.Escape.Laws.{escaped}
use sblim_sfcc.Grammar.ErrorText.{error_text, error_read, error_undescribed}
use sblim_sfcc.Grammar.Errors.{parse_error}
use sblim_sfcc.Grammar.NameSpaces.{parser}
use sblim_sfcc.StringBuffer.{Memory, c_string}
use sblim_sfcc.StringBuffer.Memory.{IsText}
use sblim_sfcc.Xml.{no_token, ztok_error, done, fault}
use sblim_sfcc.Xml.Reply.{untouched}

abbrev description : Bytes
description = codes "a<b"

description-IsText : IsText description
description-IsText = (
  (λ e. absurd (omega (arith, e))),
  ((λ e. absurd (omega (arith, e))), ((λ e. absurd (omega (arith, e))), tt)),
)

error_read_example :
    (m : Memory) × (parse_error untouched (
        parser
          (error_text (digits 1 6) (some (escaped description)) (codes "<x>"))
          no_token
          no_token
          false
          none)
      ≡ done (
        record { err_code = 6; description = m },
        parser (codes "<x>") no_token ztok_error false none,
      ))
    × (c_string m ≡ some description)
error_read_example =
    error_read 1 6 description (codes "<x>") no_token no_token untouched none (omega arith)
      (omega arith) description-IsText

error_undescribed_example :
    parse_error untouched
      (parser (error_text (codes "6") none (codes "<x>")) no_token no_token false none)
    ≡ fault
error_undescribed_example =
    error_undescribed (codes "6") (codes "<x>") no_token no_token untouched none
      ((λ e. absurd (omega (arith, e))), tt)
