-- ===== src/Grammar/Errors.antt =====
-- An error in a response: `error` of backend/cimxml/grammar.c with setError of
-- backend/cimxml/parserUtil.c.
use sblim_sfcc.Base.{ℕ, Option, none, some}
use sblim_sfcc.Decimal.Atoi.{atoi}
use sblim_sfcc.Escape.{xml_to_ascii_str}
use sblim_sfcc.Grammar.{Parser, expect}
use sblim_sfcc.StringBuffer.{Memory}
use sblim_sfcc.Xml.{xtok_error, ztok_error, Outcome, done, fault, ◌>>=◌, pointee}
use sblim_sfcc.Xml.Reply.{Written, error_resp}

-- `errCode`, an `int` by its 32 bits, and `description` of the header of a response.
pub record ErrorStatus : Type 0 where
  pub err_code : ℕ
  pub description : Memory

-- An access outside a block is a fault of the parser.
unfoldable pub stored : Option Memory → Outcome Memory
stored none = fault
stored (some m) = done m

-- setError
unfoldable pub set_error : Written → Outcome ErrorStatus
unfolding atoi xml_to_ascii_str stored
set_error (error_resp code description) = pointee code >>= λ c. pointee description >>= λ d.
    stored (xml_to_ascii_str d) >>= λ m. done (record { err_code = atoi c; description = m })
set_error u = fault

-- error
unfoldable pub parse_error : Written → Parser → Outcome (ErrorStatus × Parser)
unfolding expect set_error
parse_error u p =
    expect xtok_error u p (λ v q. set_error v >>= λ e. expect ztok_error v q (λ w r. done (e, r)))
