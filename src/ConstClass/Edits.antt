-- ===== src/ConstClass/Edits.antt =====
-- Any history of the calls by which the parser fills a class, and the release of the class.
use sblim_sfcc.ConstClass.{ConstClass}
use sblim_sfcc.Method
use sblim_sfcc.Parameter
use sblim_sfcc.Parameter.{Parameter}
use sblim_sfcc.Property
