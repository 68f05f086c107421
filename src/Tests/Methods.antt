-- ===== src/Tests/Methods.antt =====
-- The theorems on the methods of a class and their parameters.
use mathlib.Core.Path.{◌≡◌, refl}
use sblim_sfcc.Base.{List, [], ◌∷◌, none, some, Bytes, codes, ℕ}
use sblim_sfcc.Cmpi.{
  null_type, boolean_type, uint64_type, string_type, good_value, raw, typed, instance_type, object,
}
use sblim_sfcc.Method
use sblim_sfcc.Method.Laws.{clone_methods_same}
use sblim_sfcc.Method.{Method, clone_methods}
use sblim_sfcc.Parameter
use sblim_sfcc.Parameter.Laws.{parameter_edits_lem}
use sblim_sfcc.Parameter.{Parameter, release_parameters, clone_parameters}
use sblim_sfcc.Tests.{ft, object_arg, ft_keeps}

abbrev parameter : Parameter Bytes
parameter = record {
  name = codes "Input";
  content = record { type = boolean_type; state = good_value; value = raw 0 };
}

abbrev parameter_history : List Parameter.Laws.Edit
parameter_history =
    Parameter.Laws.to_add (codes "Output") string_type
    ∷ Parameter.Laws.to_set (codes "INPUT") uint64_type
    ∷ []

parameter_edits_lem_example :
    (ps' : List (Parameter Bytes)) × (Parameter.Laws.run_edits parameter_history (parameter ∷ [])
      ≡ some ps')
    × Parameter.Laws.IsValid ps'
    × (release_parameters ps' ≡ some tt)
    × (clone_parameters ft ps' ≡ some ps')
unfolding sblim_sfcc.Named.find
parameter_edits_lem_example =
    parameter_edits_lem ft parameter_history (parameter ∷ []) ((refl, tt), ((refl, refl), tt))

abbrev method : Method Bytes
method = record {
  name = codes "Start";
  content = record { type = boolean_type; state = good_value; value = raw 1 };
  parameters = parameter ∷ [];
  qualifiers = [];
}

abbrev method_history : List (Method.Laws.Edit ℕ)
method_history =
    Method.Laws.to_add (codes "Stop") object_arg good_value
    ∷ Method.Laws.to_set (codes "START") object_arg
    ∷ Method.Laws.to_set (codes "start") (typed null_type none)
    ∷ []

-- A method whose value is an object that was there before, with the number 0.
abbrev old_method : Method ℕ
old_method = record {
  name = codes "Start";
  content = record { type = instance_type; state = good_value; value = object 0 };
  parameters = [];
  qualifiers = [];
}
