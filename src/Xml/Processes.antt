-- ===== src/Xml/Processes.antt =====
-- The functions of the table of tags, one by one: each ends, and a token that it returns leaves
-- less of the buffer.
use sblim_sfcc.Base.{List, [], ◌∷◌}
use sblim_sfcc.Xml.Advance.{Advancing}
use sblim_sfcc.Xml.Lex.{Tag, tags}
use sblim_sfcc.Xml.Reply.{attr, param_type}
use sblim_sfcc.Xml.Messages.{
  proc_xml, proc_cim, proc_message, proc_simple_resp, proc_i_method_resp, proc_method_resp,
  proc_error_resp, proc_i_ret_value, proc_ret_value, proc_param_value, proc_key_value, proc_host,
  proc_value, proc_value_array, proc_value_ref_array, proc_simple_exp_req, proc_export_method_call,
  proc_ex_param_value,
}
use sblim_sfcc.Xml.Paths.{
  proc_local_name_space_path, proc_class_path, proc_local_class_path, proc_local_instance_path,
  proc_object_path, proc_name_space, proc_class_name, proc_instance_name, proc_key_binding,
  proc_value_named_instance, proc_instance_path, proc_name_space_path, proc_value_reference,
  proc_value_object_with_path,
}
use sblim_sfcc.Xml.Declarations.{
  proc_instance, proc_class, proc_qualifier, proc_property, proc_property_array,
  proc_property_reference, proc_method, proc_param, proc_param_array, proc_param_ref,
  proc_param_ref_array,
}
use sblim_sfcc.Xml.Frames.{
  Ensures-element, Ensures-plain, Ensures-with_content, Ensures-named, Ensures-param,
  Ensures-param_type, Advancing-proc_cdata,
}

Advancing-proc_xml : Advancing proc_xml
unfolding proc_xml
Advancing-proc_xml xb = Ensures-plain _ _ _ _ _ _ xb

Advancing-proc_cim : Advancing proc_cim
unfolding proc_cim
Advancing-proc_cim xb = Ensures-plain _ _ _ _ _ _ xb

Advancing-proc_message : Advancing proc_message
unfolding proc_message
Advancing-proc_message xb = Ensures-plain _ _ _ _ _ _ xb

Advancing-proc_simple_resp : Advancing proc_simple_resp
unfolding proc_simple_resp
Advancing-proc_simple_resp xb = Ensures-plain _ _ _ _ _ _ xb

Advancing-proc_i_method_resp : Advancing proc_i_method_resp
unfolding proc_i_method_resp
Advancing-proc_i_method_resp xb = Ensures-plain _ _ _ _ _ _ xb

Advancing-proc_method_resp : Advancing proc_method_resp
unfolding proc_method_resp
Advancing-proc_method_resp xb = Ensures-plain _ _ _ _ _ _ xb

Advancing-proc_error_resp : Advancing proc_error_resp
unfolding proc_error_resp
Advancing-proc_error_resp xb = Ensures-plain _ _ _ _ _ _ xb

Advancing-proc_i_ret_value : Advancing proc_i_ret_value
unfolding proc_i_ret_value
Advancing-proc_i_ret_value xb = Ensures-plain _ _ _ _ _ _ xb

Advancing-proc_ret_value : Advancing proc_ret_value
unfolding proc_ret_value
Advancing-proc_ret_value xb = Ensures-plain _ _ _ _ _ _ xb

Advancing-proc_param_value : Advancing proc_param_value
unfolding proc_param_value
Advancing-proc_param_value xb =
    Ensures-element _ _ _ _
      (λ a b n h. Ensures-param _ _ (param_type a) b n h (Ensures-param_type a)) xb

Advancing-proc_key_value : Advancing proc_key_value
unfolding proc_key_value
Advancing-proc_key_value xb = Ensures-element _ _ _ _ (λ a b n h. Ensures-with_content _ _ b n h) xb

Advancing-proc_host : Advancing proc_host
unfolding proc_host
Advancing-proc_host xb = Ensures-element _ _ _ _ (λ a b n h. Ensures-with_content _ _ b n h) xb

Advancing-proc_value : Advancing proc_value
unfolding proc_value
Advancing-proc_value xb = Ensures-element _ _ _ _ (λ a b n h. Ensures-with_content _ _ b n h) xb

Advancing-proc_value_array : Advancing proc_value_array
unfolding proc_value_array
Advancing-proc_value_array xb = Ensures-plain _ _ _ _ _ _ xb

Advancing-proc_value_ref_array : Advancing proc_value_ref_array
unfolding proc_value_ref_array
Advancing-proc_value_ref_array xb = Ensures-plain _ _ _ _ _ _ xb

Advancing-proc_simple_exp_req : Advancing proc_simple_exp_req
unfolding proc_simple_exp_req
Advancing-proc_simple_exp_req xb = Ensures-plain _ _ _ _ _ _ xb

Advancing-proc_export_method_call : Advancing proc_export_method_call
unfolding proc_export_method_call
Advancing-proc_export_method_call xb =
    Ensures-element _ _ _ _ (λ a b n h. Ensures-named _ _ (attr a 0) b n h) xb

Advancing-proc_ex_param_value : Advancing proc_ex_param_value
unfolding proc_ex_param_value
Advancing-proc_ex_param_value xb =
    Ensures-element _ _ _ _ (λ a b n h. Ensures-named _ _ (attr a 0) b n h) xb

Advancing-proc_local_name_space_path : Advancing proc_local_name_space_path
unfolding proc_local_name_space_path
Advancing-proc_local_name_space_path xb = Ensures-plain _ _ _ _ _ _ xb

Advancing-proc_class_path : Advancing proc_class_path
unfolding proc_class_path
Advancing-proc_class_path xb = Ensures-plain _ _ _ _ _ _ xb

Advancing-proc_local_class_path : Advancing proc_local_class_path
unfolding proc_local_class_path
Advancing-proc_local_class_path xb = Ensures-plain _ _ _ _ _ _ xb

Advancing-proc_local_instance_path : Advancing proc_local_instance_path
unfolding proc_local_instance_path
Advancing-proc_local_instance_path xb = Ensures-plain _ _ _ _ _ _ xb

Advancing-proc_object_path : Advancing proc_object_path
unfolding proc_object_path
Advancing-proc_object_path xb = Ensures-plain _ _ _ _ _ _ xb

Advancing-proc_name_space : Advancing proc_name_space
unfolding proc_name_space
Advancing-proc_name_space xb = Ensures-plain _ _ _ _ _ _ xb

Advancing-proc_class_name : Advancing proc_class_name
unfolding proc_class_name
Advancing-proc_class_name xb = Ensures-plain _ _ _ _ _ _ xb

Advancing-proc_instance_name : Advancing proc_instance_name
unfolding proc_instance_name
Advancing-proc_instance_name xb = Ensures-plain _ _ _ _ _ _ xb

Advancing-proc_key_binding : Advancing proc_key_binding
unfolding proc_key_binding
Advancing-proc_key_binding xb = Ensures-plain _ _ _ _ _ _ xb

Advancing-proc_value_named_instance : Advancing proc_value_named_instance
unfolding proc_value_named_instance
Advancing-proc_value_named_instance xb = Ensures-plain _ _ _ _ _ _ xb

Advancing-proc_instance_path : Advancing proc_instance_path
unfolding proc_instance_path
Advancing-proc_instance_path xb = Ensures-plain _ _ _ _ _ _ xb

Advancing-proc_name_space_path : Advancing proc_name_space_path
unfolding proc_name_space_path
Advancing-proc_name_space_path xb = Ensures-plain _ _ _ _ _ _ xb

Advancing-proc_value_reference : Advancing proc_value_reference
unfolding proc_value_reference
Advancing-proc_value_reference xb = Ensures-plain _ _ _ _ _ _ xb

Advancing-proc_value_object_with_path : Advancing proc_value_object_with_path
unfolding proc_value_object_with_path
Advancing-proc_value_object_with_path xb = Ensures-plain _ _ _ _ _ _ xb

Advancing-proc_instance : Advancing proc_instance
unfolding proc_instance
Advancing-proc_instance xb = Ensures-plain _ _ _ _ _ _ xb

Advancing-proc_class : Advancing proc_class
unfolding proc_class
Advancing-proc_class xb = Ensures-plain _ _ _ _ _ _ xb

Advancing-proc_qualifier : Advancing proc_qualifier
unfolding proc_qualifier
Advancing-proc_qualifier xb = Ensures-plain _ _ _ _ _ _ xb

Advancing-proc_property : Advancing proc_property
unfolding proc_property
Advancing-proc_property xb = Ensures-plain _ _ _ _ _ _ xb

Advancing-proc_property_array : Advancing proc_property_array
unfolding proc_property_array
Advancing-proc_property_array xb = Ensures-plain _ _ _ _ _ _ xb

Advancing-proc_property_reference : Advancing proc_property_reference
unfolding proc_property_reference
Advancing-proc_property_reference xb = Ensures-plain _ _ _ _ _ _ xb

Advancing-proc_method : Advancing proc_method
unfolding proc_method
Advancing-proc_method xb = Ensures-plain _ _ _ _ _ _ xb

Advancing-proc_param : Advancing proc_param
unfolding proc_param
Advancing-proc_param xb = Ensures-plain _ _ _ _ _ _ xb

Advancing-proc_param_array : Advancing proc_param_array
unfolding proc_param_array
Advancing-proc_param_array xb = Ensures-plain _ _ _ _ _ _ xb

Advancing-proc_param_ref : Advancing proc_param_ref
unfolding proc_param_ref
Advancing-proc_param_ref xb = Ensures-plain _ _ _ _ _ _ xb

Advancing-proc_param_ref_array : Advancing proc_param_ref_array
unfolding proc_param_ref_array
Advancing-proc_param_ref_array xb = Ensures-plain _ _ _ _ _ _ xb

abbrev pub AllAdvance : List Tag → Type 0
AllAdvance [] = Unit {0}
AllAdvance (t ∷ ts) = Advancing t.process × AllAdvance ts

-- A pair, written without brackets in a chain.
infixr 5 ◌▸◌
◌▸◌ : {A B : Type 0} → A → B → A × B
a ▸ b = (a, b)

pub AllAdvance-tags : AllAdvance tags
AllAdvance-tags =
    Advancing-proc_xml ▸ Advancing-proc_cim ▸ Advancing-proc_message ▸ Advancing-proc_simple_resp
    ▸ Advancing-proc_error_resp ▸ Advancing-proc_i_method_resp ▸ Advancing-proc_i_ret_value
    ▸ Advancing-proc_local_name_space_path ▸ Advancing-proc_local_instance_path
    ▸ Advancing-proc_local_class_path ▸ Advancing-proc_name_space_path ▸ Advancing-proc_name_space
    ▸ Advancing-proc_param_value ▸ Advancing-proc_class_name ▸ Advancing-proc_value_array
    ▸ Advancing-proc_value_named_instance ▸ Advancing-proc_value_reference
    ▸ Advancing-proc_value_ref_array ▸ Advancing-proc_value_object_with_path ▸ Advancing-proc_value
    ▸ Advancing-proc_host ▸ Advancing-proc_key_value ▸ Advancing-proc_key_binding
    ▸ Advancing-proc_instance_path ▸ Advancing-proc_instance_name ▸ Advancing-proc_instance
    ▸ Advancing-proc_property_reference ▸ Advancing-proc_property_array ▸ Advancing-proc_property
    ▸ Advancing-proc_qualifier ▸ Advancing-proc_param_array ▸ Advancing-proc_param_ref
    ▸ Advancing-proc_param_ref_array ▸ Advancing-proc_param ▸ Advancing-proc_method
    ▸ Advancing-proc_class ▸ Advancing-proc_object_path ▸ Advancing-proc_method_resp
    ▸ Advancing-proc_ret_value ▸ Advancing-proc_class_path ▸ Advancing-proc_simple_exp_req
    ▸ Advancing-proc_export_method_call ▸ Advancing-proc_ex_param_value ▸ Advancing-proc_cdata
    ▸ Advancing-proc_cdata ▸ tt
