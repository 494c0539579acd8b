-- ===== src/Yaml/Examples.antt =====
-- Composition at small dictionaries: tests, and the theorems applied.
use bst_staging.Prelude.{◌≡◌, refl, true, false, some, [], ◌∷◌}
use bst_staging.Yaml.Node.{
  Node, decimal, boolean, number, text, sequence, mapping, nil, item, Fields, end, field, text_kind,
  number_kind, kind_of, is_instance, get, put, append,
}
use bst_staging.Yaml.Composite.{
  array_append, ok, type_error, value_at, clashes, combine, target_fields, composite_dict,
}
use bst_staging.Yaml.KeyWise.{IsComposedAt, composite_dict-IsComposedAt}
use bst_staging.Yaml.TypeSafety.{is_null, composite_dict-keeps_kind}

abbrev target : Fields
target = field "kind" (text "manual") (field "depends" (sequence (item (text "a.bst") nil)) end)

abbrev source : Fields
source =
    field "depends" (sequence (item (text "b.bst") nil))
      (field "config" (mapping (field "jobs" (number 4) end)) end)

abbrev composed : Fields
composed = field "kind" (text "manual") (
    field "depends" (sequence (item (text "a.bst") (item (text "b.bst") nil)))
      (field "config" (mapping (field "jobs" (number 4) end)) end))

composite_dict_test : composite_dict array_append true [] target source ≡ ok composed
unfolding composite_dict value_at clashes combine target_fields get put append kind_of is_instance
composite_dict_test = refl

composite_dict_clash :
    composite_dict array_append true [] target (field "kind" (number 1) end)
    ≡ type_error
        (record { path = "kind" ∷ []; expected_type = text_kind; actual_type = number_kind })
unfolding composite_dict value_at clashes combine target_fields get put append kind_of is_instance
composite_dict_clash = refl

source_once :
    (get "depends" (field "config" (mapping (field "jobs" (number 4) end)) end) ≡ get "x" end)
unfolding get
source_once = refl

composite_dict-IsComposedAt_example :
    IsComposedAt array_append true [] target source composed "depends"
unfolding get
composite_dict-IsComposedAt_example =
    composite_dict-IsComposedAt array_append true [] target source composed "depends"
      (refl, (refl, (refl, tt), tt)) composite_dict_test

kind_found : get "kind" target ≡ some (text "manual")
unfolding get
kind_found = refl

composite_dict-keeps_kind_example :
    (new : Node) × (get "kind" composed ≡ some new)
    × (is_instance (kind_of new) (kind_of (text "manual")) ≡ true)
    × (is_null new ≡ false)
composite_dict-keeps_kind_example =
    composite_dict-keeps_kind array_append [] target source composed "kind" (text "manual")
      composite_dict_test kind_found refl

-- A float is refused where an int stood, and a bool where a float stood; a bool for an int is not.
float_refused :
    (clashes true (number 1) (decimal 1) ≡ true)
    × (clashes true (decimal 1) (boolean true) ≡ true)
    × (clashes true (number 1) (boolean true) ≡ false)
unfolding clashes kind_of is_instance
float_refused = (refl, refl, refl)
