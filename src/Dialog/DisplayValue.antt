-- ===== src/Dialog/DisplayValue.antt =====
-- src/inflection/dialog/DisplayValue.cpp: a text with the features that it has.
use inflection.Prelude.{Option, [], if◌then◌else◌}
use inflection.Prelude.Strings.{U16String}
use inflection.Dialog.Constraints.{FeatureMap, find, emplace}
use inflection.Dialog.SpeakableString.{SpeakableString, get_print, get_speak, speak_equals_print}

pub record DisplayValue : Type 0 where
  pub display_string : U16String
  pub constraint_map : FeatureMap

-- DisplayValue(value)
unfoldable pub of_string : U16String → DisplayValue
of_string value = record { display_string = value; constraint_map = [] }

-- DisplayValue(value, speakFeature, constraintMap): a constraint on the speak feature that is there
-- already stays.
unfoldable pub of_speakable : SpeakableString → U16String → FeatureMap → DisplayValue
of_speakable value speak_feature constraint_map = record {
  display_string = get_print value;
  constraint_map =
      if speak_equals_print value
      then constraint_map
      else emplace speak_feature (get_speak value) constraint_map;
}

unfoldable pub get_feature_value : U16String → DisplayValue → Option U16String
get_feature_value feature value = find feature value.constraint_map
