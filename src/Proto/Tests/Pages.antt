-- ===== src/Proto/Tests/Pages.antt =====
-- Capability replies of crates/breeze-proto on concrete bytes.
use breeze_core_native.Common.{
  ℕ, ◌≤◌, ◌≡◌, ◌⊎◌, refl, true, ◌||◌, List, [], ◌∷◌, ◌++◌, some, ok, length,
}
use breeze_core_native.Common.Int.{pos}
use breeze_core_native.Store.Control.{validate, power_on, contains}
use breeze_core_native.Proto.Ac.Capabilities.{
  Capabilities, nothing, one_of, apply, next_record, walk, with_additional, parse,
}
use breeze_core_native.Proto.Ac.Capabilities.Merge.{merge}
use breeze_core_native.Proto.Ac.Capabilities.Offered.{
  operational_modes, swing_modes, fan_speeds, fan_value, fan_speed_values, min_temperature,
  supports_fan_silent, supports_fan_low, supports_fan_medium, supports_fan_high, supports_fan_auto,
}
use breeze_core_native.Proto.Ac.Capabilities.Records.{
  Entry, encode_all, IsCut, apply_all, parse_records,
}
use breeze_core_native.Proto.Ac.Capabilities.Choices.{operational_modes-merge, offered-validate}

-- Modes 1, swing modes 1, and a record that is cut short, which the flag is read of.
abbrev records : List ℕ
records = 0x14 ∷ 0x02 ∷ 1 ∷ 1 ∷ 0x15 ∷ 0x02 ∷ 1 ∷ 1 ∷ 0x25 ∷ 0x02 ∷ []

abbrev reply : List ℕ
reply = 0xB5 ∷ 3 ∷ records

abbrev page : Capabilities
page = record nothing {
  heat_mode = true;
  cool_mode = true;
  dry_mode = true;
  auto_mode = true;
  swing_horizontal = true;
  swing_vertical = true;
  additional = true;
}

parse_test : parse reply ≡ page
unfolding parse walk next_record apply one_of with_additional
parse_test = refl

parse_records_example :
    (es : List Entry) × (later : List ℕ) × (length es ≤ 3)
    × ((length es ≡ 3) ⊎ IsCut later)
    × (encode_all es ++ later ≡ records)
    × (parse reply ≡ with_additional later (apply_all es nothing))
parse_records_example = parse_records 0xB5 3 records

abbrev second_page : Capabilities
second_page = record nothing { heat_mode = true }

operational_modes-merge_example :
    contains (operational_modes (merge nothing second_page)) "HEAT"
    ≡ contains (operational_modes nothing) "HEAT" || contains (operational_modes second_page) "HEAT"
operational_modes-merge_example = operational_modes-merge nothing second_page "HEAT"

offered-validate_example :
    validate
      (λ text. text)
      (record power_on {
        operational_mode = some "HEAT";
        swing_mode = some "BOTH";
        fan_speed = some (pos 60);
      })
    ≡ ok tt
unfolding operational_modes swing_modes fan_speed_values fan_speeds fan_value supports_fan_silent
    supports_fan_low supports_fan_medium supports_fan_high supports_fan_auto
offered-validate_example =
    offered-validate (λ text. text) page "HEAT" "BOTH" 60 refl refl refl refl refl

limits_test : min_temperature nothing ≡ 32
unfolding min_temperature
limits_test = refl
