-- ===== src/Generators/CreateTests.antt =====
-- Generators made of concrete payloads.
use webapp_sec_tools.Prelude.{true, some, [], ◌∷◌, ◌≡◌, refl, length, All, str_eq}
use webapp_sec_tools.Prelude.GoMap.{GoMap, put}
use webapp_sec_tools.Prelude.Strings.{split_at, to_lower, trim_space}
use webapp_sec_tools.Prelude.Value.{text}
use webapp_sec_tools.Generators.Iterator.{pitch_fork, unspecified, cluster_bomb}
use webapp_sec_tools.Generators.Create.{
  Payload, text_payload, level_payload, made, error, many_lines, not_single, Surroundings,
  PayloadGenerator, is_battering_ram, or_battering_ram, resolve_levels,
  parse_payloads_with_aggression, read_levels, validate_payload, validate, load_payload,
  load_payloads, non_empty_lines, check_single, choose_type, to_attack_type, attack_string, new,
}
use webapp_sec_tools.Generators.Created.{Valid, names, Chosen, new-made}

abbrev one_file : Surroundings
one_file = record {
  file_exists = λ s. str_eq s "users.txt";
  in_templates = λ s. s;
  paths_to_probe = λ t s. [];
  load_helper_file = λ s t. some ("root" ∷ "" ∷ "guest" ∷ [], true);
  to_string_slice = λ p. "1" ∷ "2" ∷ [];
}

abbrev two_sets : GoMap Payload
two_sets =
    ("user", text_payload "users.txt")
    ∷ ("pin", level_payload (("low", some (text "1" ∷ [])) ∷ ("medium", some (text "2" ∷ [])) ∷ []))
    ∷ []

abbrev loaded : PayloadGenerator
loaded = record {
  attack_type = cluster_bomb;
  payloads = ("user", "root" ∷ "guest" ∷ []) ∷ ("pin", "1" ∷ "2" ∷ []) ∷ [];
}

loaded_test : new one_file two_sets pitch_fork "t.yaml" "ClusterBomb" "medium" ≡ made loaded
unfolding new resolve_levels parse_payloads_with_aggression read_levels validate validate_payload
    load_payloads load_payload non_empty_lines choose_type check_single to_attack_type attack_string
    split_at put to_lower trim_space
loaded_test = refl

new-made_example :
    (final : GoMap Payload) × (resolve_levels "medium" two_sets [] ≡ made final)
    × All (λ (n, p). Valid p) final
    × (names loaded.payloads ≡ names final)
    × Chosen (or_battering_ram pitch_fork) "ClusterBomb" loaded.attack_type
    × (is_battering_ram (or_battering_ram pitch_fork) ≡ true → length two_sets ≡ 1)
new-made_example =
    new-made one_file two_sets pitch_fork "t.yaml" "ClusterBomb" "medium" loaded loaded_test

-- The default type refuses two sets although the custom type would take them; a text of two lines is
-- refused.
refused_test :
    (new one_file two_sets unspecified "t.yaml" "pitchfork" "low" ≡ error not_single)
    × (new one_file (("user", text_payload "a\nb") ∷ []) pitch_fork "t.yaml" "" "low"
        ≡ error many_lines)
unfolding new resolve_levels parse_payloads_with_aggression read_levels validate validate_payload
    load_payloads load_payload non_empty_lines choose_type check_single to_attack_type attack_string
    split_at put to_lower trim_space
refused_test = (refl, refl)
