-- ===== src/Examples/Configurations.antt =====
-- The theorems on configurations and files at concrete inputs.
use salus_telemetry_envoy.Common.{
  String, nat_eq, string_eq, texts_eq, ◌++◌, List, [], ◌∷◌, true, false, arith, ◌≡◌, ◌≢◌, refl, ℕ,
  some,
}
use salus_telemetry_envoy.Common.Assoc.{lookup}
use salus_telemetry_envoy.Common.Result.{ok}
use salus_telemetry_envoy.Paths.{FilePath}
use salus_telemetry_envoy.Os.Write.{remove}
use salus_telemetry_envoy.Agents.Convert.{convert_json_to_telegraf_toml}
use salus_telemetry_envoy.Os.{file, node_at}
use salus_telemetry_envoy.Protocol.{ConfigurationOp, OpType, create}
use salus_telemetry_envoy.Agents.Convert.{text}
use salus_telemetry_envoy.Agents.Files.{returned, entry, corrupt, extract}
use salus_telemetry_envoy.Agents.Files.Extract.{Outcome, extract-Outcome}
use salus_telemetry_envoy.Agents.Telegraf
use salus_telemetry_envoy.Agents.Telegraf.{has_required_paths}
use salus_telemetry_envoy.Agents.Telegraf.Configs.{lookup-process_config}
use salus_telemetry_envoy.Agents.JsonFiles.{packages_json, write_config_file}
use salus_telemetry_envoy.Agents.JsonFiles.Rewrite.{write_config_file_tail}
use mathlib.Core.List.{Perm}
use mathlib.Core.List.Perm
use salus_telemetry_envoy.Agents.Telegraf.Sections.{page, all_fit, sections, concat_configs-Perm}
use salus_telemetry_envoy.Agents.JsonFiles.{process_config}
use mathlib.Core.Option.{none}
use salus_telemetry_envoy.Agents.Convert.{Codec}
use salus_telemetry_envoy.Examples.Data.{base, filebeat_base, installed, toy}

abbrev create_m2 : ConfigurationOp
create_m2 = record { id = "m2"; op_type = create; content = "{}"; extra_labels = []; interval = 10 }

abbrev remove_m1 : ConfigurationOp
remove_m1 = record create_m2 { id = "m1"; op_type = OpType.remove }

lookup-process_config_example :
    lookup "m2" (Telegraf.process_config toy (create_m2 ∷ remove_m1 ∷ []) (("m1", 1 ∷ []) ∷ [])).1
    ≡ some (3 ∷ 4 ∷ [])
unfolding convert_json_to_telegraf_toml lookup
lookup-process_config_example =
    lookup-process_config toy "m2" (create_m2 ∷ remove_m1 ∷ []) (("m1", 1 ∷ []) ∷ [])

-- Two configurations in two orders.
abbrev first_config : String × List ℕ
first_config = ("m1", 91 ∷ 105 ∷ 110 ∷ 112 ∷ 117 ∷ 116 ∷ 115 ∷ 93 ∷ 10 ∷ 99 ∷ [])

abbrev second_config : String × List ℕ
second_config = ("m2", 1 ∷ 2 ∷ 3 ∷ 4 ∷ 5 ∷ 6 ∷ 7 ∷ [])

abbrev one_order : Telegraf.Configs
one_order = first_config ∷ second_config ∷ []

abbrev other_order : Telegraf.Configs
other_order = second_config ∷ first_config ∷ []

-- The buffers have room for some bytes more.
abbrev spare : Telegraf.Memory
spare id = 0 ∷ 0 ∷ []

concat_configs-Perm_example :
    (Telegraf.concat_configs spare (7 ∷ []) one_order
      ≡ page (7 ∷ []) (all_fit spare one_order) (sections one_order))
    × (Telegraf.concat_configs spare (7 ∷ []) other_order
        ≡ page (7 ∷ []) (all_fit spare one_order) (sections other_order))
    × Perm (sections one_order) (sections other_order)
concat_configs-Perm_example =
    concat_configs-Perm spare (7 ∷ []) one_order other_order
      (Perm.swap second_config first_config [])

abbrev m1_file : FilePath
m1_file = filebeat_base ++ "config.d" ∷ "m1.yml" ∷ []

m1_is_there : node_at installed m1_file ≡ some (file (7 ∷ 8 ∷ 9 ∷ []))
unfolding lookup
m1_is_there = refl

write_config_file_tail_example :
    (c : List ℕ) × ((write_config_file toy packages_json m1_file create_m2 installed).0
      ≡ returned (ok tt))
    × (node_at (write_config_file toy packages_json m1_file create_m2 installed).1 m1_file
        ≡ some (file c))
    × (c ≡ 1 ∷ 2 ∷ 9 ∷ [])
    × (c ≢ 1 ∷ 2 ∷ [])
write_config_file_tail_example =
    write_config_file_tail toy packages_json m1_file create_m2 installed (("type", text "cpu") ∷ [])
      (1 ∷ 2 ∷ []) (7 ∷ 8 ∷ 9 ∷ []) refl refl m1_is_there refl (omega arith)

extract-Outcome_example :
    Outcome false "telegraf"
      (entry "telegraf" (1 ∷ []) true ∷ corrupt ∷ [])
      (extract base "telegraf" false (entry "telegraf" (1 ∷ []) true ∷ corrupt ∷ []) installed).0
extract-Outcome_example =
    extract-Outcome base "telegraf" (entry "telegraf" (1 ∷ []) true ∷ corrupt ∷ []) false installed

-- The JSON value null decodes to a nil map.
abbrev null_codec : Codec
null_codec = record toy { decode = λ s. ok none }
