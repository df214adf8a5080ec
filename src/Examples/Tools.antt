-- ===== src/Examples/Tools.antt =====
-- Requests of the Agent to its tools, more of them than the budget allows.
use agent_rca.Prelude.{String, List, [], ◌∷◌}
use agent_rca.Json.{Fields, field, end, text}
use agent_rca.Dict.{Dict}
use agent_rca.Tools.{Answer, ToolRequest, candidate, evidence, reference, use_tools, new_runtime}
use agent_rca.Tools.Bounds.{IsBounded, use_tools-IsBounded}

abbrev same_hash : Answer → String
same_hash a = "sha256:0"

abbrev items : Dict Fields
items = ("ev-restart", field "kind" (text "event") end) ∷ []

abbrev requests : List ToolRequest
requests = candidate "E1" ∷ evidence "ev-unknown" ∷ reference "ref-none" ∷ candidate "E1" ∷ []

use_tools-IsBounded_example : IsBounded (
    use_tools same_hash requests
      (new_runtime ("ev-restart" ∷ []) items [] 2 (("E1", "ev-restart") ∷ [])))
use_tools-IsBounded_example =
    use_tools-IsBounded same_hash ("ev-restart" ∷ []) items [] 2 (("E1", "ev-restart") ∷ [])
      requests
