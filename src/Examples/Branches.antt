-- ===== src/Examples/Branches.antt =====
-- The theorems about the branches and the users of a service in crates/services/src/services.rs.
use rind.Prelude.{◌≡◌, refl, none, some, [], ◌∷◌, Option, List, length}
use rind.Text.{Text, codes, text_eq, text_beq}
use rind.Payload.{FlowPayload, to_string_payload}
use rind.Matching.{FlowInstance, FlowType}
use rind.Services.{BranchingConfig}
use rind.Services.Branching.{
  branch_key_from_payload, branches_to_start, non_empty, wanted, runs_key, let_through, at_limit,
}
use rind.Services.Instances.{is_running}
use rind.Services.Branching.Chosen.{within, Kept, keyed, contexts, branches_to_start-Kept}
use rind.Services.Branching.Wanted.{IsWanted}
use rind.Examples.Services.{process}
use rind.Examples.Values.{ids}
use mathlib.Core.Option

abbrev config : BranchingConfig
config = record {
  source = codes "rind:user_session";
  key = none;
  max_instances = some 2;
  only = none;
  except = some (codes "root" ∷ []);
}

abbrev session : Text → FlowInstance
session name = record {
  name = codes "rind:user_session";
  payload = FlowPayload.string name;
  type = FlowType.facet;
}

abbrev sessions : List FlowInstance
sessions =
    session (codes "root")
    ∷ session (codes "ada")
    ∷ session (codes "bob")
    ∷ session (codes "eve")
    ∷ []

abbrev key_of : FlowPayload → Option Text
key_of payload = branch_key_from_payload ids payload none

branches_to_start-Kept_example :
    (bs : List (Text × FlowPayload)) × Kept
      (IsWanted key_of text_beq config (process ∷ []))
      (keyed key_of text_beq sessions)
      bs
    × (branches_to_start key_of text_beq config (process ∷ []) 0 sessions
        ≡ within (some 2) 1 0 (contexts key_of text_beq bs))
branches_to_start-Kept_example =
    branches_to_start-Kept key_of text_beq config (process ∷ []) sessions

-- One instance runs, two at most are wanted, and two more are started.
over_the_limit : length (branches_to_start key_of text_beq config (process ∷ []) 0 sessions) ≡ 2
unfolding branches_to_start branch_key_from_payload non_empty wanted runs_key let_through at_limit
    to_string_payload is_running Option.bind
over_the_limit = refl
