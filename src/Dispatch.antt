-- ===== src/Dispatch.antt =====
-- `trigger_events` of crates/flow/src/triggers.rs: which payloads a trigger is resolved to, and what
-- it starts. The registered actions are an argument; the processes, messages and hooks that a
-- trigger starts are values.
pub mod Specs
use rind.Prelude.{
  Bool, true, false, Option, none, some, List, [], ◌∷◌, ◌++◌, map, if◌then◌else◌, ◌==◌,
}
use rind.Map
use rind.Map.{Map}
use rind.Text.{Text, codes, text_eq}
use rind.Text.Split.{split, split_once, rsplit_once, strip_prefix}
use rind.Json.{Json, string, object, Entries, end, entry, get}
use rind.Payload.{JsonCodec, FlowPayload, into_json, to_string_payload}
use rind.Matching.{FlowInstance}
use rind.Facets.{Facets}

pub record Trigger : Type 0 where
  pub hook : Option Text
  pub script : Option Text
  pub exec : Option Text
  pub args : Option (List Text)
  pub facet : Option Text
  pub impulse : Option Text
  pub service : Option Text
  pub timer : Option Text
  pub socket : Option Text
  pub stop : Option Bool
  pub payload : Option Json
  pub action : Option Text

module _ (codec : JsonCodec) where
  -- the value at a path, where a key that is missing is passed over
  unfoldable pub walk : List Text → Json → Json
  walk [] cur = cur
  walk (key ∷ path) cur = elim (get key cur) [ none ↦ walk path cur | some v ↦ walk path v ]

  -- `as_str` or else `to_string`
  abbrev pub shown : Json → Text
  shown (string s) = s
  shown v = codec.to_string v

  unfoldable pub resolve_path : FlowInstance → Text → Text
  unfolding walk
  resolve_path branch path = elim branch.payload [
    | FlowPayload.json s ↦ shown (walk (split b'/' path) (into_json codec s))
    | p ↦ to_string_payload codec p
  ]

  -- what follows `facet:` in a text
  unfoldable pub facet_spec : Json → Option Text
  facet_spec (string s) = strip_prefix (codes "facet:") s
  facet_spec v = none

  -- the first value with a facet, by what stands before its last colon
  unfoldable pub primary_state : Entries → Option Text
  unfolding facet_spec
  primary_state end = none
  primary_state (entry k v rest) =
      let next = primary_state rest in
      elim (facet_spec v) [
        | none ↦ next
        | some spec ↦ elim (rsplit_once b':' spec) [ none ↦ next | some p ↦ some p.0 ]
      ]

  abbrev pub first_of : Option (List FlowInstance) → Option FlowInstance
  first_of (some (b ∷ bs)) = some b
  first_of _ = none

  -- a value of the object, for one branch of the primary state
  unfoldable pub resolve_value : Facets → Text → FlowInstance → Json → Json
  unfolding facet_spec resolve_path
  resolve_value facets state branch v = elim (facet_spec v) [
    | none ↦ v
    | some spec ↦ elim (split_once b'/' spec) [
      | none ↦ v
      | some p ↦ elim (if p.0 == state then some branch else first_of (Map.get p.0 facets)) [
        | none ↦ v
        | some b ↦ string (resolve_path b p.1)
      ]
    ]
  ]

  unfoldable pub resolve_entries : Facets → Text → FlowInstance → Entries → Entries
  unfolding resolve_value
  resolve_entries facets state branch end = end
  resolve_entries facets state branch (entry k v rest) =
      entry k (resolve_value facets state branch v) (resolve_entries facets state branch rest)

  -- the payloads of the resolved triggers, where there is a graph
  unfoldable pub resolve_payload : Facets → Option Json → List (Option Json)
  unfolding resolve_path primary_state resolve_entries
  resolve_payload facets (some (string s)) = elim (rsplit_once b':' s) [
    | none ↦ some (string s) ∷ []
    | some (state, path) ↦
        map (λ branch. some (string (resolve_path branch path))) (Map.get_or state [] facets)
  ]
  resolve_payload facets (some (object es)) = elim (primary_state es) [
    | none ↦ some (object es) ∷ []
    | some state ↦
        map (λ branch. some (object (resolve_entries facets state branch es)))
          (Map.get_or state [] facets)
  ]
  resolve_payload facets payload = payload ∷ []

  unfoldable pub resolve_trigger : Option Facets → Trigger → List Trigger
  unfolding resolve_payload
  resolve_trigger none trigger = trigger ∷ []
  resolve_trigger (some facets) trigger =
      map (λ payload. record trigger { payload = payload }) (resolve_payload facets trigger.payload)

-- What a trigger starts.
pub data Started : Type 0 where
  spawn_script : Text → Started
  spawn : Text → Option (List Text) → Started
  start_facet start_impulse : Text → Option Json → Started
  -- a runtime, its action and the name of what it acts on
  dispatch : Text → Text → Text → Started
  trigger_hooks trigger_hooks_mut : Text → Started
  -- a runtime and its action with `exec`, `args` and `stop`
  dispatch_action : Text → Text → Option Text → Option (List Text) → Option Bool → Started
  nothing : Started

abbrev pub start_or_stop : Option Bool → Text
start_or_stop (some true) = codes "stop"
start_or_stop stop = codes "start"

-- the registered action, `none` where no actions are set
unfoldable pub start_action : Option (Map Text Text) → Trigger → Started
start_action actions trigger = elim trigger.action [
  | none ↦ nothing
  | some action ↦ elim actions [
    | none ↦ nothing
    | some inner ↦ elim (Map.get action inner) [
      | none ↦ nothing
      | some runtime ↦ elim (split_once b':' runtime) [
        | none ↦ nothing
        | some p ↦ dispatch_action p.0 p.1 trigger.exec trigger.args trigger.stop
      ]
    ]
  ]
]

unfoldable pub start_unit : Option (Map Text Text) → Trigger → Started
unfolding start_action
start_unit actions trigger = elim trigger.timer [
  | some timer ↦ dispatch (codes "timer") (start_or_stop trigger.stop) timer
  | none ↦ elim trigger.socket [
    | some socket ↦ dispatch (codes "sockets") (start_or_stop trigger.stop) socket
    | none ↦ start_action actions trigger
  ]
]

-- the hook where there is a log, the timer, the socket or the action
unfoldable pub start_rest : Bool → Option (Map Text Text) → Trigger → Started
unfolding start_unit
start_rest true actions trigger = elim trigger.hook [
  | some hook ↦ elim trigger.stop [ some true ↦ trigger_hooks_mut hook | _ ↦ trigger_hooks hook ]
  | none ↦ start_unit actions trigger
]
start_rest false actions trigger = start_unit actions trigger

-- the branches on what the trigger names, in their order; `log` says whether there is a log
unfoldable pub start : Bool → Option (Map Text Text) → Trigger → Started
unfolding start_rest
start log actions trigger = elim trigger.script [
  | some script ↦ spawn_script script
  | none ↦ elim trigger.exec [
    | some exec ↦ spawn exec trigger.args
    | none ↦ elim trigger.facet [
      | some state ↦ start_facet state trigger.payload
      | none ↦ elim trigger.impulse [
        | some signal ↦ start_impulse signal trigger.payload
        | none ↦ elim trigger.service [
          | some service ↦ dispatch (codes "services") (start_or_stop trigger.stop) service
          | none ↦ start_rest log actions trigger
        ]
      ]
    ]
  ]
]

-- `trigger_events`
unfoldable pub trigger_events :
    JsonCodec → Option Facets → Bool → Option (Map Text Text) → List Trigger → List Started
unfolding start resolve_trigger
trigger_events codec facets log actions [] = []
trigger_events codec facets log actions (trigger ∷ triggers) =
    map (start log actions) (resolve_trigger codec facets trigger)
    ++ trigger_events codec facets log actions triggers
