-- ===== src/Examples/Facets.antt =====
-- The theorems about crates/flow/src/flow.rs with two facets of which one follows the other.
use rind.Prelude.{
  ◌≤◌, refl, false, subst, ℕ, ◌<◌, ◌≡◌, ◌≢◌, true, none, some, List, [], ◌∷◌, if◌then◌else◌, ◌==◌,
  ==_iff, arith, Bool-cases, inl, inr,
}
use rind.Map
use rind.Map.{Map}
use rind.Map.Entries.{AllEntries}
use rind.Set
use rind.Text.{Text, codes, text_eq}
use rind.Text.Split.{strip_prefix}
use rind.Json.{get_entry}
use rind.Payload.{JsonCodec, FlowPayload, into_json}
use rind.Matching as Matching
use rind.Matching.{FlowInstance, FlowType, payload_type_ok, FlowItem, FlowInstance, FlowType}
use rind.Variables.{Toml}
use rind.Flow.{FlowFacet, FlowState, unfinished}
use rind.Flow.Payloads.{TomlJson}
use rind.Flow.Entry.Placed.{PlainPayload, Applied}
use rind.Flow.Reconcile.{Context, Request, set}
use rind.Examples.Values.{ids}
use rind.Persistence.{Outcome}
use rind.Flow.Actions.{Saver}
use rind.Flow.Run.{run, apply_key}
use rind.Flow.Run.Fits.{Fits, typed, may_have, run-Fits}
use rind.Flow.Run.Effects.{run-set_facet}
use rind.Flow.Run.Termination.{run_ends}

abbrev no_json : JsonCodec
no_json = record {
  to_string = λ v. [];
  from_str = λ s. none;
  from_utf8_lossy = λ b. b;
  usize_to_string = λ n. n ∷ [];
}

abbrev pub texts : Toml
texts = record {
  Value = Text;
  boolean = λ b. [];
  string = λ s. s;
  to_string_pretty = λ m. inl [];
  from_str = λ s. inl [];
}

abbrev text_values : TomlJson texts
text_values = record {
  to_value = λ v. none;
  get = λ v i. none;
  as_array = λ v. none;
  to_string = λ v. v;
  as_bytes = λ s. s;
}

unfoldable seat : Text
seat = codes "rind:seat"

unfoldable login : Text
login = codes "rind:login"

-- `login` follows `seat`.
abbrev seat_facet : FlowFacet
seat_facet = record {
  name = codes "seat";
  payload = Matching.string;
  stop_on = none;
  after = none;
  branch = none;
  auto_payload = none;
  subscribers = none;
}

abbrev login_facet : FlowFacet
login_facet = record seat_facet { name = codes "login"; after = some (FlowItem.simple seat ∷ []) }

abbrev two : Context
two = record {
  codec = no_json;
  toml = texts;
  values = text_values;
  variables = none;
  find = λ name.
      if name == seat then some seat_facet else if name == login then some login_facet else none;
  transcendence_index = (seat, login ∷ []) ∷ [];
  inverse_transcendence_index = [];
}

abbrev empty : FlowState
empty = record { facets = []; guard = []; events = []; sent = [] }

abbrev rank : Text → ℕ
rank name = if name == seat then 1 else if name == login then 0 else 2

login_below : rank login < rank seat
unfolding seat login
login_below = omega arith

seat_first :
    (name target : Text)
    → Set.contains target (Map.get_or name [] two.transcendence_index) ≡ true
    → rank target < rank name
unfolding Set.contains Map.get_or Map.get
seat_first name target h = elim (Bool-cases (seat == name)) [
  | inl same ↦ elim (Bool-cases (login == target)) [
    | inl is ↦
        subst (λ (t : Text). rank t < rank name) ((==_iff login target).0 is)
          (subst (λ (n : Text). rank login < rank n) ((==_iff seat name).0 same) login_below)
    | inr other ↦ absurd (ground (arith, same, other))
  ]
  | inr apart ↦ absurd (ground (arith, apart))
]

nothing_stops :
    (name target : Text)
    → Set.contains target (Map.get_or name [] two.inverse_transcendence_index) ≡ true
    → rank target < rank name
unfolding Set.contains Map.get_or Map.get
nothing_stops name target h = absurd (ground arith)

abbrev set_seat : Request
set_seat = set seat (some (FlowPayload.string (codes "one")))

low_enough : rank seat < 2
unfolding seat
low_enough = omega arith

run_ends_example : (run two 2 set_seat empty).0 ≢ unfinished
run_ends_example = run_ends two rank (seat_first, nothing_stops) 2 set_seat low_enough empty tt

run-Fits_example : AllEntries (Fits two) (run two 2 set_seat empty).1.facets
run-Fits_example = run-Fits two 2 set_seat empty tt

-- A facet of JSON with one branch.
abbrev json_facet : FlowFacet
json_facet = record seat_facet { payload = Matching.json }

abbrev json_two : Context
json_two = record two { codec = ids; find = λ name. if name == seat then some json_facet else none }

abbrev payload_of : Text → FlowPayload
payload_of id = FlowPayload.json id

abbrev standing : List FlowInstance
standing = record { name = seat; payload = payload_of (codes "one"); type = FlowType.facet } ∷ []

abbrev occupied : FlowState
occupied = record empty { facets = (seat, standing) ∷ [] }

occupied_Fits : AllEntries (Fits json_two) occupied.facets
unfolding seat payload_type_ok typed may_have
occupied_Fits = ((((refl, refl), tt), refl), tt)

unguarded :
    Set.contains (apply_key json_two seat (some (payload_of (codes "one")))) occupied.guard ≡ false
unfolding Set.contains
unguarded = refl

seat_found : json_two.find seat ≡ some json_facet
unfolding seat
seat_found = refl

one_typed : payload_type_ok json_facet.payload (payload_of (codes "one")) ≡ true
unfolding payload_type_ok
one_typed = refl

one_plain : PlainPayload json_two.codec (payload_of (codes "one"))
unfolding into_json get_entry strip_prefix
one_plain = (refl, refl, refl, tt)

fuel_enough : rank seat ≤ 1
unfolding seat
fuel_enough = omega arith

run-set_facet_example :
    (result : List FlowInstance) × (Map.get seat
        (run json_two 2 (set seat (some (payload_of (codes "one")))) occupied).1.facets
      ≡ some result)
    × Applied ids json_facet
        (record { name = seat; payload = payload_of (codes "one"); type = FlowType.facet })
        (Map.get_or seat [] occupied.facets)
        result
run-set_facet_example =
    run-set_facet json_two rank (seat_first, nothing_stops) 1 seat (some (payload_of (codes "one")))
      json_facet occupied one_plain fuel_enough unguarded seat_found one_typed occupied_Fits

abbrev saver : Saver
saver = record {
  libraries = record {
    encode_to_vec = λ s. inr [];
    decode_from_slice = λ bytes. inr [];
    hash = λ bytes. 0;
  };
  entry_codec = record { encode = λ x. []; decode = λ bytes. none };
  outcomes = λ scope. Outcome.done;
}
