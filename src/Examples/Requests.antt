-- ===== src/Examples/Requests.antt =====
-- The theorem about the requests to start and stop a service, at a user's own service.
use rind.Prelude.{false, ◌≡◌, refl, inr, Option, none, some, List, nat_eq}
use rind.Map
use rind.Set
use rind.Text.{Text, codes, text_eq}
use rind.Error.{CoreResult, ok}
use rind.Users.{lookup_by_uid, groups_for, group, group_by_name, add_memberships}
use rind.Permissions.{listed}
use rind.Permissions.Check.{user_has, parents, by_group, group_grants, group_has}
use rind.Services.{user_selective}
use rind.Services.Requests.{
  Managed, SsPayload, Action, start_actions, stop_actions, handle_ipc_start, handle_ipc_stop,
  guarded, can_manage, is_privileged, manages, manages_space, limited_to,
}
use rind.Services.Requests.Allowed.{IsAnswer, handle_ipc-IsAnswer}
use rind.Examples.Rights.{rights}
use mathlib.Core.Option

abbrev shell : SsPayload
shell = record { name = codes "shell"; force = false; persist = false }

abbrev of_alice : Text → Option Managed
of_alice name = some (record { managed_by = none; space = user_selective (codes "alice") })

abbrev begun : CoreResult (List Action × Text)
begun = ok (start_actions shell (some (codes "alice")))

abbrev ended : CoreResult (List Action × Text)
ended = ok (stop_actions shell (some (codes "alice")))

alice_starts : handle_ipc_start 2 rights (some 1000) (inr shell) of_alice ≡ some begun
unfolding handle_ipc_start guarded can_manage is_privileged manages manages_space limited_to
    user_has parents listed lookup_by_uid groups_for group add_memberships Map.get Map.get_or
    Set.contains by_group group_grants group_has group_by_name Option.bind
alice_starts = refl

alice_stops : handle_ipc_stop 2 rights (some 1000) (inr shell) of_alice ≡ some ended
unfolding handle_ipc_stop guarded can_manage is_privileged manages manages_space limited_to user_has
    parents listed lookup_by_uid groups_for group add_memberships Map.get Map.get_or Set.contains
    by_group group_grants group_has group_by_name Option.bind
alice_stops = refl

handle_ipc-IsAnswer_example :
    IsAnswer rights 1000 (of_alice (codes "shell")) (start_actions shell) begun
    × IsAnswer rights 1000 (of_alice (codes "shell")) (stop_actions shell) ended
handle_ipc-IsAnswer_example =
    handle_ipc-IsAnswer 2 rights 1000 shell of_alice begun ended alice_starts alice_stops
