-- ===== src/Services/Order.antt =====
-- `start_all` of crates/services/src/services.rs: the active services in the order of their `after`.
-- What a start does to the registry, and whether a service runs in it, are parameters.
pub mod Resolved
use rind.Prelude.{
  ℕ, zero, suc, Bool, true, false, not, ◌&&◌, Option, none, some, List, [], ◌∷◌, ◌++◌, any, length,
  if◌then◌else◌,
}
use rind.Set
use rind.Text.{Text, text_eq}
use rind.Error.{CoreError, CoreResult, ok, err}
use rind.Services.Stopping.{ensure_scoped_name}

-- An active service with what the loop reads of its metadata.
pub record Candidate : Type 0 where
  pub name : Text
  pub after : Option (List Text)
  pub has_start_on : Bool

pub record Pending : Type 0 where
  pub name : Text
  pub after : List Text
  pub has_start_on : Bool

-- whether every one of `after` is started, and the service does not wait for a condition
unfoldable pub resolved : List Text → Pending → Bool
resolved started p = not p.has_start_on && not (any (λ a. not (Set.contains a started)) p.after)

module _ {S : Type 0} (running : Text → S → Bool)
    (start : Text → S → CoreResult (Unit {0}) × S) where
  -- a start in the loop, whose error is passed over
  unfoldable pub start_pending : Text → S → S
  start_pending name st = if running (ensure_scoped_name name) st then st else (start name st).1

  -- `pending.retain`, with the services that are left, those that are started and the progress
  unfoldable pub pass : List Pending → List Text → S → List Pending × List Text × S × Bool
  unfolding start_pending
  pass [] started st = ([], started, st, false)
  pass (p ∷ pending) started st = elim (resolved started p) [
    | true ↦
        let rest = pass pending (Set.insert p.name started) (start_pending p.name st) in
        (rest.0, rest.1, rest.2, true)
    | false ↦ let rest = pass pending started st in (p ∷ rest.0, rest.1, rest.2, rest.3)
  ]

  -- the loop, on fuel
  unfoldable pub rounds : ℕ → List Pending → List Text → S → Option (List Pending × List Text × S)
  rounds zero pending started st = none
  rounds (suc fuel) pending started st =
      let swept = pass pending started st in
      let rest = rounds fuel swept.0 swept.1 swept.2 in
      if swept.3 then rest else some (swept.0, swept.1, swept.2)

  -- the loop over the active services before it, which an error ends
  unfoldable pub collect :
      List Candidate → List Pending → List Text → S → CoreResult (List Pending × List Text) × S
  collect [] pending started st = (ok (pending, started), st)
  collect (c ∷ cs) pending started st = elim c.has_start_on [
    | true ↦
        collect cs pending
          (if running (ensure_scoped_name c.name) st then Set.insert c.name started else started) st
    | false ↦ elim c.after [
      | some afters ↦
          collect cs
            (pending ++ record { name = c.name; after = afters; has_start_on = false } ∷ []) started
            st
      | none ↦ elim (running (ensure_scoped_name c.name) st) [
        | true ↦ collect cs pending (Set.insert c.name started) st
        | false ↦
            let tried = start c.name st in
            elim tried.0 [
              | err e ↦ (err e, tried.1)
              | ok u ↦ collect cs pending (Set.insert c.name started) tried.1
            ]
      ]
    ]
  ]

  -- the services that are left unresolved, in the log of the source, and those that are started
  unfoldable pub start_all :
      List Candidate → S → CoreResult (Option (List Pending × List Text × S)) × S
  unfolding collect rounds
  start_all cs st =
      let collected = collect cs [] [] st in
      elim collected.0 [
        | err e ↦ (err e, collected.1)
        | ok r ↦
            let ended = rounds (suc (length r.0)) r.0 r.1 collected.1 in
            (ok ended, elim ended [ none ↦ collected.1 | some e ↦ e.2 ])
      ]
