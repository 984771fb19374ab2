-- ===== src/Services/Order/Resolved.antt =====
-- The loop of `start_all` ends, starts a service only when all that it comes after is started, and
-- leaves only services that wait for one that is not.
use rind.Prelude.{
  ℕ, zero, suc, ◌≤◌, ◌<◌, ◌≡◌, ◌⊎◌, refl, arith, inl, inr, Bool, true, false, some, List, [], ◌∷◌,
  ◌++◌, length, Bool-cases, any, not, ◌&&◌, All, append_assoc,
}
use rind.Set
use rind.Text.{Text, text_eq}
use rind.Error.{CoreResult}
use rind.Services.Order.{Pending, resolved, start_pending, pass, rounds, ensure_scoped_name}

-- A service waits for no condition, and all that it comes after is started.
abbrev pub IsReady : List Text → Pending → Type 0
IsReady started p = (p.has_start_on ≡ false) × All (λ a. Set.contains a started ≡ true) p.after

afters_met :
    (started afters : List Text)
    → any (λ a. not (Set.contains a started)) afters ≡ false
    → All (λ a. Set.contains a started ≡ true) afters
afters_met started [] h = tt
afters_met started (a ∷ afters) h = elim (Bool-cases (Set.contains a started)) [
  | inl e ↦ (e, afters_met started afters (rw e at h))
  | inr e ↦ let k = rw e at h in cc
]

none_missing :
    (started afters : List Text)
    → All (λ a. Set.contains a started ≡ true) afters
    → any (λ a. not (Set.contains a started)) afters ≡ false
none_missing started [] h = refl
none_missing started (a ∷ afters) h = rw h.0 (none_missing started afters h.1)

both_false : (b c : Bool) → (not b && not c) ≡ true → (b ≡ false) × (c ≡ false)
both_false true c h = cc
both_false false true h = cc
both_false false false h = (refl, refl)

resolved-IsReady :
    (started : List Text) (p : Pending) → resolved started p ≡ true → IsReady started p
unfolding resolved
resolved-IsReady started p h =
    let both = both_false p.has_start_on (any (λ a. not (Set.contains a started)) p.after) h in
    (both.0, afters_met started p.after both.1)

not_resolved-IsReady :
    (started : List Text) (p : Pending) → resolved started p ≡ false → ¬ IsReady started p
unfolding resolved
not_resolved-IsReady started p h ready =
    let k = rw (ready.0, none_missing started p.after ready.1) at h in cc

module _ {S : Type 0} (running : Text → S → Bool)
    (start : Text → S → CoreResult (Unit {0}) × S) where
  -- A service that runs leaves the registry as it is, and for one that does not the start is called,
  -- whose error is passed over.
  abbrev pub IsStarted : Text → S → S → Type 0
  IsStarted name st next =
      ((running (ensure_scoped_name name) st ≡ true) × (next ≡ st))
      ⊎ ((running (ensure_scoped_name name) st ≡ false) × (next ≡ (start name st).1))

  -- The specification: a service that is ready may be started.
  pub data Starts : List Pending → List Text → S → List Pending → List Text → S → Type 0 where
    done :
        (pending : List Pending) (started : List Text) (st : S)
        → Starts pending started st pending started st
    start_one :
        (before : List Pending) (p : Pending) (behind : List Pending) (started : List Text)
        (st next : S) (left : List Pending) (ended : List Text) (last : S)
        → IsReady started p
        → IsStarted p.name st next
        → Starts (before ++ behind) (Set.insert p.name started) next left ended last
        → Starts (before ++ p ∷ behind) started st left ended last

  Starts-trans :
      {ps : List Pending} {ss : List Text} {s : S} {qs : List Pending} {ts : List Text} {t : S}
      {rs : List Pending} {us : List Text} {u : S}
      → Starts ps ss s qs ts t
      → Starts qs ts t rs us u
      → Starts ps ss s rs us u
  Starts-trans (done ps ss s) h = h
  Starts-trans (start_one before p behind ss s next qs ts t ready st rest) h =
      start_one before p behind ss s next _ _ _ ready st (Starts-trans rest h)

  start_pending-IsStarted :
      (name : Text) (st : S) → IsStarted name st (start_pending running start name st)
  unfolding start_pending
  start_pending-IsStarted name st = elim (Bool-cases (running (ensure_scoped_name name) st)) [
    | inl e ↦ inl (e, rw (start_pending, e) refl)
    | inr e ↦ inr (e, rw (start_pending, e) refl)
  ]

  -- a pass keeps no more than it is given, and fewer where it makes progress
  length-pass :
      (pending : List Pending) (started : List Text) (st : S)
      → length (pass running start pending started st).0 ≤ length pending
  unfolding pass
  length-pass [] started st = omega arith
  length-pass (p ∷ pending) started st = elim (Bool-cases (resolved started p)) [
    | inl e ↦
        rw (pass, e)
          (omega (
            arith,
            length-pass pending (Set.insert p.name started) (start_pending running start p.name st),
          ))
    | inr e ↦ rw (pass, e) (omega (arith, length-pass pending started st))
  ]

  pass_progress :
      (pending : List Pending) (started : List Text) (st : S)
      → (pass running start pending started st).3 ≡ true
      → length (pass running start pending started st).0 < length pending
  unfolding pass
  pass_progress [] started st h = cc
  pass_progress (p ∷ pending) started st h = elim (Bool-cases (resolved started p)) [
    | inl e ↦
        rw (pass, e)
          (omega (
            arith,
            length-pass pending (Set.insert p.name started) (start_pending running start p.name st),
          ))
    | inr e ↦ rw (pass, e) (omega (arith, pass_progress pending started st (rw (pass, e) at h)))
  ]

  -- a pass without progress has started none of the services
  pass_still :
      (pending : List Pending) (started : List Text) (st : S)
      → (pass running start pending started st).3 ≡ false
      → ((pass running start pending started st).1 ≡ started)
        × All (λ p. ¬ IsReady started p) (pass running start pending started st).0
  unfolding pass
  pass_still [] started st h = (refl, tt)
  pass_still (p ∷ pending) started st h = elim (Bool-cases (resolved started p)) [
    | inl e ↦ let k = rw (pass, e) at h in cc
    | inr e ↦
        let rest = pass_still pending started st (rw (pass, e) at h) in
        rw (pass, e) (rest.0, (not_resolved-IsReady started p e, rest.1))
  ]

  pass-Starts :
      (before pending : List Pending) (started : List Text) (st : S)
      → Starts
          (before ++ pending)
          started
          st
          (before ++ (pass running start pending started st).0)
          (pass running start pending started st).1
          (pass running start pending started st).2
  unfolding pass
  pass-Starts before [] started st = done _ started st
  pass-Starts before (p ∷ pending) started st = elim (Bool-cases (resolved started p)) [
    | inl e ↦
        rw (pass, e)
          (start_one before p pending started st _ _ _ _ (resolved-IsReady started p e)
            (start_pending-IsStarted p.name st)
            (pass-Starts before pending (Set.insert p.name started)
              (start_pending running start p.name st)))
    | inr e ↦
        let kept = (pass running start pending started st).0 in
        let rest = pass-Starts (before ++ p ∷ []) pending started st in
        rw (pass, e)
          (rw (append_assoc before (p ∷ []) pending, append_assoc before (p ∷ []) kept) at rest)
  ]

  -- With more fuel than services are pending, the loop of start_all ends. It then has taken up one
  -- service after the other, each when it waited for no condition and all in its after were taken
  -- up before it or started at first: one that runs under its scoped name is left alone, and for
  -- one that does not the start is called on the registry as it then is. No service that is left
  -- is ready in this way, and the registry is the one behind the last start.
  pub rounds_lem :
      (fuel : ℕ) (pending : List Pending) (started : List Text) (st : S)
      → length pending < fuel
      → (left : List Pending) × (ended : List Text) × (last : S) × (rounds running start fuel
            pending started st
          ≡ some (left, ended, last))
        × Starts pending started st left ended last
        × All (λ p. ¬ IsReady ended p) left
  unfolding rounds
  rounds_lem zero pending started st h = absurd (omega arith)
  rounds_lem (suc fuel) pending started st h =
      let swept = pass running start pending started st in
      elim (Bool-cases swept.3) [
        | inl e ↦
            let (left, ended, last, eq, s, a) =
              rounds_lem fuel swept.0 swept.1 swept.2
                (omega (arith, pass_progress pending started st e)) in
            (
              left,
              ended,
              last,
              rw (rounds, e) eq,
              Starts-trans (pass-Starts [] pending started st) s,
              a,
            )
        | inr e ↦
            let still = pass_still pending started st e in
            (
              swept.0,
              swept.1,
              swept.2,
              rw (rounds, e) refl,
              pass-Starts [] pending started st,
              rw still.0 still.1,
            )
      ]
