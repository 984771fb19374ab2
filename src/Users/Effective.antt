-- ===== src/Users/Effective.antt =====
-- Which permissions the sets of `Users.Perms` hold.
use rind.Prelude.{
  ℕ, ◌≡◌, refl, Bool, true, false, Option, none, some, List, [], ◌∷◌, if◌then◌else◌, ◌==◌, nat_eq,
  arith,
}
use rind.Set
use rind.Users.Perms.{insert_sorted, extend, remove_all, revoke, grant, effective}

contains-insert_sorted :
    (p q : ℕ) (xs : List ℕ)
    → Set.contains q (insert_sorted p xs) ≡ (if p == q then true else Set.contains q xs)
unfolding insert_sorted Set.contains
contains-insert_sorted p q [] = refl
contains-insert_sorted p q (x ∷ xs) = ground (arith, contains-insert_sorted p q xs)

contains-extend :
    (q : ℕ) (xs ps : List ℕ)
    → Set.contains q (extend xs ps) ≡ (if Set.contains q xs then true else Set.contains q ps)
unfolding extend Set.contains
contains-extend q [] ps = refl
contains-extend q (x ∷ xs) ps =
    ground (arith, contains-extend q xs (insert_sorted x ps), contains-insert_sorted x q ps)

contains-remove_all :
    (q : ℕ) (xs ps : List ℕ)
    → Set.contains q (remove_all xs ps) ≡ (if Set.contains q xs then false else Set.contains q ps)
unfolding remove_all Set.contains
contains-remove_all q [] ps = refl
contains-remove_all q (x ∷ xs) ps =
    ground (arith, contains-remove_all q xs (Set.remove x ps), Set.contains-remove x q ps)

-- membership in a set that may be missing
abbrev pub contains_opt : ℕ → Option (List ℕ) → Bool
contains_opt q none = false
contains_opt q (some ps) = Set.contains q ps

-- What is granted is in; of the rest, what is revoked is out and the entry's own stays.
pub contains-effective :
    (q : ℕ) (own : List ℕ) (revokes grants : Option (List ℕ))
    → Set.contains q (effective own revokes grants) ≡ (
        if contains_opt q grants
        then true
        else (if contains_opt q revokes then false else Set.contains q own))
unfolding effective revoke grant
contains-effective q own none none = ground (arith, contains-extend q own [], Set.contains-nil q)
contains-effective q own none (some gs) =
    ground
      (arith, contains-extend q own [], Set.contains-nil q, contains-extend q gs (extend own []))
contains-effective q own (some rs) none =
    ground (
      arith,
      contains-extend q own [],
      Set.contains-nil q,
      contains-remove_all q rs (extend own []),
    )
contains-effective q own (some rs) (some gs) = ground (
  arith,
  contains-extend q own [],
  Set.contains-nil q,
  contains-remove_all q rs (extend own []),
  contains-extend q gs (remove_all rs (extend own [])),
)
