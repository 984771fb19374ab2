-- ===== src/Permissions/Expr.antt =====
-- `PermissionExpr`, `user_check` and `eval_expr` of crates/core/src/permissions.rs.
use rind.Prelude.{ℕ, Bool, true, false, Option, none, some, List, if◌then◌else◌, ◌==◌, nat_eq}
use rind.Set
use rind.Text.{Text, text_eq}
use rind.Users.{lookup_by_uid, groups_for}
use rind.Permissions.{PermissionStore}
use rind.Permissions.Check.{or_else, user_has}

mutual
  pub data PermissionExpr : Type 0 where
    all : PermissionExpr
    any : PermissionExprs → PermissionExpr
    exact : PermissionExprs → PermissionExpr
    group : Text → PermissionExpr
    perm : ℕ → PermissionExpr
    root_only : PermissionExpr

  pub data PermissionExprs : Type 0 where
    nil : PermissionExprs
    cons : PermissionExpr → PermissionExprs → PermissionExprs

-- `&&` of tests that may not return
abbrev pub and_then : Option Bool → Option Bool → Option Bool
and_then none b = none
and_then (some true) b = b
and_then (some false) b = some false

-- `eval_expr`; `any_of` and `all_of` are `iter().any` and `iter().all` over the expressions.
unfoldable mutual
  pub eval_expr : PermissionExpr → ℕ → PermissionStore → ℕ → List Text → Option Bool
  eval_expr all fuel s uid groups = some true
  eval_expr (perm p) fuel s uid groups = user_has fuel s uid p
  eval_expr (group name) fuel s uid groups = some (Set.contains name groups)
  eval_expr (any es) fuel s uid groups = any_of es fuel s uid groups
  eval_expr (exact es) fuel s uid groups = all_of es fuel s uid groups
  eval_expr root_only fuel s uid groups = some (uid == 0)

  pub any_of : PermissionExprs → ℕ → PermissionStore → ℕ → List Text → Option Bool
  any_of nil fuel s uid groups = some false
  any_of (cons e es) fuel s uid groups =
      or_else (eval_expr e fuel s uid groups) (any_of es fuel s uid groups)

  pub all_of : PermissionExprs → ℕ → PermissionStore → ℕ → List Text → Option Bool
  all_of nil fuel s uid groups = some true
  all_of (cons e es) fuel s uid groups =
      and_then (eval_expr e fuel s uid groups) (all_of es fuel s uid groups)

unfoldable pub user_check : ℕ → PermissionStore → ℕ → PermissionExpr → Option Bool
user_check fuel s uid expr = if uid == 0 then some true else elim (lookup_by_uid s.users uid) [
  | none ↦ some false
  | some user ↦ eval_expr expr fuel s uid (groups_for s.users user)
]
