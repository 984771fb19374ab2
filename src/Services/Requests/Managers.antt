-- ===== src/Services/Requests/Managers.antt =====
-- Who may start and stop a service, without the order of the look-ups.
use rind.Prelude.{
  ℕ, ◌≡◌, refl, sym, ap, subst, ◌∙◌, ◌⊎◌, ◌↔◌, inl, inr, Bool, true, false, Option, none, some,
  List, [], ◌∷◌, ◌==◌, ==_iff, nat_eq, Bool-cases, Option-cases,
}
use mathlib.Core.Option
use rind.Json.Mem.{Mem, here, there}
use rind.Text.{Text, text_eq}
use rind.Users.{UserRecord, lookup_by_uid}
use rind.Permissions.{PermissionStore, from_name}
use rind.Permissions.Check.{user_has}
use rind.Permissions.UserSemantics.{UserHas, everybody, user_has_iff}
use rind.Services.{ServiceSpace, system, user, user_selective}
use rind.Services.Requests.{
  Managed, perm_system_services, manages_by, manages_space, manages, is_privileged, can_manage,
}

-- The permission over all services, which root has.
abbrev pub IsPrivileged : PermissionStore → ℕ → Type 0
IsPrivileged pm uid = UserHas pm uid perm_system_services

-- One of the names is of a permission that the caller has.
abbrev pub ManagesBy : PermissionStore → ℕ → List Text → Type 0
ManagesBy pm uid names =
    (name : Text) × (id : ℕ) × Mem name names × (from_name pm name ≡ some id) × UserHas pm uid id

abbrev pub OwnsSpace : UserRecord → ServiceSpace → Type 0
OwnsSpace caller space = (space ≡ user) ⊎ (space ≡ user_selective caller.username)

-- By the permissions that the service names or, where it names none, by its space.
abbrev pub ManagesService :
    PermissionStore → ℕ → UserRecord → Option (List Text) → ServiceSpace → Type 0
ManagesService pm uid caller (some names) space = ManagesBy pm uid names
ManagesService pm uid caller none space = OwnsSpace caller space

abbrev pub Manages : PermissionStore → ℕ → Option Managed → Type 0
Manages pm uid svc =
    (caller : UserRecord) × (service : Managed) × (lookup_by_uid pm.users uid ≡ some caller)
    × (svc ≡ some service)
    × ManagesService pm uid caller service.managed_by service.space

abbrev pub CanManage : PermissionStore → ℕ → Option Managed → Type 0
CanManage pm uid svc = IsPrivileged pm uid ⊎ Manages pm uid svc

pub is_privileged_iff :
    (fuel : ℕ) (pm : PermissionStore) (uid : ℕ) (b : Bool)
    → is_privileged fuel pm uid ≡ some b
    → (b ≡ true) ↔ IsPrivileged pm uid
unfolding is_privileged
is_privileged_iff fuel pm uid b h = elim (Bool-cases (uid == 0)) [
  | inl root ↦
      let holds : b ≡ true = sym (Option.some-injective true b (rw (is_privileged, root) at h)) in
      (λ e. everybody (rw root refl), λ p. holds)
  | inr other ↦ user_has_iff fuel pm uid perm_system_services b (rw (is_privileged, other) at h)
]

module _ (fuel : ℕ) (pm : PermissionStore) (uid : ℕ) where
  -- the steps of `manages_by` at the first name
  unnamed :
      (name : Text) (names : List Text) (b : Bool)
      → from_name pm name ≡ none
      → manages_by fuel pm uid (name ∷ names) ≡ some b
      → manages_by fuel pm uid names ≡ some b
  unfolding manages_by
  unnamed name names b e h = rw (manages_by, e) at h

  decided :
      (name : Text) (names : List Text) (b : Bool) (id : ℕ)
      → from_name pm name ≡ some id
      → manages_by fuel pm uid (name ∷ names) ≡ some b
      → ((user_has fuel pm uid id ≡ some true) × (b ≡ true))
        ⊎ ((user_has fuel pm uid id ≡ some false) × (manages_by fuel pm uid names ≡ some b))
  unfolding manages_by
  decided name names b id e h = elim (Option-cases (user_has fuel pm uid id)) [
    | inl never ↦ let k = rw (manages_by, e, never) at h in cc
    | inr (true, holds) ↦
        inl (holds, sym (Option.some-injective true b (rw (manages_by, e, holds) at h)))
    | inr (false, lacks) ↦ inr (lacks, rw (manages_by, e, lacks) at h)
  ]

  manages_by-ManagesBy :
      (names : List Text) → manages_by fuel pm uid names ≡ some true → ManagesBy pm uid names
  unfolding manages_by
  manages_by-ManagesBy [] h = let k : false ≡ true = Option.some-injective false true h in cc
  manages_by-ManagesBy (name ∷ names) h = elim (Option-cases (from_name pm name)) [
    | inl e ↦
        let (other, id, m, found, has) = manages_by-ManagesBy names (unnamed name names true e h) in
        (other, id, there m, found, has)
    | inr (id, e) ↦ elim (decided name names true id e h) [
      | inl (holds, t) ↦ (name, id, here, e, (user_has_iff fuel pm uid id true holds).0 refl)
      | inr (lacks, rest) ↦
          let (other, i, m, found, has) = manages_by-ManagesBy names rest in
          (other, i, there m, found, has)
    ]
  ]

  ManagesBy-manages_by :
      (names : List Text) (b : Bool) (name : Text) (id : ℕ)
      → manages_by fuel pm uid names ≡ some b
      → Mem name names
      → from_name pm name ≡ some id
      → UserHas pm uid id
      → b ≡ true
  ManagesBy-manages_by [] b name id h m found has = elim m [ ]
  ManagesBy-manages_by (n ∷ names) b _ id h here found has = elim (decided n names b id found h) [
    | inl (holds, t) ↦ t
    | inr (lacks, rest) ↦
        let k : false ≡ true = (user_has_iff fuel pm uid id false lacks).1 has in cc
  ]
  ManagesBy-manages_by (n ∷ names) b name id h (there m) found has =
      elim (Option-cases (from_name pm n)) [
        | inl e ↦ ManagesBy-manages_by names b name id (unnamed n names b e h) m found has
        | inr (i, e) ↦ elim (decided n names b i e h) [
          | inl (holds, t) ↦ t
          | inr (lacks, rest) ↦ ManagesBy-manages_by names b name id rest m found has
        ]
      ]

  same_selection : (a b : Text) → (a == b) ≡ true → user_selective a ≡ user_selective b
  same_selection a b h = ap user_selective ((==_iff a b).0 h)

  manages_space_iff :
      (caller : UserRecord) (space : ServiceSpace)
      → (manages_space caller space ≡ true) ↔ OwnsSpace caller space
  unfolding manages_space
  manages_space_iff caller user = (λ e. inl refl, λ o. refl)
  manages_space_iff caller (user_selective name) = (
    λ e. inr (same_selection name caller.username e),
    λ o. elim o [ inl e ↦ cc | inr e ↦ (==_iff name caller.username).1 (cc) ],
  )
  manages_space_iff caller system = (λ e. cc, λ o. elim o [ inl e ↦ cc | inr e ↦ cc ])

  service_iff :
      (caller : UserRecord) (managed_by : Option (List Text)) (space : ServiceSpace) (b : Bool)
      → elim managed_by as (λ (o : Option (List Text)). Option Bool) [
        | some names ↦ manages_by fuel pm uid names
        | none ↦ some (manages_space caller space)
      ]
        ≡ some b
      → (b ≡ true) ↔ ManagesService pm uid caller managed_by space
  service_iff caller none space b h =
      let same : manages_space caller space ≡ b = Option.some-injective _ b h in
      (
        λ e. (manages_space_iff caller space).0 (same ∙ e),
        λ o. sym same ∙ (manages_space_iff caller space).1 o,
      )
  service_iff caller (some names) space b h = (
    λ e. manages_by-ManagesBy names (h ∙ ap some e),
    λ m. ManagesBy-manages_by names b m.0 m.1 h m.2 m.3 m.4,
  )

  false_iff : (b : Bool) {P : Type 0} → some false ≡ some b → ¬ P → (b ≡ true) ↔ P
  false_iff b h not_p =
      let same : false ≡ b = Option.some-injective false b h in
      (λ e. let k : false ≡ true = same ∙ e in cc, λ p. absurd (not_p p))

  manages_iff :
      (caller : Option UserRecord) (svc : Option Managed) (b : Bool)
      → lookup_by_uid pm.users uid ≡ caller
      → manages fuel pm uid caller svc ≡ some b
      → (b ≡ true) ↔ Manages pm uid svc
  unfolding manages
  manages_iff none svc b e h = false_iff b h (λ m. let k : none ≡ some m.0 = sym e ∙ m.2 in cc)
  manages_iff (some caller) none b e h = false_iff b h (λ m. let k = m.3 in cc)
  manages_iff (some caller) (some service) b e h =
      let iff = service_iff caller service.managed_by service.space b h in
      (
        λ t. (caller, service, e, refl, iff.0 t),
        λ m.
            let who : m.0 ≡ caller = Option.some-injective m.0 caller (sym m.2 ∙ e) in
            let what : m.1 ≡ service = Option.some-injective m.1 service (sym m.3) in
            iff.1 (
              subst (λ s. ManagesService pm uid caller s.managed_by s.space) what
                (subst (λ c. ManagesService pm uid c m.1.managed_by m.1.space) who m.4)),
      )

  pub can_manage_iff :
      (svc : Option Managed) (b : Bool)
      → can_manage fuel pm uid svc ≡ some b
      → (b ≡ true) ↔ CanManage pm uid svc
  unfolding can_manage
  can_manage_iff svc b h = elim (Option-cases (is_privileged fuel pm uid)) [
    | inl never ↦ let k = rw (can_manage, never) at h in cc
    | inr (true, holds) ↦
        let t : true ≡ b = Option.some-injective true b (rw (can_manage, holds) at h) in
        (λ e. inl ((is_privileged_iff fuel pm uid true holds).0 refl), λ c. sym t)
    | inr (false, lacks) ↦
        let iff = manages_iff _ svc b refl (rw (can_manage, lacks) at h) in
        (
          λ e. inr (iff.0 e),
          λ c. elim c [
            | inl p ↦ let k : false ≡ true = (is_privileged_iff fuel pm uid false lacks).1 p in cc
            | inr m ↦ iff.1 m
          ],
        )
  ]
