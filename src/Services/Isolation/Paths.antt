-- ===== src/Services/Isolation/Paths.antt =====
-- The control group of a service, `cgroup_path_for`, with the two operations of std's `PathBuf` that
-- it needs.
use rind.Prelude.{
  ℕ, ◌≡◌, ◌≢◌, subst, sym, ◌∙◌, inl, inr, Bool-cases, refl, arith, Bool, true, false, ◌||◌, ◌&&◌,
  Option, none, some, List, [], ◌∷◌, ◌++◌, map, if◌then◌else◌, leb, nat_beq, length,
}
use rind.Text.{Text, codes}
use rind.Text.Split.{starts_with, split, cons_first}
use rind.Services.{ServiceCgroup, ServiceMetadata, ServiceBranchContext}
use mathlib.Core.Option

unfoldable pub allowed : ℕ → Bool
allowed c =
    (leb b'0' c && leb c b'9')
    || (leb b'A' c && leb c b'Z')
    || (leb b'a' c && leb c b'z')
    || nat_beq c b'-'
    || nat_beq c b'_'
    || nat_beq c b'.'

unfoldable pub sanitize_cgroup_component : Text → Text
unfolding allowed
sanitize_cgroup_component input = map (λ c. if allowed c then c else b'_') input

unfoldable pub ends_with_slash : Text → Bool
ends_with_slash [] = false
ends_with_slash (c ∷ []) = nat_beq c b'/'
ends_with_slash (c ∷ d ∷ s) = ends_with_slash (d ∷ s)

-- `Path::is_absolute`, and `PathBuf::push` onto a path that is not empty
unfoldable pub is_absolute : Text → Bool
is_absolute path = starts_with (codes "/") path

unfoldable pub push : Text → Text → Text
unfolding is_absolute ends_with_slash
push path component =
    if is_absolute component
    then component
    else if ends_with_slash path
    then path ++ component
    else path ++ b'/' ∷ component

unfoldable pub push_some : Text → Option Text → Text
unfolding push sanitize_cgroup_component
push_some path none = path
push_some path (some component) = push path (sanitize_cgroup_component component)

unfoldable pub default_path : Text → Option Text → Option Text → Text
unfolding push_some
default_path name branch user =
    push_some (push_some (push_some (codes "/sys/fs/cgroup/rind") (some name)) branch) user

unfoldable pub rooted : Text → Text
unfolding is_absolute push
rooted path = if is_absolute path then path else push (codes "/sys/fs/cgroup") path

unfoldable pub cgroup_path_for :
    ServiceMetadata → Option ServiceCgroup → Option ServiceBranchContext → Option Text → Option Text
unfolding default_path rooted
cgroup_path_for service none branch_ctx user = none
cgroup_path_for service (some cgroup) branch_ctx user = some (
    rooted (elim cgroup.path [
      | some custom ↦ custom
      | none ↦ default_path service.name (Option.bind branch_ctx (λ ctx. ctx.key)) user
    ]))

-- No character of the text is a slash.
abbrev pub SlashFree : Text → Type 0
SlashFree [] = Unit
SlashFree (c ∷ s) = (nat_beq c b'/' ≡ false) × SlashFree s

replaced : (c : ℕ) → nat_beq (if allowed c then c else b'_') b'/' ≡ false
unfolding allowed
replaced c = ground arith

sanitize_cgroup_component-SlashFree : (s : Text) → SlashFree (sanitize_cgroup_component s)
unfolding sanitize_cgroup_component
sanitize_cgroup_component-SlashFree [] = tt
sanitize_cgroup_component-SlashFree (c ∷ s) = (replaced c, sanitize_cgroup_component-SlashFree s)

split-SlashFree : (s : Text) → SlashFree s → split b'/' s ≡ s ∷ []
unfolding split
split-SlashFree [] h = refl
split-SlashFree (c ∷ s) h = rw (h.0, split-SlashFree s h.1) refl

cons_first-append :
    (c : ℕ) (xs ys : List Text) → length xs ≢ 0 → cons_first c (xs ++ ys) ≡ cons_first c xs ++ ys
cons_first-append c [] ys h = absurd (h refl)
cons_first-append c (x ∷ xs) ys h = refl

length-cons_first : (c : ℕ) (xs : List Text) → length (cons_first c xs) ≢ 0
length-cons_first c [] = ground arith
length-cons_first c (x ∷ xs) = ground arith

length-split : (s : Text) → length (split b'/' s) ≢ 0
unfolding split
length-split [] = ground arith
length-split (c ∷ s) = elim (Bool-cases (nat_beq c b'/')) [
  | inl h ↦ rw h (ground arith)
  | inr h ↦ rw h (length-cons_first c (split b'/' s))
]

split_slash : (a b : Text) → SlashFree b → split b'/' (a ++ b'/' ∷ b) ≡ split b'/' a ++ b ∷ []
unfolding split
split_slash [] b h = rw (split-SlashFree b h) refl
split_slash (c ∷ a) b h = elim (Bool-cases (nat_beq c b'/')) [
  | inl e ↦ rw (e, split_slash a b h) refl
  | inr e ↦ rw (e, split_slash a b h) (cons_first-append c (split b'/' a) (b ∷ []) (length-split a))
]

plain : (s : Text) → SlashFree s → is_absolute s ≡ false
unfolding is_absolute starts_with
plain [] h = refl
plain (c ∷ s) h = ground (arith, h.0)

unfinished : (p : Text) (c : ℕ) (s : Text) → ends_with_slash (p ++ c ∷ s) ≡ ends_with_slash (c ∷ s)
unfolding ends_with_slash
unfinished [] c s = refl
unfinished (d ∷ []) c s = refl
unfinished (d ∷ e ∷ p) c s = unfinished (e ∷ p) c s

finished : (c : ℕ) (s : Text) → SlashFree (c ∷ s) → ends_with_slash (c ∷ s) ≡ false
unfolding ends_with_slash
finished c [] h = h.0
finished c (d ∷ s) h = finished d s h.1

-- A text that can have another pushed onto it: it is absolute and its last component is not empty.
IsOpen : Text → Type 0
IsOpen p = (is_absolute p ≡ true) × (ends_with_slash p ≡ false)

push_joined : (p s : Text) → IsOpen p → SlashFree s → push p s ≡ p ++ b'/' ∷ s
unfolding push IsOpen
push_joined p s o f = rw (plain s f, o.1) refl

joined_absolute : (p s : Text) → is_absolute p ≡ true → is_absolute (p ++ s) ≡ true
unfolding is_absolute starts_with
joined_absolute [] s h = cc
joined_absolute (c ∷ p) s h = h

push-IsOpen : (p s : Text) → IsOpen p → SlashFree s → s ≢ [] → IsOpen (push p s)
unfolding IsOpen ends_with_slash
push-IsOpen p [] o f n = absurd (n refl)
push-IsOpen p (c ∷ s) o f n =
    subst IsOpen (sym (push_joined p (c ∷ s) o f))
      (joined_absolute p _ o.0, unfinished p b'/' (c ∷ s) ∙ finished c s f)

split-push : (p s : Text) → IsOpen p → SlashFree s → split b'/' (push p s) ≡ split b'/' p ++ s ∷ []
split-push p s o f = rw (push_joined p s o f) (split_slash p s f)

sanitized_is_some : (s : Text) → s ≢ [] → sanitize_cgroup_component s ≢ []
unfolding sanitize_cgroup_component
sanitized_is_some [] n = absurd (n refl)
sanitized_is_some (c ∷ s) n = ground arith

root-IsOpen : IsOpen (codes "/sys/fs/cgroup/rind")
unfolding IsOpen is_absolute starts_with ends_with_slash
root-IsOpen = (refl, refl)

abbrev pub below_root : List Text → List Text
below_root parts = [] ∷ codes "sys" ∷ codes "fs" ∷ codes "cgroup" ∷ codes "rind" ∷ parts

-- For a name, a branch and a user that are not empty, the components of the default control group
-- path are those of /sys/fs/cgroup/rind and the three of them sanitized.
pub split-default_path :
    (name branch user : Text)
    → name ≢ []
    → branch ≢ []
    → user ≢ []
    → split b'/' (default_path name (some branch) (some user))
      ≡ below_root (
          sanitize_cgroup_component name
          ∷ sanitize_cgroup_component branch
          ∷ sanitize_cgroup_component user
          ∷ [])
unfolding default_path push_some split
split-default_path name branch user n b u =
    let clean = sanitize_cgroup_component-SlashFree in
    let first = push-IsOpen _ _ root-IsOpen (clean name) (sanitized_is_some name n) in
    let second = push-IsOpen _ _ first (clean branch) (sanitized_is_some branch b) in
    rw
      (
        split-push _ (sanitize_cgroup_component user) second (clean user),
        split-push _ (sanitize_cgroup_component branch) first (clean branch),
        split-push _ (sanitize_cgroup_component name) root-IsOpen (clean name),
      )
      refl
