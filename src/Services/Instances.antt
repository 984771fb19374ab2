-- ===== src/Services/Instances.antt =====
-- The instances of a service, `ChildInstanceGroup` of crates/services/src/services.rs. A pid is the
-- `u32` that the code casts it to.
use rind.Prelude.{
  ℕ, zero, suc, ◌≡◌, arith, Bool, true, false, Option, none, some, List, [], ◌∷◌, if◌then◌else◌,
  any, nat_beq, length, get_elem?, refl,
}
use rind.Text.{Text}
use rind.Services.{
  ChildInstance, InstanceHandle, ServiceState, active, starting, stopping, RunOption, RunOptions,
  one, many,
}
use mathlib.Core.Option

unfoldable pub is_active_state : ServiceState → Bool
is_active_state active = true
is_active_state _ = false

-- `Active` or `Starting`
unfoldable pub is_running : ServiceState → Bool
is_running active = true
is_running starting = true
is_running _ = false

-- `Active` or `Stopping`
unfoldable pub has_process : ServiceState → Bool
has_process active = true
has_process stopping = true
has_process _ = false

-- `Active`, `Starting` or `Stopping`
unfoldable pub is_live : ServiceState → Bool
is_live active = true
is_live starting = true
is_live stopping = true
is_live _ = false

-- `ChildInstance::new`
unfoldable pub new_instance : Text → Option Text → Option InstanceHandle → ChildInstance
new_instance key user handle = record {
  key = key;
  user = user;
  handle = handle;
  state = active;
  retry_count = 0;
  stop_time = none;
  manually_stopped = false;
}

unfoldable pub pid : ChildInstance → Option ℕ
pid inst = Option.bind inst.handle (λ h. h.pid)

unfoldable pub has_pid : ℕ → Option ℕ → Bool
has_pid p none = false
has_pid p (some q) = nat_beq q p

unfoldable pub find_by_pid : ℕ → List ChildInstance → Option ℕ
unfolding has_pid pid
find_by_pid p [] = none
find_by_pid p (inst ∷ insts) =
    let rest = Option.map suc (find_by_pid p insts) in if has_pid p (pid inst) then some 0 else rest

unfoldable pub is_active : List ChildInstance → Bool
unfolding is_active_state
is_active insts = any (λ inst. is_active_state inst.state) insts

abbrev pub cons_some {ℓ} : {A : Type ℓ} → Option A → List A → List A
cons_some none xs = xs
cons_some (some x) xs = x ∷ xs

-- `pid` of the group
unfoldable pub pids : List ChildInstance → List ℕ
unfolding pid
pids [] = []
pids (inst ∷ insts) = cons_some (pid inst) (pids insts)

-- `RunOptions::as_many`
unfoldable pub as_many : RunOptions → List RunOption
as_many (one option) = option ∷ []
as_many (many options) = options

-- `instances.get_mut`, and what is done with the element
unfoldable pub update_at {ℓ} : {A : Type ℓ} → ℕ → (A → A) → List A → List A
update_at i f [] = []
update_at zero f (x ∷ xs) = f x ∷ xs
update_at (suc i) f (x ∷ xs) = x ∷ update_at i f xs

pub length-update_at {ℓ} :
    {A : Type ℓ} (i : ℕ) (f : A → A) (xs : List A) → length (update_at i f xs) ≡ length xs
unfolding update_at
length-update_at i f [] = refl
length-update_at zero f (x ∷ xs) = refl
length-update_at (suc i) f (x ∷ xs) = ground (arith, length-update_at i f xs)

pub get_elem?-update_at {ℓ} :
    {A : Type ℓ} (i : ℕ) (f : A → A) (xs : List A)
    → get_elem? (update_at i f xs) i ≡ Option.map f (get_elem? xs i)
unfolding update_at
get_elem?-update_at i f [] = refl
get_elem?-update_at zero f (x ∷ xs) = refl
get_elem?-update_at (suc i) f (x ∷ xs) = get_elem?-update_at i f xs

-- what the index of a process says of the first instance
pub at_first :
    (b : Bool) (r : Option ℕ) → (if b then some 0 else Option.map suc r) ≡ some 0 → b ≡ true
at_first true r h = refl
at_first false none h = cc
at_first false (some j) h = absurd (ground arith)

pub at_later :
    (b : Bool) (r : Option ℕ) (i : ℕ)
    → (if b then some 0 else Option.map suc r) ≡ some (suc i)
    → r ≡ some i
at_later true r i h = absurd (ground arith)
at_later false none i h = cc
at_later false (some j) i h = ground arith
