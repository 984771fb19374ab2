-- ===== src/Services/Triggering/Index.antt =====
-- The trigger index has a service under exactly the names of its conditions.
use rind.Prelude.{
  ℕ, zero, suc, ◌+◌, ◌≡◌, ap, ◌∙◌, Bool, true, false, Option, none, some, List, [], ◌∷◌, ◌++◌, any,
  take, length, length-append, ◌==◌, ◌&&◌, ◌||◌, arith, refl, inl, inr, Option-cases,
}
use rind.Map
use rind.Map.{Map}
use rind.Set
use rind.Matching.{FlowItem, simple, detailed}
use rind.Text.{Text, codes, text_eq}
use rind.Text.Split.{starts_with, ends_with}
use rind.Flow.Index.{indexed, indexed-add_names, add_names}
use rind.Services.Triggering.Targets.{
  add_all, waiting_keys, target_keys, static_alias, trim_ends, trim_end_matches,
}
use rind.Services.Triggering.{
  Declared, item_name, item_names, interests, or_nil, service_key, add_services,
  rebuild_trigger_index,
}
use mathlib.Core.List.{reverse, reverse-append}
use mathlib.Core.Option

any-append :
    {A : Type 0} (p : A → Bool) (xs ys : List A) → any p (xs ++ ys) ≡ (any p xs || any p ys)
any-append p [] ys = refl
any-append p (x ∷ xs) ys = ground (arith, any-append p xs ys)

module _ (name key : Text) where
  -- an item of start-on or stop-on with the name, which a facet has before an impulse
  abbrev pub carries : FlowItem → Bool
  carries (simple n) = n == name
  carries (detailed (some facet) impulse target branch) = facet == name
  carries (detailed none (some impulse) target branch) = impulse == name
  carries (detailed none none target branch) = false

  abbrev pub is_waiting : Declared → Bool
  is_waiting d = any carries (or_nil d.start_on) || any carries (or_nil d.stop_on)

  -- whether a declared service of the key waits for the name
  abbrev pub waits : List Declared → Bool
  waits ds = any (λ d. service_key d == key && is_waiting d) ds

  item_name-carries :
      (item : FlowItem) (n : Text) → item_name item ≡ some n → carries item ≡ (n == name)
  unfolding item_name
  item_name-carries (simple m) n h = ap (λ t. t == name) (Option.some-injective m n h)
  item_name-carries (detailed (some m) impulse target branch) n h =
      ap (λ t. t == name) (Option.some-injective m n h)
  item_name-carries (detailed none (some m) target branch) n h =
      ap (λ t. t == name) (Option.some-injective m n h)
  item_name-carries (detailed none none target branch) n h = cc

  item_names-carries :
      (items : List FlowItem) (names : List Text)
      → item_names items ≡ some names
      → any (λ n. n == name) names ≡ any carries items
  unfolding item_names Option.bind
  item_names-carries [] names h = rw⁻¹ (Option.some-injective [] names h) refl
  item_names-carries (item ∷ items) names h = elim (Option-cases (item_name item)) [
    | inl e ↦ let k = rw (e, item_names) at h in cc
    | inr (n, e) ↦ elim (Option-cases (item_names items)) [
      | inl f ↦ let k = rw (e, f, item_names) at h in cc
      | inr (ns, f) ↦
          let k : some (n ∷ ns) ≡ some names = rw (e, f, item_names) at h in
          rw⁻¹ (Option.some-injective (n ∷ ns) names k)
            (ground (arith, item_name-carries item n e, item_names-carries items ns f))
    ]
  ]

  interests-is_waiting :
      (d : Declared) (names : List Text)
      → interests d ≡ some names
      → any (λ n. n == name) names ≡ is_waiting d
  unfolding interests
  interests-is_waiting d names h =
      item_names-carries (or_nil d.start_on ++ or_nil d.stop_on) names h
      ∙ any-append carries (or_nil d.start_on) (or_nil d.stop_on)

  added :
      (d : Declared) (ds : List Declared) (index result : Map Text (List Text))
      (o : Option (List Text))
      → interests d ≡ o
      → ((names : List Text)
          → add_services ds (add_names (service_key d) names index) ≡ some result
          → indexed name key result
            ≡ (indexed name key (add_names (service_key d) names index) || waits ds))
      → Option.bind o (λ names. add_services ds (add_names (service_key d) names index))
        ≡ some result
      → indexed name key result ≡ (indexed name key index || waits (d ∷ ds))
  unfolding Option.bind
  added d ds index result none e ih h = cc
  added d ds index result (some names) e ih h =
      rw (ih names h, indexed-add_names name key (service_key d) names index)
        (ground (arith, interests-is_waiting d names e))

  indexed-add_services :
      (ds : List Declared) (index result : Map Text (List Text))
      → add_services ds index ≡ some result
      → indexed name key result ≡ (indexed name key index || waits ds)
  unfolding add_services
  indexed-add_services [] index result h = ground arith
  indexed-add_services (d ∷ ds) index result h =
      added d ds index result (interests d) refl
        (λ names. indexed-add_services ds (add_names (service_key d) names index) result) h

  -- Where the rebuilding of the trigger index meets no condition without a name, a key stands in
  -- the index under a name exactly where a declared service of that key has the name in start-on
  -- or stop-on.
  pub rebuild_trigger_index-waits :
      (ds : List Declared) (index : Map Text (List Text))
      → rebuild_trigger_index ds ≡ some index
      → indexed name key index ≡ waits ds
  unfolding rebuild_trigger_index Set.contains Map.get_or Map.get
  rebuild_trigger_index-waits ds index h = indexed-add_services ds [] index h

contains-add_all :
    (key : Text) (xs out : List Text)
    → Set.contains key (add_all xs out) ≡ (Set.contains key xs || Set.contains key out)
unfolding add_all Set.contains
contains-add_all key [] out = refl
contains-add_all key (x ∷ xs) out =
    ground (arith, contains-add_all key xs (Set.insert x out), Set.contains-insert x key out)

starts_with-append : (p s : Text) → starts_with p (p ++ s) ≡ true
unfolding starts_with
starts_with-append [] s = refl
starts_with-append (c ∷ p) s = ground (arith, starts_with-append p s)

ends_with-append : (s p : Text) → ends_with p (s ++ p) ≡ true
unfolding ends_with
ends_with-append s p = rw (reverse-append s p) (starts_with-append (reverse p) (reverse s))

take-append : (xs ys : Text) (n : ℕ) → n ≡ length xs → take n (xs ++ ys) ≡ xs
take-append [] ys zero h = refl
take-append [] ys (suc n) h = absurd (omega arith)
take-append (x ∷ xs) ys zero h = absurd (omega arith)
take-append (x ∷ xs) ys (suc n) h = ap (λ t. x ∷ t) (take-append xs ys n (omega arith))

module _ (suffix base : Text) (plain : ends_with suffix base ≡ false) where
  -- a text that lacks the suffix is left as it is
  trim_ends_kept : (n : ℕ) → trim_ends n suffix base ≡ base
  unfolding trim_ends
  trim_ends_kept zero = refl
  trim_ends_kept (suc n) = rw (plain, trim_ends) refl

  trim_ends-append : (n : ℕ) → trim_ends (suc n) suffix (base ++ suffix) ≡ base
  unfolding trim_ends
  trim_ends-append n =
      rw (ends_with-append base suffix, trim_ends)
        (ap (trim_ends n suffix)
            (take-append base suffix _ (omega (arith, length-append base suffix)))
          ∙ trim_ends_kept n)

abbrev static : Text
static = codes "@static"

-- A name without the suffix gets it, and one that ends in it once loses it.
static_alias_put_on :
    (base : Text) → ends_with static base ≡ false → static_alias base ≡ base ++ static
unfolding static_alias
static_alias_put_on base plain = rw (plain, static_alias) refl

static_alias_taken_off :
    (base : Text) → ends_with static base ≡ false → static_alias (base ++ static) ≡ base
unfolding static_alias trim_end_matches
static_alias_taken_off base plain =
    let long : length (base ++ static) ≡ suc (length base + 6) =
      omega (arith, length-append base static) in
    rw (ends_with-append base static, long, static_alias, trim_end_matches)
      (trim_ends-append static base plain (length base + 6))

target_keys-alias :
    (ds : List Declared) (index : Map Text (List Text)) (name key scope : Text)
    (items : Option (List (Text × Text)))
    → rebuild_trigger_index ds ≡ some index
    → Set.contains key (target_keys index (some name) scope items)
      ≡ (waits name key ds || waits (static_alias name) key ds)
unfolding target_keys waiting_keys
target_keys-alias ds index name key scope items h = ground (
  arith,
  rebuild_trigger_index-waits name key ds index h,
  rebuild_trigger_index-waits (static_alias name) key ds index h,
  contains-add_all key (Map.get_or (static_alias name) [] index)
      (add_all (Map.get_or name [] index) []),
  contains-add_all key (Map.get_or name [] index) [],
  Set.contains-nil key,
)

-- Where the rebuilding of the trigger index meets no condition without a name, and for a name that
-- does not end in @static: the event of this name and the event of this name with @static behind
-- it have the same targets, exactly the keys of which a declared service has the one or the other
-- name in start-on or stop-on.
pub target_keys-waits :
    (ds : List Declared) (index : Map Text (List Text)) (base key scope : Text)
    (items : Option (List (Text × Text)))
    → rebuild_trigger_index ds ≡ some index
    → ends_with (codes "@static") base ≡ false
    → let awaited = waits base key ds || waits (base ++ codes "@static") key ds in
      (Set.contains key (target_keys index (some base) scope items) ≡ awaited)
      × (Set.contains key (target_keys index (some (base ++ codes "@static")) scope items)
          ≡ awaited)
target_keys-waits ds index base key scope items h plain =
    let both_ways : (waits (base ++ static) key ds || waits base key ds)
        ≡ (waits base key ds || waits (base ++ static) key ds) =
      ground arith in
    (
      target_keys-alias ds index base key scope items h
          ∙ ap (λ alias. waits base key ds || waits alias key ds) (static_alias_put_on base plain),
      target_keys-alias ds index (base ++ static) key scope items h
          ∙ ap (λ alias. waits (base ++ static) key ds || waits alias key ds)
              (static_alias_taken_off base plain)
          ∙ both_ways,
    )
