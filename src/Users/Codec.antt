-- ===== src/Users/Codec.antt =====
-- The permission file of crates/core/src/user.rs read back: what `write_perms_with_overlay` writes,
-- `load` reads.
use rind.Prelude.{
  ℕ, zero, suc, ◌≤◌, ◌≡◌, refl, ap, ◌∙◌, List, [], ◌∷◌, map, ◌++◌, nat_beq, length, nat_eq, All,
  arith, append_assoc, append-nil, length-append,
}
use rind.Bytes.{IsU16, IsU32, u16_to_le, u32_to_le, u16_from_le-u16_to_le, u32_from_le-u32_to_le}
use rind.Text.{Text}
use rind.Error.{ok, >>=-eq-ok}
use rind.Users.{UserRecord, GroupEntry, UserStore}
use rind.Users.Load.{PermMaps, no_perms, read_ids, read_record, add_record, read_perms, parse_perms}
use rind.Users.Perms.{
  Overlay, ids_to_le, write_record, user_effective, group_effective, write_users, write_groups,
  write_perms_with_overlay,
}

read_ids-ids_to_le :
    (ps rest : List ℕ) → All IsU16 ps → read_ids (length ps) (ids_to_le ps ++ rest) ≡ ok (ps, rest)
unfolding read_ids ids_to_le
read_ids-ids_to_le [] rest h = refl
read_ids-ids_to_le (p ∷ ps) rest h =
    rw (read_ids-ids_to_le ps rest h.1, u16_from_le-u16_to_le p h.0)

abbrev record_bytes : ℕ → ℕ → List ℕ → List ℕ
record_bytes kind id ps = kind ∷ u32_to_le id ++ u16_to_le (length ps) ++ ids_to_le ps

read_record-record_bytes :
    (kind id : ℕ) (ps rest : List ℕ)
    → IsU32 id
    → IsU16 (length ps)
    → All IsU16 ps
    → read_record (record_bytes kind id ps ++ rest) ≡ ok (nat_beq kind 0, id, ps, rest)
unfolding read_record
read_record-record_bytes kind id ps rest h n a =
    rw (
      u16_from_le-u16_to_le (length ps) n,
      u32_from_le-u32_to_le id h,
      read_ids-ids_to_le ps rest a,
    )

abbrev pub Item : Type 0
Item = ℕ × List ℕ

abbrev Fits : Item → Type 0
Fits i = IsU32 i.0 × IsU16 (length i.1) × All IsU16 i.1

module _ (kind : ℕ) where
  items_bytes : List Item → List ℕ
  items_bytes [] = []
  items_bytes ((id, []) ∷ is) = items_bytes is
  items_bytes ((id, p ∷ ps) ∷ is) = record_bytes kind id (p ∷ ps) ++ items_bytes is

  unfoldable pub add_items : List Item → PermMaps → PermMaps
  add_items [] m = m
  add_items ((id, []) ∷ is) m = add_items is m
  add_items ((id, p ∷ ps) ∷ is) m = add_items is (add_record (nat_beq kind 0) id (p ∷ ps) m)

  -- The reader goes through the records of the items, and has fuel for what follows them.
  read_perms-items :
      (is : List Item) (rest : List ℕ) (fuel : ℕ) (m : PermMaps)
      → All Fits is
      → length (items_bytes is ++ rest) ≤ fuel
      → (fuel' : ℕ) × (length rest ≤ fuel')
        × (read_perms fuel (items_bytes is ++ rest) m ≡ read_perms fuel' rest (add_items is m))
  unfolding items_bytes add_items read_perms
  read_perms-items [] rest fuel m h n = (fuel, n, refl)
  read_perms-items ((id, []) ∷ is) rest fuel m h n = read_perms-items is rest fuel m h.1 n
  read_perms-items ((id, p ∷ ps) ∷ is) rest zero m h n = absurd (omega arith)
  read_perms-items ((id, p ∷ ps) ∷ is) rest (suc fuel) m h n =
      let tail_bytes = items_bytes is ++ rest in
      let (fuel', n', e) =
        read_perms-items is rest fuel (add_record (nat_beq kind 0) id (p ∷ ps) m) h.1 (
          omega (
            arith,
            ap length (append_assoc (ids_to_le (p ∷ ps)) (items_bytes is) rest),
            length-append (ids_to_le (p ∷ ps)) tail_bytes,
          )) in
      (
        fuel',
        n',
        rw
            (
              append_assoc (ids_to_le (p ∷ ps)) (items_bytes is) rest,
              read_record-record_bytes kind id (p ∷ ps) tail_bytes h.0.0 h.0.1 h.0.2,
            )
            e,
      )

abbrev pub user_item : Overlay → UserRecord → Item
user_item o u = (u.uid, user_effective o u)

abbrev pub group_item : Overlay → GroupEntry → Item
group_item o g = (g.gid, group_effective o g)

-- What the writer makes of a set is the item's bytes, and the set is small enough to count.
write_record-ok :
    (kind id : ℕ) (name : Text) (ps : List ℕ) (is : List Item) {first : List ℕ}
    → write_record kind id name ps ≡ ok first
    → IsU16 (length ps) × (first ++ items_bytes kind is ≡ items_bytes kind ((id, ps) ∷ is))
unfolding write_record items_bytes
write_record-ok kind id name [] is e = ground arith
write_record-ok kind id name (p ∷ ps) is e = ground arith

items_bytes-nil : (kind : ℕ) → items_bytes kind [] ≡ []
unfolding items_bytes
items_bytes-nil kind = refl

abbrev Small : List Item → Type 0
Small = All (λ (i : Item). IsU16 (length i.1))

write_users-bytes :
    (o : Overlay) (us : List UserRecord) (bytes : List ℕ)
    → write_users o us ≡ ok bytes
    → (bytes ≡ items_bytes 0 (map (user_item o) us)) × Small (map (user_item o) us)
unfolding write_users
write_users-bytes o [] bytes e = (cc (e, items_bytes-nil 0), tt)
write_users-bytes o (u ∷ us) bytes e =
    let (first, e1, k) = >>=-eq-ok (write_record 0 u.uid u.username (user_effective o u)) _ e in
    let (rest, e2, k') = >>=-eq-ok (write_users o us) _ k in
    let (b, small) = write_users-bytes o us rest e2 in
    let (n, c) =
      write_record-ok 0 u.uid u.username (user_effective o u) (map (user_item o) us) e1 in
    (cc (k', b, c), (n, small))

write_groups-bytes :
    (o : Overlay) (gs : List GroupEntry) (bytes : List ℕ)
    → write_groups o gs ≡ ok bytes
    → (bytes ≡ items_bytes 1 (map (group_item o) gs)) × Small (map (group_item o) gs)
unfolding write_groups
write_groups-bytes o [] bytes e = (cc (e, items_bytes-nil 1), tt)
write_groups-bytes o (g ∷ gs) bytes e =
    let (first, e1, k) = >>=-eq-ok (write_record 1 g.gid g.name (group_effective o g)) _ e in
    let (rest, e2, k') = >>=-eq-ok (write_groups o gs) _ k in
    let (b, small) = write_groups-bytes o gs rest e2 in
    let (n, c) = write_record-ok 1 g.gid g.name (group_effective o g) (map (group_item o) gs) e1 in
    (cc (k', b, c), (n, small))

-- The maps that `load` takes the permissions of a written file from.
unfoldable pub reload : Overlay → UserStore → PermMaps
reload o s =
    add_items 1 (map (group_item o) s.groups) (add_items 0 (map (user_item o) s.users) no_perms)

-- numbers in the range of their type
pub record InRange (o : Overlay) (s : UserStore) : Type 0 where
  pub uids : All (λ (u : UserRecord). IsU32 u.uid × All IsU16 (user_effective o u)) s.users
  pub gids : All (λ (g : GroupEntry). IsU32 g.gid × All IsU16 (group_effective o g)) s.groups

zip_Fits :
    {A : Type 0} (item : A → Item) (xs : List A)
    → All (λ x. IsU32 (item x).0 × All IsU16 (item x).1) xs
    → Small (map item xs)
    → All Fits (map item xs)
zip_Fits item [] h n = tt
zip_Fits item (x ∷ xs) h n = ((h.0.0, n.0, h.0.1), zip_Fits item xs h.1 n.1)

read_perms-nil : (fuel : ℕ) (m : PermMaps) → read_perms fuel [] m ≡ ok m
unfolding read_perms
read_perms-nil zero m = refl
read_perms-nil (suc fuel) m = refl

parse_perms-items :
    (us gs : List Item)
    → All Fits us
    → All Fits gs
    → parse_perms (items_bytes 0 us ++ (items_bytes 1 gs ++ []))
      ≡ ok (add_items 1 gs (add_items 0 us no_perms))
unfolding parse_perms
parse_perms-items us gs h k =
    let groups = items_bytes 1 gs ++ [] in
    let (f, n, e) = read_perms-items 0 us groups _ no_perms h (omega arith) in
    let (f', _, e') = read_perms-items 1 gs [] f (add_items 0 us no_perms) k n in
    e ∙ e' ∙ read_perms-nil f' _

-- A permission file that was written is read back without an error, as the sets that were written.
pub parse_perms-write_perms :
    (s : UserStore) (o : Overlay) {bytes : List ℕ}
    → InRange o s
    → write_perms_with_overlay s o ≡ ok bytes
    → parse_perms bytes ≡ ok (reload o s)
unfolding write_perms_with_overlay reload
parse_perms-write_perms s o {bytes} r e =
    let (b0, e0, k) = >>=-eq-ok (write_users o s.users) _ e in
    let (b1, e1, k') = >>=-eq-ok (write_groups o s.groups) _ k in
    let (u, us) = write_users-bytes o s.users b0 e0 in
    let (g, gs) = write_groups-bytes o s.groups b1 e1 in
    let whole : bytes
        ≡ items_bytes 0 (map (user_item o) s.users)
          ++ (items_bytes 1 (map (group_item o) s.groups) ++ []) =
      cc (k', u, g, append-nil (items_bytes 1 (map (group_item o) s.groups))) in
    rw whole (
      parse_perms-items (map (user_item o) s.users) (map (group_item o) s.groups)
        (zip_Fits (user_item o) s.users r.uids us) (zip_Fits (group_item o) s.groups r.gids gs))
