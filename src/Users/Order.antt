-- ===== src/Users/Order.antt =====
-- The order of the text keys, and that sorting by distinct keys forgets the order of the table.

use mathlib.Core.List.{Permᴰ}
use nettverk.Prelude.{
  Dict, UniqueKeys, find, map, subst, bytes_eq_iff, ◌≡◌, refl, sym, ap, ◌∙◌, true, false, not, List,
  [], ◌∷◌, Bytes, arith, bytes_lt, insert_by, sort_by, Bool-cases, inl, inr,
}
use nettverk.Net.{Os}
use nettverk.Users.{PeerInfo, UserDirectory, find_address, list_entry, entry_name, snapshot_peers}

-- Of two texts neither of which is below the other, each is the other.
bytes_lt_total : (x y : Bytes) → bytes_lt x y ≡ false → bytes_lt y x ≡ false → x ≡ y
unfolding bytes_lt
bytes_lt_total [] [] h k = refl
bytes_lt_total [] (c ∷ y) h k = absurd (cc)
bytes_lt_total (c ∷ x) [] h k = absurd (cc)
bytes_lt_total (c ∷ x) (d ∷ y) h k = ground (arith, bytes_lt_total x y)

bytes_lt_asym : (x y : Bytes) → bytes_lt x y ≡ true → bytes_lt y x ≡ false
unfolding bytes_lt
bytes_lt_asym [] [] h = refl
bytes_lt_asym [] (c ∷ y) h = refl
bytes_lt_asym (c ∷ x) [] h = absurd (cc)
bytes_lt_asym (c ∷ x) (d ∷ y) h = ground (arith, bytes_lt_asym x y)

bytes_lt_trans : (x y z : Bytes) → bytes_lt x y ≡ true → bytes_lt y z ≡ true → bytes_lt x z ≡ true
unfolding bytes_lt
bytes_lt_trans x y [] h k = absurd (cc)
bytes_lt_trans [] y (e ∷ z) h k = refl
bytes_lt_trans (c ∷ x) [] (e ∷ z) h k = absurd (cc)
bytes_lt_trans (c ∷ x) (d ∷ y) (e ∷ z) h k = ground (arith, bytes_lt_trans x y z)

bytes_lt_flip : (x y : Bytes) → (x ≡ y → ⊥) → bytes_lt x y ≡ not (bytes_lt y x)
bytes_lt_flip x y d = elim (Bool-cases (bytes_lt x y)) [
  | inl h ↦ rw (h, bytes_lt_asym x y h)
  | inr h ↦ elim (Bool-cases (bytes_lt y x)) [
    | inl k ↦ rw (h, k)
    | inr k ↦ absurd (d (bytes_lt_total x y h k))
  ]
]

module _ {ℓ} {A : Type ℓ} (key : A → Bytes) where
  -- Two elements with different keys may be put in either way round.
  insert_comm :
      (a b : A) (l : List A)
      → (key a ≡ key b → ⊥)
      → insert_by key a (insert_by key b l) ≡ insert_by key b (insert_by key a l)
  unfolding insert_by
  insert_comm a b [] d = let f = bytes_lt_flip (key a) (key b) d in ground (arith, f)
  insert_comm a b (c ∷ l) d =
      let f = bytes_lt_flip (key a) (key b) d in
      let t = bytes_lt_trans (key c) (key a) (key b) in
      let u = bytes_lt_trans (key c) (key b) (key a) in
      let r = insert_comm a b l d in ground (arith, f, t, u, r)

module _ {V A : Type 0} (key : A → Bytes) (f : Bytes × V → A)
    (named : (e : Bytes × V) → key (f e) ≡ e.0) where
  -- Two orders of one table: the same entries are found, and sorted they are the same list.
  abbrev Agrees : Dict V → Dict V → Type 0
  Agrees m n =
      ((k : Bytes) → find k m ≡ find k n)
      × UniqueKeys n
      × (sort_by key (map f m) ≡ sort_by key (map f n))

  swap-Agrees :
      (a b : Bytes × V) (l : Dict V) → UniqueKeys (a ∷ b ∷ l) → Agrees (a ∷ b ∷ l) (b ∷ a ∷ l)
  unfolding find sort_by
  swap-Agrees (i, v) (j, w) l (free, (free', u)) =
      let ne : i ≡ j → ⊥ = λ e. absurd (ground (arith, free, bytes_eq_iff j i, sym e)) in
      (
        λ k. ground (arith, free, bytes_eq_iff i k, bytes_eq_iff j k, bytes_eq_iff j i),
        (ground (arith, free', bytes_eq_iff i j, ne), (ground (arith, free), u)),
        insert_comm key (f (i, v)) (f (j, w)) _ (λ e. ne (sym (named (i, v)) ∙ e ∙ named (j, w))),
      )

  cons-Agrees :
      (a : Bytes × V) (m n : Dict V) → UniqueKeys (a ∷ m) → Agrees m n → Agrees (a ∷ m) (a ∷ n)
  unfolding find sort_by
  cons-Agrees (i, v) m n (free, u) (same, u', sorted) =
      (λ k. rw (same k) refl, (sym (same i) ∙ free, u'), ap (insert_by key (f (i, v))) sorted)

  pub Perm-Agrees : (m n : Dict V) → Permᴰ m n → UniqueKeys m → Agrees m n
  Perm-Agrees _ _ Permᴰ.nil u = (λ k. refl, u, refl)
  Perm-Agrees (a ∷ m) (b ∷ n) (Permᴰ.cons e d) u =
      subst (λ x. Agrees (a ∷ m) (x ∷ n)) e (cons-Agrees a m n u (Perm-Agrees m n d u.1))
  Perm-Agrees (a ∷ b ∷ l) _ (Permᴰ.swap {a' = a'} {b' = b'} e e') u =
      subst (λ x. Agrees (a ∷ b ∷ l) (a' ∷ x ∷ l)) e
        (subst (λ x. Agrees (a ∷ b ∷ l) (x ∷ a ∷ l)) e' (swap-Agrees a b l u))
  Perm-Agrees m n (Permᴰ.trans {l₂ = mid} d d') u =
      let (same, u', sorted) = Perm-Agrees m mid d u in
      let (same', u'', sorted') = Perm-Agrees mid n d' u' in
      (λ k. same k ∙ same' k, u'', sorted ∙ sorted')

-- A directory whose table holds the same entries in another order, where no name stands twice, gives
-- the same snapshot, entry for entry, and the same address for every name: the order in which the
-- table is walked is not seen.
pub snapshot_peers-order :
    (os : Os) (d : UserDirectory) (m : Dict PeerInfo)
    → UniqueKeys d.peers
    → Permᴰ d.peers m
    → (snapshot_peers os (record d { peers = m }) ≡ snapshot_peers os d)
      × ((name : Bytes) → find_address (record d { peers = m }) name ≡ find_address d name)
unfolding snapshot_peers find_address list_entry
snapshot_peers-order os d m u p =
    let (same, _, sorted) = Perm-Agrees entry_name (list_entry os) (λ e. refl) d.peers m p u in
    (sym sorted, λ name. rw (same name) refl)
