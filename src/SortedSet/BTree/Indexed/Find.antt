-- ===== src/SortedSet/BTree/Indexed/Find.antt =====
-- The loops of `Add` and `RemoveByScore` (btree_index.go) that look for a leaf and for a place in it.
use redi_go.Prelude.{
  Bytes, ℕ, zero, suc, ◌≤◌, ◌<◌, List, [], ◌∷◌, ◌++◌, ◌≡◌, refl, ap, Bool, true, Bool-cases, inl,
  inr, Option, none, some, arith, beq, beq_iff, length, get_elem?, get_elem?_total, In,
  In-get_elem?,
}
use redi_go.Go.Result.{ok}
use redi_go.Go.Float.{Floats}
use redi_go.SortedSet.Item.{Item, compare_to}
use redi_go.SortedSet.BTree.{BTreeIndex}
use redi_go.SortedSet.BTree.Add.{descend_index, find_leaf, find_member, is_positive, insert_sorted}
use redi_go.SortedSet.BTree.Indexed.{Indexed}
use redi_go.SortedSet.BTree.Leaves.{node, node_at-node}

module _ (F : Floats) where
  -- The pointers of a list point into the store.
  abbrev pub Within : List (Item F) → List ℕ → Type 0
  Within store is = (i : ℕ) → In i is → i < length store

  pub descend_index_lem :
      (store : List (Item F)) (score : F.Float) (is : List ℕ)
      → Within store is
      → (n : ℕ) × (descend_index F store score is ≡ ok n) × (n ≤ length is)
  unfolding descend_index
  descend_index_lem store score [] inside = (0, refl, omega arith)
  descend_index_lem store score (i ∷ is) inside =
      let (item, at) = get_elem?_total store i (inside i (inl refl)) in
      let (n, e, le) = descend_index_lem store score is (λ j m. inside j (inr m)) in
      elim (Bool-cases (F.le item.score score)) [
        | inl b ↦ (suc n, rw (at, b, e) refl, omega arith)
        | inr b ↦ (0, rw (at, b) refl, omega arith)
      ]

  pub find_leaf_lem :
      (fuel : ℕ) (t : BTreeIndex F) (score : F.Float) (p : ℕ) (live : ℕ → Bool) (height : ℕ → ℕ)
      (k l : ℕ) (ls : List ℕ)
      → Indexed t.tree live height k l ls (length t.store)
      → live p ≡ true
      → height p < fuel
      → (q : ℕ) × (find_leaf F fuel t score p ≡ ok q)
        × (live q ≡ true)
        × ((node t.tree.nodes q).is_leaf ≡ true)
  unfolding find_leaf
  find_leaf_lem zero t score p live height k l ls index lp lt = elim lt [ ]
  find_leaf_lem (suc fuel) t score p live height k l ls index lp lt =
      let inside = index.shape.inside p lp in
      elim (Bool-cases (node t.tree.nodes p).is_leaf) [
        | inl leaf ↦ (p, rw (node_at-node t.tree.nodes p inside, leaf) refl, lp, leaf)
        | inr inner ↦
            let (n, e, le) =
              descend_index_lem t.store score (node t.tree.nodes p).items
                (λ i m. index.pointing p i lp m) in
            let (c, at) =
              get_elem?_total (node t.tree.nodes p).children n
                (omega (arith, index.shape.full p lp inner)) in
            let (lc, up, h) =
              index.shape.down p c lp inner (In-get_elem? (node t.tree.nodes p).children n c at) in
            let (q, f, lq, leaf) =
              find_leaf_lem fuel t score c live height k l ls index lc (omega (arith, h)) in
            (q, rw (node_at-node t.tree.nodes p inside, inner, e, at) f, lq, leaf)
      ]

  -- What `find_member` says of a list.
  abbrev pub Found : List (Item F) → Bytes → List ℕ → Option ℕ → Type 0
  Found store member is none = Unit {0}
  Found store member is (some i) =
      In i is × ((item : Item F) × (get_elem? store i ≡ some item) × (item.member ≡ member))

  Found-later :
      (store : List (Item F)) (member : Bytes) (i : ℕ) (is : List ℕ) (o : Option ℕ)
      → Found store member is o
      → Found store member (i ∷ is) o
  Found-later store member i is none found = tt
  Found-later store member i is (some j) (m, has) = (inr m, has)

  pub find_member_lem :
      (store : List (Item F)) (member : Bytes) (is : List ℕ)
      → Within store is
      → (o : Option ℕ) × (find_member F store member is ≡ ok o) × Found store member is o
  unfolding find_member
  find_member_lem store member [] inside = (none, refl, tt)
  find_member_lem store member (i ∷ is) inside =
      let (item, at) = get_elem?_total store i (inside i (inl refl)) in
      elim (Bool-cases (beq item.member member)) [
        | inl b ↦
            (some i, rw (at, b) refl, (inl refl, (item, at, (beq_iff item.member member).0 b)))
        | inr b ↦
            let (o, e, found) = find_member_lem store member is (λ j m. inside j (inr m)) in
            (o, rw (at, b) e, Found-later store member i is o found)
      ]

  pub insert_sorted_lem :
      (store : List (Item F)) (item : Item F) (fresh : ℕ) (is : List ℕ)
      → Within store is
      → (xs : List ℕ) × (ys : List ℕ) × (insert_sorted F store item fresh is
          ≡ ok (xs ++ fresh ∷ ys))
        × (is ≡ xs ++ ys)
  unfolding insert_sorted
  insert_sorted_lem store item fresh [] inside = ([], [], refl, refl)
  insert_sorted_lem store item fresh (i ∷ is) inside =
      let (other, at) = get_elem?_total store i (inside i (inl refl)) in
      elim (Bool-cases (is_positive (compare_to F item other))) [
        | inl b ↦
            let (xs, ys, e, f) = insert_sorted_lem store item fresh is (λ j m. inside j (inr m)) in
            (i ∷ xs, ys, rw (at, b, e) refl, ap (◌∷◌ i) f)
        | inr b ↦ ([], i ∷ is, rw (at, b) refl, refl)
      ]
