-- ===== src/SortedSet/BTree/Indexed/Delete.antt =====
-- `RemoveByScore` of btree_index.go on an index with its invariant, where no leaf underflows.
use redi_go.Prelude.{
  Bytes, ℕ, suc, ◌<◌, List, [], ◌∷◌, ◌++◌, ◌≡◌, refl, sym, ap, ◌∙◌, Bool, true, false, Bool-cases,
  inl, inr, ◌⊎◌, Option, none, some, arith, beq, beq_iff, ltb, length, length-append, get_elem?,
  get_elem?_total, take, drop, In, In-insert,
}
use mathlib.Core.Path.{transport}
use redi_go.Go.Result.{Result, ok, ◌>>=◌}
use redi_go.Go.Float.{Floats}
use redi_go.SortedSet.Item.{Item}
use redi_go.SortedSet.BTree.{BTreeIndex}
use redi_go.SortedSet.BTree.Add.{write}
use redi_go.SortedSet.BTree.Indexed.{Indexed}
use redi_go.SortedSet.BTree.Indexed.Find.{Within, find_leaf_lem}
use redi_go.SortedSet.BTree.Indexed.Insert.{Inserted, regroup}
use redi_go.SortedSet.BTree.Indexed.Relabel.{relabel-Indexed, relabel-items}
use redi_go.SortedSet.BTree.Leaves.{node, node_at-node, leaf_items}
use redi_go.SortedSet.BTree.Remove.{min_items, later, find_item, remove_item, remove_by_score}

module _ (F : Floats) where
  -- The item number `j` of a list has the member and the score.
  abbrev FoundAt : List (Item F) → F.Float → Bytes → List ℕ → Option ℕ → Type 0
  FoundAt store score member is none = Unit {0}
  FoundAt store score member is (some j) =
      (i : ℕ) × (item : Item F) × (xs : List ℕ) × (ys : List ℕ) × (is ≡ xs ++ i ∷ ys)
      × (length xs ≡ j)
      × (get_elem? store i ≡ some item)
      × (item.member ≡ member)
      × (F.eq item.score score ≡ true)

  FoundAt-next :
      (store : List (Item F)) (score : F.Float) (member : Bytes) (i : ℕ) (is : List ℕ)
      (o : Option ℕ)
      → FoundAt store score member is o
      → FoundAt store score member (i ∷ is) (later o)
  FoundAt-next store score member i is none found = tt
  FoundAt-next store score member i is (some j) (k, item, xs, ys, e, len, at, name, same) =
      (k, item, i ∷ xs, ys, ap (◌∷◌ i) e, ap suc len, at, name, same)

  find_item_lem :
      (store : List (Item F)) (score : F.Float) (member : Bytes) (is : List ℕ)
      → Within F store is
      → (o : Option ℕ) × (find_item F store score member is ≡ ok o)
        × FoundAt store score member is o
  unfolding find_item
  find_item_lem store score member [] inside = (none, refl, tt)
  find_item_lem store score member (i ∷ is) inside =
      let (item, at) = get_elem?_total store i (inside i (inl refl)) in
      let (o, e, found) = find_item_lem store score member is (λ k m. inside k (inr m)) in
      let skipped = FoundAt-next store score member i is o found in
      elim (Bool-cases (beq item.member member)) [
        | inl b ↦ elim (Bool-cases (F.eq item.score score)) [
          | inl c ↦ (
            some 0,
            rw (at, b, c) refl,
            (i, item, [], is, refl, refl, at, (beq_iff item.member member).0 b, c),
          )
          | inr c ↦ (later o, rw (at, b, c, e) refl, skipped)
        ]
        | inr b ↦ (later o, rw (at, b, e) refl, skipped)
      ]

take-front :
    (xs ys : List ℕ) (i : ℕ)
    → take (length xs) (xs ++ i ∷ ys) ++ drop (suc (length xs)) (xs ++ i ∷ ys) ≡ xs ++ ys
take-front [] ys i = refl
take-front (x ∷ xs) ys i = ap (◌∷◌ x) (take-front xs ys i)

-- The new index holds the items of the old one without one, which had the member and the score.
module _ (F : Floats) where
  pub record Removed (t t' : BTreeIndex F) (live : ℕ → Bool) (height : ℕ → ℕ) (k l : ℕ)
      (ls : List ℕ) (score : F.Float) (member : Bytes) (r : ℕ) : Type 0 where
    pub index : Indexed t'.tree live height k l ls (length t'.store)
    pub store_same : t'.store ≡ t.store
    pub outcome :
        ((r ≡ 0) × (t' ≡ t))
        ⊎ ((r ≡ 1)
            × ((i : ℕ) × (item : Item F) × Inserted i
                  (leaf_items t'.tree.nodes (l ∷ ls))
                  (leaf_items t.tree.nodes (l ∷ ls))
                × (get_elem? t.store i ≡ some item)
                × (item.member ≡ member)
                × (F.eq item.score score ≡ true)))

  module _ (fuel : ℕ) (t : BTreeIndex F) (score : F.Float) (member : Bytes) (live : ℕ → Bool)
      (height : ℕ → ℕ) (k l : ℕ) (ls : List ℕ)
      (index : Indexed t.tree live height k l ls (length t.store)) (p : ℕ) (lp : live p ≡ true)
      (leaf : (node t.tree.nodes p).is_leaf ≡ true)
      (spare : min_items t.tree < length (node t.tree.nodes p).items) where
    by_place : Option ℕ → Result (BTreeIndex F × ℕ)
    by_place o = elim o [
      | none ↦ ok (t, 0)
      | some i ↦ remove_item fuel t.tree p i >>= λ tree. ok (record t { tree = tree }, 1)
    ]

    by_place_lem :
        (o : Option ℕ)
        → FoundAt F t.store score member (node t.tree.nodes p).items o
        → (t' : BTreeIndex F) × (r : ℕ) × (by_place o ≡ ok (t', r))
          × Removed t t' live height k l ls score member r
    unfolding by_place remove_item
    by_place_lem none found =
        (t, 0, refl, record { index = index; store_same = refl; outcome = inl (refl, refl) })
    by_place_lem (some j) (i, item, xs, ys, e, len, at, name, same) =
        let n = node t.tree.nodes p in
        let size : length n.items ≡ suc (length (xs ++ ys)) =
          omega (arith, ap length e, length-append xs (i ∷ ys), length-append xs ys) in
        let room : ltb j (length n.items) ≡ true = ground (arith, size, len, length-append xs ys) in
        let cut : take j n.items ++ drop (suc j) n.items ≡ xs ++ ys =
          ap (λ m. take m n.items ++ drop (suc m) n.items) (sym len)
          ∙ ap (λ is. take (length xs) is ++ drop (suc (length xs)) is) e
          ∙ take-front xs ys i in
        let stays : ltb (length (xs ++ ys)) (min_items t.tree) ≡ false =
          ground (arith, size, spare) in
        let (before, after, was, now) =
          relabel-items t.tree live height k l ls (length t.store) p (xs ++ ys) index lp leaf in
        let kept : (x : ℕ) → In x (xs ++ ys) → x < length t.store =
          λ x m. index.pointing p x lp (transport (ap (In x) (sym e)) (In-insert x i xs ys m)) in
        (
          record t { tree = write t.tree p (record n { items = xs ++ ys }) },
          1,
          rw (node_at-node t.tree.nodes p (index.shape.inside p lp), room, cut, stays) refl,
          record {
            index =
                relabel-Indexed t.tree live height k l ls (length t.store) p (xs ++ ys) index lp
                  leaf (length t.store) (omega arith) kept;
            store_same = refl;
            outcome = inr (
              refl,
              (
                i,
                item,
                (
                  before ++ xs,
                  ys ++ after,
                  now ∙ regroup before xs ys after,
                  was ∙ ap (λ is. before ++ (is ++ after)) e ∙ regroup before xs (i ∷ ys) after,
                ),
                at,
                name,
                same,
              ),
            );
          },
        )

-- On an index with its invariant where every leaf has more items than the minimum, and with more fuel than
-- its height, `RemoveByScore` returns. The new index has the invariant, the same nodes in the tree and the same
-- store of items, and either the result is 0 and nothing has changed, or the result is 1 and the leaves hold
-- the items of before, in their order, without one that had the member and the score.
pub remove_by_score-Indexed :
    (F : Floats) (fuel : ℕ) (t : BTreeIndex F) (score : F.Float) (member : Bytes) (live : ℕ → Bool)
    (height : ℕ → ℕ) (k l : ℕ) (ls : List ℕ)
    → Indexed t.tree live height k l ls (length t.store)
    → ((p : ℕ)
        → live p ≡ true
        → (node t.tree.nodes p).is_leaf ≡ true
        → min_items t.tree < length (node t.tree.nodes p).items)
    → height t.tree.root < fuel
    → (t' : BTreeIndex F) × (r : ℕ) × (remove_by_score F fuel t score member ≡ ok (t', r))
      × Removed F t t' live height k l ls score member r
unfolding remove_by_score by_place
remove_by_score-Indexed F fuel t score member live height k l ls index spare enough =
    let (p, e, lp, leaf) =
      find_leaf_lem F fuel t score t.tree.root live height k l ls index index.shape.root_live
        enough in
    let (o, f, found) =
      find_item_lem F t.store score member (node t.tree.nodes p).items
        (λ i m. index.pointing p i lp m) in
    let (t', r, g, removed) =
      by_place_lem F fuel t score member live height k l ls index p lp leaf (spare p lp leaf) o
        found in
    (t', r, rw (e, node_at-node t.tree.nodes p (index.shape.inside p lp), f) g, removed)
