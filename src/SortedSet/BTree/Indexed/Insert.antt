-- ===== src/SortedSet/BTree/Indexed/Insert.antt =====
-- `Add` of btree_index.go on an index with its invariant.
use redi_go.Prelude.{
  Bytes, ℕ, suc, ◌≤◌, ◌<◌, List, [], ◌∷◌, ◌++◌, append_assoc, ◌≡◌, refl, sym, ap, ◌∙◌, Bool, true,
  Bool-cases, inl, inr, ◌⊎◌, Option, none, some, arith, leb, length, length-append, length-set,
  get_elem?, set, In, In-insert_cases, In-append_left, In-append_right,
}
use mathlib.Core.Path.{transport}
use redi_go.Go.Result.{Result, ok}
use redi_go.Go.Float.{Floats}
use redi_go.SortedSet.Item.{Item}
use redi_go.SortedSet.BTree.{BTreeIndex}
use redi_go.SortedSet.BTree.Add.{write, insert_item, update_item, add}
use redi_go.SortedSet.BTree.Indexed.{Indexed}
use redi_go.SortedSet.BTree.Indexed.Find.{
  Within, Found, find_leaf_lem, find_member_lem, insert_sorted_lem,
}
use redi_go.SortedSet.BTree.Indexed.Relabel.{relabel-Indexed, relabel-items, relabel-p}
use redi_go.SortedSet.BTree.Indexed.SplitNode.{Holding, split_node_lem}
use redi_go.SortedSet.BTree.Leaves.{node, node_at-node, leaf_items}

-- A pointer is put in somewhere.
abbrev pub Inserted : ℕ → List ℕ → List ℕ → Type 0
Inserted i is js = (xs : List ℕ) × (ys : List ℕ) × (is ≡ xs ++ ys) × (js ≡ xs ++ i ∷ ys)

pub regroup :
    (before xs zs after : List ℕ)
    → before ++ ((xs ++ zs) ++ after) ≡ (before ++ xs) ++ (zs ++ after)
regroup before xs zs after =
    ap (λ is. before ++ is) (append_assoc xs zs after) ∙ sym (append_assoc before xs (zs ++ after))

module _ (F : Floats) where
  -- What `Add` of a member makes of the index `t`, whose leaves hold the items `is`, when it returns `r`.
  pub record Added (t t' : BTreeIndex F) (l top : ℕ) (is : List ℕ) (score : F.Float)
      (member : Bytes) (r : ℕ) : Type 0 where
    pub new_is : List ℕ
    pub holding : Holding t'.tree l (length t'.store) t.tree.degree top new_is
    pub outcome :
        ((r ≡ 1)
          × Inserted (length t.store) is new_is
          × (t'.store ≡ t.store ++ record { score = score; member = member } ∷ []))
        ⊎ ((r ≡ 0)
            × (new_is ≡ is)
            × ((i : ℕ) × (item : Item F) × In i is
                × (get_elem? t.store i ≡ some item)
                × (item.member ≡ member)
                × (t'.store ≡ set t.store i (record item { score = score }))))

  module _ (fuel : ℕ) (t : BTreeIndex F) (score : F.Float) (member : Bytes) (live : ℕ → Bool)
      (height : ℕ → ℕ) (k l : ℕ) (ls : List ℕ)
      (index : Indexed t.tree live height k l ls (length t.store)) (wide : 2 ≤ t.tree.degree)
      (enough : height t.tree.root < fuel) where
    abbrev the_items : List ℕ
    the_items = leaf_items t.tree.nodes (l ∷ ls)

    abbrev the_item : Item F
    the_item = record { score = score; member = member }

    ResultOf : Result (BTreeIndex F × ℕ) → Type 0
    ResultOf m =
        (t' : BTreeIndex F) × (r : ℕ) × (m ≡ ok (t', r))
        × Added t t' l (suc (height t.tree.root)) (leaf_items t.tree.nodes (l ∷ ls)) score member r

    module _ (p : ℕ) (lp : live p ≡ true) (leaf : (node t.tree.nodes p).is_leaf ≡ true) where
      within : Within F t.store (node t.tree.nodes p).items
      within i m = index.pointing p i lp m

      insert_item_lem : ResultOf (insert_item F fuel t score member p)
      unfolding insert_item ResultOf
      insert_item_lem =
          let n = node t.tree.nodes p in
          let (xs, ys, e, f) =
            insert_sorted_lem F t.store the_item (length t.store) n.items within in
          let js = xs ++ length t.store ∷ ys in
          let tree = write t.tree p (record n { items = js }) in
          let bound = length (t.store ++ the_item ∷ []) in
          let more : bound ≡ suc (length t.store) =
            omega (arith, length-append t.store (the_item ∷ [])) in
          let (before, after, was, now) =
            relabel-items t.tree live height k l ls (length t.store) p js index lp leaf in
          let index' : Indexed tree live height k l ls bound =
            relabel-Indexed t.tree live height k l ls (length t.store) p js index lp leaf bound
              (omega (arith, more))
              (λ i m. elim (In-insert_cases i (length t.store) xs ys m) [
                | inl s ↦ omega (arith, more, s)
                | inr old ↦
                    let lt = within i (transport (ap (In i) (sym f)) old) in omega (arith, more, lt)
              ]) in
          let inserted : Inserted (length t.store) the_items (before ++ (js ++ after)) = (
            before ++ xs,
            ys ++ after,
            was ∙ ap (λ is. before ++ (is ++ after)) f ∙ regroup before xs ys after,
            regroup before xs (length t.store ∷ ys) after,
          ) in
          let inside = node_at-node t.tree.nodes p (index.shape.inside p lp) in
          elim (Bool-cases (leb t.tree.degree (length js))) [
            | inl full ↦
                let (tree', g, h) =
                  split_node_lem l bound (before ++ (js ++ after)) fuel tree live height k ls p
                    index' now lp wide
                    (omega (
                      arith,
                      ap (λ m. length m.items)
                          (relabel-p t.tree live height k l ls (length t.store) p js index lp leaf),
                      length-append xs (length t.store ∷ ys),
                    ))
                    (omega (arith, enough)) in
                (
                  record { tree = tree'; store = t.store ++ the_item ∷ [] },
                  1,
                  rw (inside, e, full, g) refl,
                  record {
                    new_is = before ++ (js ++ after);
                    holding = h;
                    outcome = inl (refl, inserted, refl);
                  },
                )
            | inr room ↦ (
              record { tree = tree; store = t.store ++ the_item ∷ [] },
              1,
              rw (inside, e, room) refl,
              record {
                new_is = before ++ (js ++ after);
                holding = record {
                  live = live;
                  height = height;
                  levels = k;
                  others = ls;
                  index = index';
                  items = now;
                  degree_same = refl;
                  high = omega arith;
                };
                outcome = inl (refl, inserted, refl);
              },
            )
          ]

      update_item_lem :
          (i : ℕ)
          → Found F t.store member (node t.tree.nodes p).items (some i)
          → ResultOf (update_item F t score i)
      unfolding update_item ResultOf
      update_item_lem i (m, (item, at, name)) =
          let store = set t.store i (record item { score = score }) in
          let same : length store ≡ length t.store =
            length-set t.store i (record item { score = score }) in
          let (before, after, was, now) =
            relabel-items t.tree live height k l ls (length t.store) p [] index lp leaf in
          (
            record t { store = store },
            0,
            rw at refl,
            record {
              new_is = the_items;
              holding = record {
                live = live;
                height = height;
                levels = k;
                others = ls;
                index = transport (ap (λ n. Indexed t.tree live height k l ls n) (sym same)) index;
                items = refl;
                degree_same = refl;
                high = omega arith;
              };
              outcome = inr (
                refl,
                refl,
                (
                  i,
                  item,
                  transport (ap (In i) (sym was)) (
                      In-append_right i before ((node t.tree.nodes p).items ++ after)
                        (In-append_left i (node t.tree.nodes p).items after m)),
                  at,
                  name,
                  refl,
                ),
              );
            },
          )

    by_found : (p : ℕ) (o : Option ℕ) → Result (BTreeIndex F × ℕ)
    by_found p o = elim o [
      | some i ↦ update_item F t score i
      | none ↦ insert_item F fuel t score member p
    ]

    by_found_lem :
        (p : ℕ) (o : Option ℕ)
        → live p ≡ true
        → (node t.tree.nodes p).is_leaf ≡ true
        → Found F t.store member (node t.tree.nodes p).items o
        → ResultOf (by_found p o)
    unfolding by_found
    by_found_lem p none lp leaf found = insert_item_lem p lp leaf
    by_found_lem p (some i) lp leaf found = update_item_lem p lp leaf i found

-- On an index with its invariant, of a degree of at least 2, and with more fuel than its height, `Add` of a
-- member that is not empty returns. The new index has the invariant, is at most one level higher, and either
-- the result is 1 and the items of the leaves are those before with the new item put in, or the result is
-- 0, the items are the same pointers, and one of them, an item of that member, has got the score.
pub add-Indexed :
    (F : Floats) (fuel : ℕ) (t : BTreeIndex F) (score : F.Float) (b : ℕ) (s : Bytes)
    (live : ℕ → Bool) (height : ℕ → ℕ) (k l : ℕ) (ls : List ℕ)
    → Indexed t.tree live height k l ls (length t.store)
    → 2 ≤ t.tree.degree
    → height t.tree.root < fuel
    → (t' : BTreeIndex F) × (r : ℕ) × (add F fuel t score (b ∷ s) ≡ ok (t', r))
      × Added F t t' l (suc (height t.tree.root)) (leaf_items t.tree.nodes (l ∷ ls)) score (b ∷ s) r
unfolding add ResultOf by_found
add-Indexed F fuel t score b s live height k l ls index wide enough =
    let (p, e, lp, leaf) =
      find_leaf_lem F fuel t score t.tree.root live height k l ls index index.shape.root_live
        enough in
    let (o, f, found) =
      find_member_lem F t.store (b ∷ s) (node t.tree.nodes p).items
        (λ i m. index.pointing p i lp m) in
    let (t', r, g, added) =
      by_found_lem F fuel t score (b ∷ s) live height k l ls index wide enough p o lp leaf found in
    (t', r, rw (e, node_at-node t.tree.nodes p (index.shape.inside p lp), f) g, added)
