-- ===== src/SortedSet/BTree/WellFormed/Divided.antt =====
-- The division of a node `p` under its parent `q` (splitLeaf and splitInternal of btree_index.go): a
-- fresh node takes over some of its children.
use redi_go.Prelude.{
  ℕ, suc, ◌<◌, List, [], ◌∷◌, ◌++◌, ◌≡◌, ◌≢◌, sym, ap, ◌∙◌, Bool, true, false, Bool-cases, ◌⊎◌, inl,
  inr, some, arith, length, In, Distinct, In-append_left, In-append_right, In-append_cases,
  Distinct-append_apart, In-insert, In-insert_cases, ℕ_discrete,
}
use mathlib.Core.Path.{transport}
use redi_go.SortedSet.BTree.{BTreeNode}
use redi_go.SortedSet.BTree.Leaves.{node}
use redi_go.SortedSet.BTree.WellFormed.{WellFormed}

-- What a division leaves behind, node by node; the fresh node stands behind the others.
pub record Divided (ns ns' : List BTreeNode) (p q : ℕ) (before after kept moved : List ℕ)
    : Type 0 where
  pub grown : length ns' ≡ suc (length ns)
  pub split : (node ns p).is_leaf ≡ false → (node ns p).children ≡ kept ++ moved
  pub of_leaf : (node ns p).is_leaf ≡ true → moved ≡ []
  pub around : (node ns q).children ≡ before ++ after
  pub upper_children : (node ns' q).children ≡ before ++ length ns ∷ after
  pub upper_items : length (node ns' q).items ≡ suc (length (node ns q).items)
  pub lower_children : (node ns' p).is_leaf ≡ false → (node ns' p).children ≡ kept
  pub lower_full : (node ns' p).is_leaf ≡ false → length kept ≡ suc (length (node ns' p).items)
  pub fresh_leaf : (node ns' (length ns)).is_leaf ≡ (node ns p).is_leaf
  pub fresh_children : (node ns' (length ns)).children ≡ moved
  pub fresh_parent : (node ns' (length ns)).parent ≡ some q
  pub fresh_full :
      (node ns' (length ns)).is_leaf ≡ false
      → length moved ≡ suc (length (node ns' (length ns)).items)
  pub same_leaf : (x : ℕ) → x < length ns → (node ns' x).is_leaf ≡ (node ns x).is_leaf
  pub same_children :
      (x : ℕ) → x < length ns → x ≢ p → x ≢ q → (node ns' x).children ≡ (node ns x).children
  pub same_items : (x : ℕ) → x < length ns → x ≢ p → x ≢ q → (node ns' x).items ≡ (node ns x).items
  pub moved_parent : (x : ℕ) → x < length ns → In x moved → (node ns' x).parent ≡ some (length ns)
  pub same_parent :
      (x : ℕ) → x < length ns → ¬ (In x moved) → (node ns' x).parent ≡ (node ns x).parent

module _ (ns ns' : List BTreeNode) (live : ℕ → Bool) (height : ℕ → ℕ) (root p q : ℕ)
    (before after kept moved : List ℕ) (w : WellFormed ns live height root) (p_live : live p ≡ true)
    (up : (node ns p).parent ≡ some q) (d : Divided ns ns' p q before after kept moved) where
  upper : (live q ≡ true) × ((node ns q).is_leaf ≡ false) × In p (node ns q).children
  upper = w.up p q p_live up

  above : height q ≡ suc (height p)
  above = (w.down q p upper.0 upper.1 upper.2).2

  apart : p ≢ q
  apart e = let i : height p ≡ height q = ap height e in absurd (omega (arith, i, above))

  old_inside : (x : ℕ) → live x ≡ true → x < length ns
  old_inside x l = w.inside x l

  -- What is known of a node that moves.
  pub moved_was :
      (x : ℕ)
      → In x moved
      → ((node ns p).is_leaf ≡ false)
        × (live x ≡ true)
        × ((node ns x).parent ≡ some p)
        × (height p ≡ suc (height x))
  moved_was x i = elim (Bool-cases (node ns p).is_leaf) [
    | inl leaf ↦ absurd (transport (ap (In x) (d.of_leaf leaf)) i)
    | inr inner ↦
        let j : In x (node ns p).children =
          transport (ap (In x) (sym (d.split inner))) (In-append_right x kept moved i) in
        let (l, was, h) = w.down p x p_live inner j in (inner, l, was, h)
  ]

  stays : (x r : ℕ) → (node ns x).parent ≡ some r → r ≢ p → ¬ (In x moved)
  stays x r e ne i =
      let (inner, l, was, h) = moved_was x i in
      ne (let s : some r ≡ some p = sym e ∙ was in let t : r ≡ p = cc in t)

  pub inner_before :
      (x : ℕ) → live x ≡ true → (node ns' x).is_leaf ≡ false → (node ns x).is_leaf ≡ false
  inner_before x l e = sym (d.same_leaf x (old_inside x l)) ∙ e

  -- A child was one before, or is the fresh node; what `p` has kept did not move.
  pub child_cases :
      (r c : ℕ)
      → live r ≡ true
      → (node ns' r).is_leaf ≡ false
      → In c (node ns' r).children
      → ((c ≡ length ns) × (r ≡ q)) ⊎ (In c (node ns r).children × ¬ (In c moved))
  child_cases r c l inner' i = elim (ℕ_discrete r q) [
    | yes e ↦ elim (In-insert_cases c (length ns) before after (rw (e, d.upper_children) at i)) [
      | inl fresh ↦ inl (fresh, e)
      | inr old ↦
          let j : In c (node ns q).children = transport (ap (In c) (sym d.around)) old in
          inr (rw e j, stays c q (w.down q c upper.0 upper.1 j).1 (λ s. apart (sym s)))
    ]
    | no ne ↦ elim (ℕ_discrete r p) [
      | yes e ↦
          let inner : (node ns p).is_leaf ≡ false =
            transport (ap (λ y. (node ns y).is_leaf ≡ false) e) (inner_before r l inner') in
          let k : In c kept =
            transport (ap (In c) (d.lower_children (rw e at inner'))) (rw e at i) in
          inr (
            rw e (transport (ap (In c) (sym (d.split inner))) (In-append_left c kept moved k)),
            Distinct-append_apart c kept moved
                (transport (ap Distinct (d.split inner)) (w.distinct p p_live inner)) k,
          )
      | no other ↦
          let j : In c (node ns r).children =
            transport (ap (In c) (d.same_children r (old_inside r l) other ne)) i in
          inr (j, stays c r (w.down r c l (inner_before r l inner') j).1 other)
    ]
  ]

  pub child_stays :
      (r c : ℕ)
      → live r ≡ true
      → (node ns r).is_leaf ≡ false
      → In c (node ns r).children
      → ¬ (In c moved)
      → In c (node ns' r).children
  child_stays r c l inner i n = elim (ℕ_discrete r q) [
    | yes e ↦
        rw (e, d.upper_children)
          (In-insert c (length ns) before after (transport (ap (In c) d.around) (rw e at i)))
    | no ne ↦ elim (ℕ_discrete r p) [
      | yes e ↦
          let inner' : (node ns' p).is_leaf ≡ false =
            d.same_leaf p (old_inside p p_live) ∙ (rw e at inner) in
          rw (e, d.lower_children inner')
            (elim (In-append_cases c kept moved
              (transport (ap (In c) (d.split (rw e at inner))) (rw e at i))) [
                | inl k ↦ k
                | inr m ↦ absurd (n m)
              ])
      | no other ↦ transport (ap (In c) (sym (d.same_children r (old_inside r l) other ne))) i
    ]
  ]
