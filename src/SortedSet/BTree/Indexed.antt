-- ===== src/SortedSet/BTree/Indexed.antt =====
-- The invariant of the index of internal/data_structure/sorted_set/btree_index.go: the tree and the
-- chain of its leaves.
pub mod Delete
pub mod Find
pub mod Grown
pub mod Insert
pub mod Relabel
pub mod Run
pub mod SplitNode
pub mod Step
use redi_go.Prelude.{
  ℕ, suc, ◌<◌, List, [], ◌∷◌, ◌++◌, append_assoc, ◌≡◌, refl, sym, ap, ◌∙◌, Bool, true, inl, inr, In,
  Distinct, Distinct-insert, In-insert,
}
use mathlib.Core.Path.{transport}
use redi_go.SortedSet.BTree.{BTreeNode, Tree}
use redi_go.SortedSet.BTree.Leaves.{node, Leaves, leaf_items}
use redi_go.SortedSet.BTree.WellFormed.{WellFormed}

-- The leaves of the tree are `l` and then `ls`, `k` levels below the root, and every item is a pointer
-- below `bound`.
pub record Indexed (t : Tree) (live : ℕ → Bool) (height : ℕ → ℕ) (k l : ℕ) (ls : List ℕ) (bound : ℕ)
    : Type 0 where
  pub shape : WellFormed t.nodes live height t.root
  pub leaves : Leaves t k l ls
  pub once : Distinct (l ∷ ls)
  pub all : (p : ℕ) → live p ≡ true → (node t.nodes p).is_leaf ≡ true → In p (l ∷ ls)
  pub pointing : (p i : ℕ) → live p ≡ true → In i (node t.nodes p).items → i < bound

-- The leaves before and behind `p`, and the leaves with one more behind `p`.
pub cut_at :
    (p z l : ℕ) (ls : List ℕ)
    → In p (l ∷ ls)
    → (xs : List ℕ) × (ys : List ℕ) × (zs : List ℕ) × (l ∷ ls ≡ xs ++ p ∷ ys)
      × (xs ++ p ∷ z ∷ ys ≡ l ∷ zs)
cut_at p z l ls (inl e) = ([], ls, z ∷ ls, ap (λ x. x ∷ ls) (sym e), ap (λ x. x ∷ z ∷ ls) e)
cut_at p z l [] (inr i) = elim i [ ]
cut_at p z l (m ∷ ms) (inr i) =
    let (xs, ys, zs, e, f) = cut_at p z m ms i in (l ∷ xs, ys, m ∷ zs, ap (◌∷◌ l) e, ap (◌∷◌ l) f)

pub Distinct-behind :
    (p z : ℕ) (xs ys : List ℕ)
    → Distinct (xs ++ p ∷ ys)
    → ¬ (In z (xs ++ p ∷ ys))
    → Distinct (xs ++ p ∷ z ∷ ys)
Distinct-behind p z xs ys d n = transport (ap Distinct (append_assoc xs (p ∷ []) (z ∷ ys))) (
    Distinct-insert z (xs ++ p ∷ []) ys
      (transport (ap Distinct (sym (append_assoc xs (p ∷ []) ys))) d)
      (λ i. n (transport (ap (In z) (append_assoc xs (p ∷ []) ys)) i)))

pub In-behind : (a p z : ℕ) (xs ys : List ℕ) → In a (xs ++ p ∷ ys) → In a (xs ++ p ∷ z ∷ ys)
In-behind a p z xs ys i =
    transport (ap (In a) (append_assoc xs (p ∷ []) (z ∷ ys))) (
      In-insert a z (xs ++ p ∷ []) ys (transport (ap (In a) (sym (append_assoc xs (p ∷ []) ys))) i))
