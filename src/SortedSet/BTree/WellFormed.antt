-- ===== src/SortedSet/BTree/WellFormed.antt =====
-- The invariant on the pointers of internal/data_structure/sorted_set/btree_index.go.
pub mod Divided
pub mod Grown
pub mod Kept
use redi_go.Prelude.{
  ℕ, suc, ◌≤◌, ◌<◌, List, ◌≡◌, refl, ◌⊎◌, inl, inr, arith, ℕ_discrete, Bool, Bool-cases, true,
  false, ◌||◌, Option, none, some, ◌==◌, if◌then◌else◌, length, In, Distinct,
}
use redi_go.SortedSet.BTree.{BTreeNode}
use redi_go.SortedSet.BTree.Leaves.{node}

-- `live` tells the nodes that the tree consists of, and `height` their height above the leaves.
pub record WellFormed (ns : List BTreeNode) (live : ℕ → Bool) (height : ℕ → ℕ) (root : ℕ)
    : Type 0 where
  pub root_live : live root ≡ true
  pub inside : (p : ℕ) → live p ≡ true → p < length ns
  pub top : (p : ℕ) → live p ≡ true → (node ns p).parent ≡ none → p ≡ root
  pub top_root : (node ns root).parent ≡ none
  pub low : (p : ℕ) → live p ≡ true → height p ≤ height root
  pub up :
      (p q : ℕ)
      → live p ≡ true
      → (node ns p).parent ≡ some q
      → (live q ≡ true) × ((node ns q).is_leaf ≡ false) × In p (node ns q).children
  pub down :
      (q c : ℕ)
      → live q ≡ true
      → (node ns q).is_leaf ≡ false
      → In c (node ns q).children
      → (live c ≡ true) × ((node ns c).parent ≡ some q) × (height q ≡ suc (height c))
  pub full :
      (q : ℕ)
      → live q ≡ true
      → (node ns q).is_leaf ≡ false
      → length (node ns q).children ≡ suc (length (node ns q).items)
  pub distinct :
      (q : ℕ) → live q ≡ true → (node ns q).is_leaf ≡ false → Distinct (node ns q).children

-- The same tree with one more node.
abbrev pub also : ℕ → (ℕ → Bool) → ℕ → Bool
also fresh live p = (p == fresh) || live p

abbrev pub with_height : ℕ → ℕ → (ℕ → ℕ) → ℕ → ℕ
with_height fresh n height p = if p == fresh then n else height p

pub also-cases :
    (fresh x : ℕ) (live : ℕ → Bool) → also fresh live x ≡ true → (x ≡ fresh) ⊎ (live x ≡ true)
also-cases fresh x live e = elim (ℕ_discrete x fresh) [
  | yes i ↦ inl i
  | no ne ↦ inr (let b : (x == fresh) ≡ false = ground (arith, ne) in rw b at e)
]

pub also-old : (fresh x : ℕ) (live : ℕ → Bool) → live x ≡ true → also fresh live x ≡ true
also-old fresh x live e = elim (Bool-cases (x == fresh)) [
  | inl b ↦ rw b refl
  | inr b ↦ rw (b, e) refl
]

pub also_self : (fresh : ℕ) (live : ℕ → Bool) → also fresh live fresh ≡ true
also_self fresh live = let b : (fresh == fresh) ≡ true = ground arith in rw b refl

pub with_height_self : (fresh n : ℕ) (height : ℕ → ℕ) → with_height fresh n height fresh ≡ n
with_height_self fresh n height = let b : (fresh == fresh) ≡ true = ground arith in rw b refl

pub with_height-old :
    (fresh n x : ℕ) (height : ℕ → ℕ) → x < fresh → with_height fresh n height x ≡ height x
with_height-old fresh n x height lt = let b : (x == fresh) ≡ false = ground arith in rw b refl
