-- ===== src/SortedSet/BTree/Split/Chains.antt =====
-- The chain of the leaves, and their items, after a split (btree_index.go).
use redi_go.Prelude.{
  ℕ, zero, suc, ◌+◌, ◌≤◌, ◌<◌, List, [], ◌∷◌, ◌++◌, append_assoc, ◌≡◌, ◌≢◌, refl, sym, ap, ◌∙◌,
  true, false, inl, inr, Option, some, arith, length, get_elem?, take, In, In-append_right,
  Distinct, ℕ_discrete,
}
use mathlib.Core.Path.{transport}
use redi_go.SortedSet.BTree.{BTreeNode}
use redi_go.SortedSet.BTree.Add.{child_index}
use redi_go.SortedSet.BTree.Leaves.{node, Chain, leaf_items, Leftmost}
use redi_go.SortedSet.BTree.Split.Halves.{Halves}
use redi_go.SortedSet.BTree.Split.Rewired.{body, leaves_stay}

pub Chain-leaf :
    (ns : List BTreeNode) (start : Option ℕ) (ls : List ℕ) (x : ℕ)
    → Chain ns start ls
    → In x ls
    → (x < length ns) × ((node ns x).is_leaf ≡ true)
Chain-leaf ns start [] x c i = elim i [ ]
Chain-leaf ns start (p ∷ ps) x (e, inside, leaf, c) (inl s) = rw s (inside, leaf)
Chain-leaf ns start (p ∷ ps) x (e, inside, leaf, c) (inr i) =
    Chain-leaf ns (node ns p).next ps x c i

pub Chain-same :
    (ns ns' : List BTreeNode) (start : Option ℕ) (ls : List ℕ)
    → length ns ≤ length ns'
    → ((x : ℕ) → In x ls → body (node ns' x) ≡ body (node ns x))
    → Chain ns start ls
    → Chain ns' start ls × (leaf_items ns' ls ≡ leaf_items ns ls)
Chain-same ns ns' start [] le same c = (c, refl)
Chain-same ns ns' start (p ∷ ps) le same (e, inside, leaf, c) =
    let here = same p (inl refl) in
    let (c', items) = Chain-same ns ns' (node ns p).next ps le (λ x i. same x (inr i)) c in
    (
      (
        e,
        omega arith,
        ap (λ b. b.2) here ∙ leaf,
        transport (ap (λ n. Chain ns' n ps) (sym (ap (λ b. b.3) here))) c',
      ),
      ap (λ b. b.0 ++ leaf_items ns' ps) here ∙ ap (λ is. (node ns p).items ++ is) items,
    )

module _ (ns ns' : List BTreeNode) (p q : ℕ) (half : Halves ns ns' p q)
    (q_inner : (node ns q).is_leaf ≡ false) where
  long : length ns ≤ length ns'
  long = omega (arith, half.wired.grown)

  leaf_same :
      (x : ℕ)
      → x < length ns
      → (node ns x).is_leaf ≡ true
      → x ≢ p
      → body (node ns' x) ≡ body (node ns x)
  leaf_same x lt leaf far = half.wired.others x lt far (λ e.
      absurd (let s : true ≡ false = sym leaf ∙ ap (λ y. (node ns y).is_leaf) e ∙ q_inner in cc))

  -- A chain that does not pass `p`.
  pub Chain-past :
      (start : Option ℕ) (ls : List ℕ)
      → ¬ (In p ls)
      → Chain ns start ls
      → Chain ns' start ls × (leaf_items ns' ls ≡ leaf_items ns ls)
  Chain-past start ls out c =
      Chain-same ns ns' start ls long
        (λ x i.
          let (lt, leaf) = Chain-leaf ns start ls x c i in
          leaf_same x lt leaf (λ e. out (transport (ap (λ y. In y ls) e) i)))
        c

  -- The fresh leaf stands behind `p`.
  pub Chain-cut :
      (start : Option ℕ) (xs ys : List ℕ)
      → Distinct (xs ++ p ∷ ys)
      → Chain ns start (xs ++ p ∷ ys)
      → Chain ns' start (xs ++ p ∷ length ns ∷ ys)
        × (leaf_items ns' (xs ++ p ∷ length ns ∷ ys) ≡ leaf_items ns (xs ++ p ∷ ys))
  Chain-cut start [] ys (out, d) (e, inside, leaf, c) =
      let (c', items) = Chain-past (node ns p).next ys out c in
      let next : (node ns' p).next ≡ some (length ns) =
        ap (λ b. b.3) half.wired.lower ∙ half.left_next leaf in
      let after : (node ns' (length ns)).next ≡ (node ns p).next =
        ap (λ n. n.next) half.wired.added ∙ half.new_next leaf in
      (
        (
          e,
          omega (arith, long),
          ap (λ b. b.2) half.wired.lower ∙ half.parts.left_leaf ∙ leaf,
          (
            next,
            omega (arith, half.wired.grown),
            ap (λ n. n.is_leaf) half.wired.added ∙ half.parts.new_leaf ∙ leaf,
            transport (ap (λ n. Chain ns' n ys) (sym after)) c',
          ),
        ),
        ap (λ b. b.0 ++ ((node ns' (length ns)).items ++ leaf_items ns' ys)) half.wired.lower
            ∙ ap (λ n. half.left.items ++ (n.items ++ leaf_items ns' ys)) half.wired.added
            ∙ sym (append_assoc half.left.items half.new.items (leaf_items ns' ys))
            ∙ ap (λ is. is ++ leaf_items ns' ys) (half.cut leaf)
            ∙ ap (λ is. (node ns p).items ++ is) items,
      )
  Chain-cut start (x ∷ xs) ys (out, d) (e, inside, leaf, c) =
      let far : x ≢ p = λ e. out (
        transport (ap (λ y. In y (xs ++ p ∷ ys)) (sym e))
          (In-append_right p xs (p ∷ ys) (inl refl))) in
      let here = leaf_same x inside leaf far in
      let (c', items) = Chain-cut (node ns x).next xs ys d c in
      (
        (
          e,
          omega (arith, long),
          ap (λ b. b.2) here ∙ leaf,
          transport (ap (λ n. Chain ns' n (xs ++ p ∷ length ns ∷ ys)) (sym (ap (λ b. b.3) here)))
              c',
        ),
        ap (λ b. b.0 ++ leaf_items ns' (xs ++ p ∷ length ns ∷ ys)) here
            ∙ ap (λ is. (node ns x).items ++ is) items,
      )

In-length : (x : ℕ) (xs : List ℕ) → In x xs → 1 ≤ length xs
In-length x [] i = elim i [ ]
In-length x (y ∷ ys) i = omega arith

first-insert :
    (n : ℕ) (cs zs : List ℕ) → 1 ≤ length cs → get_elem? (take (n + 1) cs ++ zs) 0 ≡ get_elem? cs 0
first-insert n [] zs le = elim le [ ]
first-insert n (c ∷ cs) zs le =
    ap (λ k. get_elem? (take k (c ∷ cs) ++ zs) 0) (let e : n + 1 ≡ suc n = omega arith in e)

-- The first leaf below a node stays where it is, whatever else changes.
pub Leftmost-same :
    (ns ns' : List BTreeNode) (k r l : ℕ)
    → length ns ≤ length ns'
    → ((x : ℕ) → x < length ns → (node ns' x).is_leaf ≡ (node ns x).is_leaf)
    → ((x : ℕ)
        → x < length ns
        → (node ns x).is_leaf ≡ false
        → get_elem? (node ns' x).children 0 ≡ get_elem? (node ns x).children 0)
    → Leftmost ns k r l
    → Leftmost ns' k r l
Leftmost-same ns ns' zero r l le leaves first (e, inside, leaf) =
    (e, omega arith, leaves r inside ∙ leaf)
Leftmost-same ns ns' (suc k) r l le leaves first (inside, inner, (c, child, m)) = (
  omega arith,
  leaves r inside ∙ inner,
  (c, first r inside inner ∙ child, Leftmost-same ns ns' k c l le leaves first m),
)

module _ (ns ns' : List BTreeNode) (p q : ℕ) (half : Halves ns ns' p q) (p_in : p < length ns)
    (q_in : q < length ns) (apart : p ≢ q) (child : In p (node ns q).children) where
  first_same :
      (x : ℕ)
      → x < length ns
      → (node ns x).is_leaf ≡ false
      → get_elem? (node ns' x).children 0 ≡ get_elem? (node ns x).children 0
  first_same x lt inner = elim (ℕ_discrete x p) [
    | yes e ↦
        ap (λ y. get_elem? (node ns' y).children 0) e
        ∙ ap (λ b. get_elem? b.1 0) half.wired.lower
        ∙ half.first_child (transport (ap (λ y. (node ns y).is_leaf ≡ false) e) inner)
        ∙ ap (λ y. get_elem? (node ns y).children 0) (sym e)
    | no far ↦ elim (ℕ_discrete x q) [
      | yes e ↦
          ap (λ y. get_elem? (node ns' y).children 0) e
          ∙ ap (λ b. get_elem? b.1 0) half.wired.upper
          ∙ first-insert (child_index p (node ns q).children) (node ns q).children _
              (In-length p (node ns q).children child)
          ∙ ap (λ y. get_elem? (node ns y).children 0) (sym e)
      | no other ↦ ap (λ b. get_elem? b.1 0) (half.wired.others x lt far other)
    ]
  ]

  pub Leftmost-halves : (k r l : ℕ) → Leftmost ns k r l → Leftmost ns' k r l
  Leftmost-halves k r l =
      Leftmost-same ns ns' k r l (omega (arith, half.wired.grown))
        (leaves_stay ns ns' p q half.left half.new half.promoted half.kept half.moved p_in q_in
          apart half.parts half.wired)
        first_same
