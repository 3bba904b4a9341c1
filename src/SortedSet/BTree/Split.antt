-- ===== src/SortedSet/BTree/Split.antt =====
-- What splitLeaf and splitInternal of internal/data_structure/sorted_set/btree_index.go do to the nodes.
pub mod Chains
pub mod Halves
pub mod Rewired
use redi_go.Prelude.{
  ℕ, zero, suc, ◌+◌, ◌-◌, ◌/◌, ◌≤◌, ◌<◌, List, [], ◌∷◌, ◌++◌, ◌≡◌, ◌≢◌, refl, sym, ap, ◌∙◌, Bool,
  true, false, Bool-cases, ◌⊎◌, inl, inr, Option, none, some, arith, ◌==◌, leb, if◌then◌else◌,
  length, length-set, get_elem?, get_elem?-set_self, set, take, drop, In, in?, get_or-set_self,
  get_or-set_ne, get_or-append_old, get_or-append_new, ℕ_discrete,
}
use redi_go.Go.Result.{Result, ok, ◌>>=◌}
use redi_go.SortedSet.BTree.{BTreeNode, Tree, empty_leaf, node_at}
use redi_go.SortedSet.BTree.Add.{write, child_index, link_child, set_parents}
use redi_go.SortedSet.BTree.Leaves.{node, node_at-node}

-- The parent with one more child.
abbrev pub linked : BTreeNode → ℕ → ℕ → ℕ → BTreeNode
linked n p promoted fresh = record n {
  items =
      take (child_index p n.children) n.items ++ promoted ∷ drop (child_index p n.children) n.items;
  children =
      take (child_index p n.children + 1) n.children
      ++ fresh ∷ drop (child_index p n.children + 1) n.children;
}

pub child_index-In : (p : ℕ) (cs : List ℕ) → In p cs → child_index p cs < length cs
unfolding child_index
child_index-In p [] i = elim i [ ]
child_index-In p (c ∷ cs) i = elim (Bool-cases (c == p)) [
  | inl b ↦ rw (child_index, b) (omega arith)
  | inr b ↦ elim i [
    | inl e ↦ absurd (ground (arith, e))
    | inr j ↦ let lt = child_index-In p cs j in rw (child_index, b) (omega arith)
  ]
]

pub link_child_lem :
    (t : Tree) (q p promoted fresh : ℕ)
    → q < length t.nodes
    → In p (node t.nodes q).children
    → length (node t.nodes q).children ≡ suc (length (node t.nodes q).items)
    → link_child t q p promoted fresh ≡ ok (write t q (linked (node t.nodes q) p promoted fresh))
unfolding link_child
link_child_lem t q p promoted fresh inside i full =
    let lt = child_index-In p (node t.nodes q).children i in
    let a : leb (child_index p (node t.nodes q).children) (length (node t.nodes q).items) ≡ true =
      ground (arith, full) in
    let b : leb (child_index p (node t.nodes q).children + 1) (length (node t.nodes q).children)
        ≡ true =
      ground arith in
    rw (node_at-node t.nodes q inside, a, b) refl

-- The nodes of `moved` have got the parent `fresh`.
pub record Reparented (fresh : ℕ) (moved : List ℕ) (ns ns' : List BTreeNode) : Type 0 where
  pub same_length : length ns' ≡ length ns
  pub among :
      (x : ℕ) → x < length ns → In x moved → node ns' x ≡ record (node ns x) { parent = some fresh }
  pub elsewhere : (x : ℕ) → ¬ (In x moved) → node ns' x ≡ node ns x

pub nothing-Reparented : (fresh : ℕ) (ns : List BTreeNode) → Reparented fresh [] ns ns
nothing-Reparented fresh ns = record {
  same_length = refl;
  among = λ x lt i. elim i [ ];
  elsewhere = λ x n. refl;
}

pub set_parents_lem :
    (fresh : ℕ) (moved : List ℕ) (ns : List BTreeNode)
    → ((x : ℕ) → In x moved → x < length ns)
    → (ns' : List BTreeNode) × (set_parents fresh moved ns ≡ ok ns') × Reparented fresh moved ns ns'
unfolding set_parents
set_parents_lem fresh [] ns inside = (ns, refl, nothing-Reparented fresh ns)
set_parents_lem fresh (c ∷ cs) ns inside =
    let here : c < length ns = inside c (inl refl) in
    let n : BTreeNode = record (node ns c) { parent = some fresh } in
    let len = length-set ns c n in
    let (ns', e, r) =
      set_parents_lem fresh cs (set ns c n)
        (λ x i. let lt : x < length ns = inside x (inr i) in omega (arith, len)) in
    let once : (x : ℕ) → x ≡ c → node (set ns c n) x ≡ record (node ns x) { parent = some fresh } =
      λ x e. rw e (get_or-set_self ns c n empty_leaf here) in
    (
      ns',
      rw (node_at-node ns c here) e,
      record {
        same_length = r.same_length ∙ len;
        among = λ x lt i. elim (in? x cs) [
          | inl j ↦ r.among x (omega (arith, len)) j ∙ (elim (ℕ_discrete x c) [
            | yes e ↦ ap (λ (m : BTreeNode). record m { parent = some fresh }) (once x e)
            | no ne ↦
                ap (λ (m : BTreeNode). record m { parent = some fresh })
                  (get_or-set_ne ns c x n empty_leaf (λ e. ne (sym e)))
          ])
          | inr n ↦ elim i [ inl e ↦ r.elsewhere x n ∙ once x e | inr j ↦ absurd (n j) ]
        ];
        elsewhere = λ x no_member.
            r.elsewhere x (λ j. no_member (inr j))
            ∙ get_or-set_ne ns c x n empty_leaf (λ e. no_member (inl (sym e)));
      },
    )
