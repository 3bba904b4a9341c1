-- ===== src/SortedSet/BTree/Split/Rewired.antt =====
-- The nodes after a split (btree_index.go), one by one.
use redi_go.Prelude.{
  ℕ, suc, ◌+◌, ◌<◌, List, [], ◌∷◌, ◌++◌, ◌≡◌, ◌≢◌, sym, ap, ◌∙◌, Bool, true, false, inl, inr,
  Option, some, arith, length, length-set, length-append, set, take, drop, In, in?, take-drop,
  get_or-set_self, get_or-set_ne, get_or-append_old, get_or-append_new, ℕ_discrete,
}
use redi_go.SortedSet.BTree.{BTreeNode, empty_leaf}
use redi_go.SortedSet.BTree.Add.{child_index}
use redi_go.SortedSet.BTree.Leaves.{node}
use redi_go.SortedSet.BTree.Split.{linked, Reparented}
use redi_go.SortedSet.BTree.WellFormed.Divided.{Divided}

-- All of a node but its parent.
abbrev pub body : BTreeNode → List ℕ × List ℕ × Bool × Option ℕ
body n = (n.items, n.children, n.is_leaf, n.next)

-- The node `p` has become `left`, and `new` is the fresh node, which `q` has got for a child.
pub record Rewired (ns ns' : List BTreeNode) (p q : ℕ) (left new : BTreeNode) (promoted : ℕ)
    (moved : List ℕ) : Type 0 where
  pub grown : length ns' ≡ suc (length ns)
  pub others : (x : ℕ) → x < length ns → x ≢ p → x ≢ q → body (node ns' x) ≡ body (node ns x)
  pub lower : body (node ns' p) ≡ body left
  pub upper : body (node ns' q) ≡ body (linked (node ns q) p promoted (length ns))
  pub added : node ns' (length ns) ≡ new
  pub moved_parent : (x : ℕ) → x < length ns → In x moved → (node ns' x).parent ≡ some (length ns)
  pub same_parent :
      (x : ℕ) → x < length ns → ¬ (In x moved) → (node ns' x).parent ≡ (node ns x).parent

-- The two parts of a node `n` under `q`.
pub record Parts (n left new : BTreeNode) (q : ℕ) (kept moved : List ℕ) : Type 0 where
  pub left_leaf : left.is_leaf ≡ n.is_leaf
  pub left_parent : left.parent ≡ n.parent
  pub left_children : n.is_leaf ≡ false → left.children ≡ kept
  pub left_full : n.is_leaf ≡ false → length kept ≡ suc (length left.items)
  pub new_leaf : new.is_leaf ≡ n.is_leaf
  pub new_parent : new.parent ≡ some q
  pub new_children : new.children ≡ moved
  pub new_full : n.is_leaf ≡ false → length moved ≡ suc (length new.items)
  pub split : n.is_leaf ≡ false → n.children ≡ kept ++ moved
  pub of_leaf : n.is_leaf ≡ true → moved ≡ []

module _ (ns mid : List BTreeNode) (p q : ℕ) (left new : BTreeNode) (promoted : ℕ)
    (kept moved : List ℕ) (p_in : p < length ns) (q_in : q < length ns) (ne : p ≢ q)
    (p_out : ¬ (In p moved)) (q_out : ¬ (In q moved)) (fresh_out : ¬ (In (length ns) moved))
    (r : Reparented (length ns) moved (set ns p left ++ new ∷ []) mid)
    (parts : Parts (node ns p) left new q kept moved) where
  base : List BTreeNode
  base = set ns p left ++ new ∷ []

  base-length : length base ≡ suc (length ns)
  unfolding base
  base-length = omega (arith, length-append (set ns p left) (new ∷ []), length-set ns p left)

  base-old : (x : ℕ) → x < length ns → x ≢ p → node base x ≡ node ns x
  unfolding base
  base-old x lt other =
      get_or-append_old (set ns p left) (new ∷ []) x empty_leaf
        (omega (arith, length-set ns p left))
      ∙ get_or-set_ne ns p x left empty_leaf (λ e. other (sym e))

  base-p : node base p ≡ left
  unfolding base
  base-p =
      get_or-append_old (set ns p left) (new ∷ []) p empty_leaf
        (omega (arith, length-set ns p left))
      ∙ get_or-set_self ns p left empty_leaf p_in

  base-fresh : node base (length ns) ≡ new
  unfolding base
  base-fresh =
      ap (λ n. node (set ns p left ++ new ∷ []) n) (sym (length-set ns p left))
      ∙ get_or-append_new (set ns p left) new empty_leaf

  mid-length : length mid ≡ suc (length ns)
  unfolding base
  mid-length = r.same_length ∙ base-length

  mid-q : node mid q ≡ node ns q
  unfolding base
  mid-q = r.elsewhere q q_out ∙ base-old q q_in (λ e. ne (sym e))

  result : List BTreeNode
  result = set mid q (linked (node mid q) p promoted (length ns))

  result-other : (x : ℕ) → x ≢ q → node result x ≡ node mid x
  unfolding result
  result-other x other = get_or-set_ne mid q x _ empty_leaf (λ e. other (sym e))

  result-q : node result q ≡ linked (node ns q) p promoted (length ns)
  unfolding result
  result-q =
      get_or-set_self mid q _ empty_leaf (omega (arith, mid-length))
      ∙ ap (λ n. linked n p promoted (length ns)) mid-q

  mid-body : (x : ℕ) → x < suc (length ns) → body (node mid x) ≡ body (node base x)
  unfolding base
  mid-body x lt = elim (in? x moved) [
    | inl i ↦ ap body (r.among x (omega (arith, base-length)) i)
    | inr n ↦ ap body (r.elsewhere x n)
  ]

  parent_stays :
      (x : ℕ) → x < length ns → ¬ (In x moved) → (node result x).parent ≡ (node ns x).parent
  unfolding base
  parent_stays x lt n = elim (ℕ_discrete x q) [
    | yes e ↦
        ap (λ y. (node result y).parent) e
        ∙ ap (λ m. m.parent) result-q
        ∙ ap (λ y. (node ns y).parent) (sym e)
    | no other ↦
        ap (λ m. m.parent) (result-other x other ∙ r.elsewhere x n) ∙ (elim (ℕ_discrete x p) [
          | yes e ↦
              ap (λ y. (node base y).parent) e
              ∙ ap (λ m. m.parent) base-p
              ∙ parts.left_parent
              ∙ ap (λ y. (node ns y).parent) (sym e)
          | no far ↦ ap (λ m. m.parent) (base-old x lt far)
        ])
  ]

  pub rewired :
      Rewired ns
        (set mid q (linked (node mid q) p promoted (length ns)))
        p
        q
        left
        new
        promoted
        moved
  unfolding base result
  rewired = record {
    grown = length-set mid q _ ∙ mid-length;
    others = λ x lt far other.
        ap body (result-other x other) ∙ mid-body x (omega arith) ∙ ap body (base-old x lt far);
    lower = ap body (result-other p ne) ∙ mid-body p (omega arith) ∙ ap body base-p;
    upper = ap body result-q;
    added =
        result-other (length ns) (λ e. absurd (omega (arith, e)))
        ∙ r.elsewhere (length ns) fresh_out
        ∙ base-fresh;
    moved_parent = λ x lt i.
        ap (λ m. m.parent)
          (result-other x (λ e. q_out (rw e at i)) ∙ r.among x (omega (arith, base-length)) i);
    same_parent = parent_stays;
  }

-- The children that a split passes on, as the invariant sees it.
module _ (ns ns' : List BTreeNode) (p q : ℕ) (left new : BTreeNode) (promoted : ℕ)
    (kept moved : List ℕ) (p_in : p < length ns) (q_in : q < length ns) (ne : p ≢ q)
    (parts : Parts (node ns p) left new q kept moved)
    (r : Rewired ns ns' p q left new promoted moved) where
  pub leaves_stay : (x : ℕ) → x < length ns → (node ns' x).is_leaf ≡ (node ns x).is_leaf
  leaves_stay x lt = elim (ℕ_discrete x p) [
    | yes e ↦ rw e (ap (λ b. b.2) r.lower ∙ parts.left_leaf)
    | no far ↦ elim (ℕ_discrete x q) [
      | yes e ↦ rw e (ap (λ b. b.2) r.upper)
      | no other ↦ ap (λ b. b.2) (r.others x lt far other)
    ]
  ]

  inner_was : (node ns' p).is_leaf ≡ false → (node ns p).is_leaf ≡ false
  inner_was e = sym (leaves_stay p p_in) ∙ e

  inner_new : (node ns' (length ns)).is_leaf ≡ false → (node ns p).is_leaf ≡ false
  inner_new e = sym (ap (λ n. n.is_leaf) r.added ∙ parts.new_leaf) ∙ e

  insert_length :
      (n : ℕ) (is : List ℕ) (i : ℕ) → length (take n is ++ i ∷ drop n is) ≡ suc (length is)
  insert_length n is i = omega (
    arith,
    length-append (take n is) (i ∷ drop n is),
    length-append (take n is) (drop n is),
    ap length (take-drop n is),
  )

  pub Rewired-Divided :
      Divided ns ns' p q
        (take (child_index p (node ns q).children + 1) (node ns q).children)
        (drop (child_index p (node ns q).children + 1) (node ns q).children)
        kept
        moved
  Rewired-Divided = record {
    grown = r.grown;
    split = parts.split;
    of_leaf = parts.of_leaf;
    around = sym (take-drop (child_index p (node ns q).children + 1) (node ns q).children);
    upper_children = ap (λ b. b.1) r.upper;
    upper_items =
        ap (λ b. length b.0) r.upper
        ∙ insert_length (child_index p (node ns q).children) (node ns q).items promoted;
    lower_children = λ e. ap (λ b. b.1) r.lower ∙ parts.left_children (inner_was e);
    lower_full = λ e. parts.left_full (inner_was e) ∙ ap (λ b. suc (length b.0)) (sym r.lower);
    fresh_leaf = ap (λ n. n.is_leaf) r.added ∙ parts.new_leaf;
    fresh_children = ap (λ n. n.children) r.added ∙ parts.new_children;
    fresh_parent = ap (λ n. n.parent) r.added ∙ parts.new_parent;
    fresh_full = λ e. parts.new_full (inner_new e) ∙ ap (λ n. suc (length n.items)) (sym r.added);
    same_leaf = leaves_stay;
    same_children = λ x lt far other. ap (λ b. b.1) (r.others x lt far other);
    same_items = λ x lt far other. ap (λ b. b.0) (r.others x lt far other);
    moved_parent = r.moved_parent;
    same_parent = r.same_parent;
  }
