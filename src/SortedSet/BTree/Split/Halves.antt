-- ===== src/SortedSet/BTree/Split/Halves.antt =====
-- The halves that splitLeaf and splitInternal of btree_index.go make of a node of a well-formed tree.
use redi_go.Prelude.{
  ℕ, suc, ◌+◌, ◌/◌, ◌≤◌, ◌<◌, List, [], ◌∷◌, ◌++◌, ◌≡◌, ◌≢◌, refl, sym, ap, ◌∙◌, Bool, true, false,
  Option, none, some, arith, leb, if◌then◌else◌, length, length-set, length-append, length-take,
  length-drop, get_elem?, get_elem?_total, set, take, drop, In, In-get_elem?, In-take, In-drop,
  take-drop, get_or-set_ne, get_or-append_old,
}
use redi_go.Go.Result.{Result, ok, panic, ◌>>=◌}
use redi_go.SortedSet.BTree.{BTreeNode, Tree, empty_leaf, element}
use redi_go.SortedSet.BTree.Add.{link_child, split_leaf, split_internal}
use redi_go.SortedSet.BTree.Leaves.{node, node_at-node}
use redi_go.SortedSet.BTree.Split.{linked, link_child_lem, nothing-Reparented, set_parents_lem}
use redi_go.SortedSet.BTree.Split.Rewired.{Rewired, Parts, rewired}
use redi_go.SortedSet.BTree.WellFormed.{WellFormed}

-- The two halves of the node `p`.
pub record Halves (ns ns' : List BTreeNode) (p q : ℕ) : Type 0 where
  pub left : BTreeNode
  pub new : BTreeNode
  pub promoted : ℕ
  pub kept : List ℕ
  pub moved : List ℕ
  pub parts : Parts (node ns p) left new q kept moved
  pub wired : Rewired ns ns' p q left new promoted moved
  pub promoted_from : In promoted (node ns p).items
  pub left_from : (i : ℕ) → In i left.items → In i (node ns p).items
  pub new_from : (i : ℕ) → In i new.items → In i (node ns p).items
  pub cut : (node ns p).is_leaf ≡ true → left.items ++ new.items ≡ (node ns p).items
  pub left_next : (node ns p).is_leaf ≡ true → left.next ≡ some (length ns)
  pub new_next : (node ns p).is_leaf ≡ true → new.next ≡ (node ns p).next
  pub first_child :
      (node ns p).is_leaf ≡ false → get_elem? left.children 0 ≡ get_elem? (node ns p).children 0

pub first-take : (n : ℕ) (xs : List ℕ) → get_elem? (take (n + 1) xs) 0 ≡ get_elem? xs 0
first-take n [] =
    ap (λ k. get_elem? (take {A = ℕ} k []) 0) (let e : n + 1 ≡ suc n = omega arith in e)
first-take n (x ∷ xs) =
    ap (λ k. get_elem? (take k (x ∷ xs)) 0) (let e : n + 1 ≡ suc n = omega arith in e)

module _ (t : Tree) (live : ℕ → Bool) (height : ℕ → ℕ) (root p q : ℕ)
    (w : WellFormed t.nodes live height root) (p_live : live p ≡ true)
    (up : (node t.nodes p).parent ≡ some q) (some_item : 1 ≤ length (node t.nodes p).items) where
  p_in : p < length t.nodes
  p_in = w.inside p p_live

  upper : (live q ≡ true) × ((node t.nodes q).is_leaf ≡ false) × In p (node t.nodes q).children
  upper = w.up p q p_live up

  q_in : q < length t.nodes
  q_in = w.inside q upper.0

  above : height q ≡ suc (height p)
  above = (w.down q p upper.0 upper.1 upper.2).2

  apart : p ≢ q
  apart e = let i : height p ≡ height q = ap height e in absurd (omega (arith, i, above))

  child_out :
      (x : ℕ)
      → (node t.nodes p).is_leaf ≡ false
      → height p ≤ height x
      → ¬ (In x (node t.nodes p).children)
  child_out x inner le i = let h = (w.down p x p_live inner i).2 in absurd (omega (arith, le, h))

  median : ℕ
  median = length (node t.nodes p).items / 2

  median_lt : median < length (node t.nodes p).items
  unfolding median
  median_lt = omega (arith, some_item)

  -- The parent still has its child when the two halves stand in the store.
  link_halves :
      (mid : List BTreeNode) (promoted : ℕ)
      → length mid ≡ suc (length t.nodes)
      → node mid q ≡ node t.nodes q
      → link_child (record t { nodes = mid }) q p promoted (length t.nodes)
        ≡ ok (record t { nodes = set mid q (linked (node mid q) p promoted (length t.nodes)) })
  link_halves mid promoted len same =
      link_child_lem (record t { nodes = mid }) q p promoted (length t.nodes)
        (omega (arith, len, q_in)) (rw same upper.2) (rw same (w.full q upper.0 upper.1))

  abbrev linking : Tree → Option ℕ → Option ℕ → Result (Tree × ℕ)
  linking t1 parent promotion = do
    q' ← element parent
    promoted ← element promotion
    t2 ← link_child t1 q' p promoted (length t.nodes)
    ok (t2, q')

  linking_lem :
      (t1 t2 : Tree) (parent promotion : Option ℕ) (promoted : ℕ)
      → parent ≡ some q
      → promotion ≡ some promoted
      → link_child t1 q p promoted (length t.nodes) ≡ ok t2
      → linking t1 parent promotion ≡ ok (t2, q)
  linking_lem t1 t2 parent promotion promoted e f g = rw (e, f, g) refl

  pub split_leaf_lem :
      (node t.nodes p).is_leaf ≡ true
      → (ns' : List BTreeNode) × (split_leaf t p ≡ ok (record t { nodes = ns' }, q))
        × Halves t.nodes ns' p q
  unfolding split_leaf median
  split_leaf_lem leaf =
      let n = node t.nodes p in
      let new : BTreeNode = record n {
        items = drop (length n.items / 2) n.items;
        children = [];
        is_leaf = true;
      } in
      let left : BTreeNode = record n {
        items = take (length n.items / 2) n.items;
        next = some (length t.nodes);
      } in
      let mid = set t.nodes p left ++ new ∷ [] in
      let (promoted, first) =
        get_elem?_total new.items 0
          (omega (arith, length-drop (length n.items / 2) n.items, some_item)) in
      let parts : Parts n left new q [] [] = record {
        left_leaf = refl;
        left_parent = refl;
        left_children = λ e. absurd cc;
        left_full = λ e. absurd cc;
        new_leaf = sym leaf;
        new_parent = up;
        new_children = refl;
        new_full = λ e. absurd cc;
        split = λ e. absurd cc;
        of_leaf = λ e. refl;
      } in
      let same : node mid q ≡ node t.nodes q =
        get_or-append_old (set t.nodes p left) (new ∷ []) q empty_leaf
          (omega (arith, length-set t.nodes p left, q_in))
        ∙ get_or-set_ne t.nodes p q left empty_leaf apart in
      let linked_up =
        link_halves mid promoted
          (omega (arith, length-append (set t.nodes p left) (new ∷ []), length-set t.nodes p left))
          same in
      (
        set mid q (linked (node mid q) p promoted (length t.nodes)),
        rw (node_at-node t.nodes p p_in) (
            linking_lem (record t { nodes = mid }) _ n.parent (get_elem? new.items 0) promoted up
              first linked_up),
        record {
          left = left;
          new = new;
          promoted = promoted;
          kept = [];
          moved = [];
          parts = parts;
          wired =
              rewired t.nodes mid p q left new promoted [] [] p_in q_in apart (λ i. i) (λ i. i)
                (λ i. i) (nothing-Reparented (length t.nodes) mid) parts;
          promoted_from =
              In-drop promoted (length n.items / 2) n.items
                (In-get_elem? new.items 0 promoted first);
          left_from = λ i m. In-take i (length n.items / 2) n.items m;
          new_from = λ i m. In-drop i (length n.items / 2) n.items m;
          cut = λ e. take-drop (length n.items / 2) n.items;
          left_next = λ e. refl;
          new_next = λ e. refl;
          first_child = λ e. absurd cc;
        },
      )

  abbrev halving : Option ℕ → Bool → Result (List BTreeNode) → Option ℕ → Result (Tree × ℕ)
  halving promotion room reparent parent = do
    promoted ← element promotion
    ns ← if room then reparent else panic
    q' ← element parent
    t2 ← link_child (record t { nodes = ns }) q' p promoted (length t.nodes)
    ok (t2, q')

  halving_lem :
      (mid : List BTreeNode) (t2 : Tree) (parent promotion : Option ℕ) (promoted : ℕ) (room : Bool)
      (reparent : Result (List BTreeNode))
      → promotion ≡ some promoted
      → room ≡ true
      → reparent ≡ ok mid
      → parent ≡ some q
      → link_child (record t { nodes = mid }) q p promoted (length t.nodes) ≡ ok t2
      → halving promotion room reparent parent ≡ ok (t2, q)
  halving_lem mid t2 parent promotion promoted room reparent a b c e g = rw (a, b, c, e, g) refl

  pub split_internal_lem :
      (node t.nodes p).is_leaf ≡ false
      → (ns' : List BTreeNode) × (split_internal t p ≡ ok (record t { nodes = ns' }, q))
        × Halves t.nodes ns' p q
  unfolding split_internal median
  split_internal_lem inner =
      let n = node t.nodes p in
      let m = length n.items / 2 in
      let kept = take (m + 1) n.children in
      let moved = drop (m + 1) n.children in
      let new : BTreeNode = record {
        items = drop (m + 1) n.items;
        children = moved;
        is_leaf = false;
        parent = n.parent;
        next = none;
      } in
      let left : BTreeNode = record n { items = take m n.items; children = kept } in
      let base = set t.nodes p left ++ new ∷ [] in
      let size = w.full p p_live inner in
      let (promoted, first) = get_elem?_total n.items m (omega (arith, some_item)) in
      let long : length base ≡ suc (length t.nodes) =
        omega (arith, length-append (set t.nodes p left) (new ∷ []), length-set t.nodes p left) in
      let was : (x : ℕ) → In x moved → In x n.children = λ x i. In-drop x (m + 1) n.children i in
      let (mid, e, r) = set_parents_lem (length t.nodes) moved base (λ x i.
        let lt = w.inside x (w.down p x p_live inner (was x i)).0 in omega (arith, lt, long)) in
      let parts : Parts n left new q kept moved = record {
        left_leaf = refl;
        left_parent = refl;
        left_children = λ e. refl;
        left_full = λ e.
            omega (arith, length-take (m + 1) n.children, length-take m n.items, size, some_item);
        new_leaf = sym inner;
        new_parent = up;
        new_children = refl;
        new_full = λ e.
            omega
              (arith, length-drop (m + 1) n.children, length-drop (m + 1) n.items, size, some_item);
        split = λ e. sym (take-drop (m + 1) n.children);
        of_leaf = λ e. absurd cc;
      } in
      let q_out : ¬ (In q moved) = λ i. child_out q inner (omega (arith, above)) (was q i) in
      let same : node mid q ≡ node t.nodes q =
        r.elsewhere q q_out
        ∙ get_or-append_old (set t.nodes p left) (new ∷ []) q empty_leaf
            (omega (arith, length-set t.nodes p left, q_in))
        ∙ get_or-set_ne t.nodes p q left empty_leaf apart in
      let linked_up = link_halves mid promoted (r.same_length ∙ long) same in
      let room : leb (m + 1) (length n.children) ≡ true = ground (arith, size, some_item) in
      (
        set mid q (linked (node mid q) p promoted (length t.nodes)),
        rw (node_at-node t.nodes p p_in) (
            halving_lem mid _ n.parent (get_elem? n.items m) promoted _ _ first room e up
              linked_up),
        record {
          left = left;
          new = new;
          promoted = promoted;
          kept = kept;
          moved = moved;
          parts = parts;
          wired =
              rewired t.nodes mid p q left new promoted kept moved p_in q_in apart
                (λ i. child_out p inner (omega arith) (was p i)) q_out
                (λ i.
                  let lt =
                    w.inside (length t.nodes)
                      (w.down p (length t.nodes) p_live inner (was (length t.nodes) i)).0 in
                  absurd (omega (arith, lt)))
                r parts;
          promoted_from = In-get_elem? n.items m promoted first;
          left_from = λ i j. In-take i m n.items j;
          new_from = λ i j. In-drop i (m + 1) n.items j;
          cut = λ e. absurd cc;
          left_next = λ e. absurd cc;
          new_next = λ e. absurd cc;
          first_child = λ e. first-take m n.children;
        },
      )
