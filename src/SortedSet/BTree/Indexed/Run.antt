-- ===== src/SortedSet/BTree/Indexed/Run.antt =====
-- Sequences of `Add` from `NewBTreeIndex` on (btree_index.go).
use redi_go.Prelude.{
  Bytes, ℕ, zero, suc, ◌+◌, ◌≤◌, ◌<◌, List, [], ◌∷◌, ◌≡◌, refl, sym, ap, ◌∙◌, true, false, inl, inr,
  some, none, arith, length, length-append, ◌==◌, In,
}
use mathlib.Core.Path.{transport}
use redi_go.Go.Result.{Result, ok, ◌>>=◌}
use redi_go.Go.Float.{Floats}
use redi_go.SortedSet.BTree.{Tree, BTreeIndex, empty_leaf, new_btree, count}
use redi_go.SortedSet.BTree.Add.{add}
use redi_go.SortedSet.BTree.Indexed.{Indexed}
use redi_go.SortedSet.BTree.Indexed.Insert.{Added, add-Indexed}
use redi_go.SortedSet.BTree.Indexed.SplitNode.{Holding}
use redi_go.SortedSet.BTree.Leaves.{node}
use redi_go.SortedSet.BTree.Ranks.{count-Leaves}
use redi_go.SortedSet.BTree.WellFormed.{WellFormed}

is_zero : (x : ℕ) → (x == 0) ≡ true → x ≡ 0
is_zero x e = ground arith

-- An index whose root is a leaf with the items `is`.
abbrev pub lone : ℕ → List ℕ → Tree
lone degree is = record { nodes = record empty_leaf { items = is } ∷ []; root = 0; degree = degree }

only_leaf : (degree q : ℕ) (is : List ℕ) → (node (lone degree is).nodes q).is_leaf ≡ true
only_leaf degree zero is = refl
only_leaf degree (suc q) is = refl

no_parent : (degree q : ℕ) (is : List ℕ) → (node (lone degree is).nodes q).parent ≡ none
no_parent degree zero is = refl
no_parent degree (suc q) is = refl

module _ (degree : ℕ) (is : List ℕ) where
  no_inner : (q : ℕ) → (node (lone degree is).nodes q).is_leaf ≡ false → ⊥
  no_inner q e = absurd (let no_leaf : true ≡ false = sym (only_leaf degree q is) ∙ e in cc)

  lone-WellFormed : WellFormed (lone degree is).nodes (λ x. x == 0) (λ x. 0) 0
  lone-WellFormed = record {
    root_live = ground arith;
    inside = λ p lp. let e = is_zero p lp in omega (arith, e);
    top = λ p lp e. is_zero p lp;
    top_root = refl;
    low = λ p lp. omega arith;
    up = λ p q lp e. absurd (let n : none ≡ some q = sym (no_parent degree p is) ∙ e in cc);
    down = λ q c lq inner i. absurd (no_inner q inner);
    full = λ q lq inner. absurd (no_inner q inner);
    distinct = λ q lq inner. absurd (no_inner q inner);
  }

  pub lone-Indexed :
      (bound : ℕ)
      → ((i : ℕ) → In i is → i < bound)
      → Indexed (lone degree is) (λ x. x == 0) (λ x. 0) 0 0 [] bound
  lone-Indexed bound inside = record {
    shape = lone-WellFormed;
    leaves = record { first = (refl, omega arith, refl); chain = (refl, omega arith, refl, refl) };
    once = ((λ i. i), tt);
    all = λ p lp leaf. inl (is_zero p lp);
    pointing = λ p i lp m.
        inside i
          (transport (ap (λ x. In i (node (lone degree is).nodes x).items) (is_zero p lp)) m);
  }

pub new_btree-Holding : (degree : ℕ) → Holding (new_btree degree) 0 0 degree 0 []
unfolding new_btree
new_btree-Holding degree = record {
  live = λ x. x == 0;
  height = λ x. 0;
  levels = 0;
  others = [];
  index = lone-Indexed degree [] 0 (λ i m. elim m [ ]);
  items = refl;
  degree_same = refl;
  high = omega arith;
}

pub raise :
    (t : Tree) (l bound d top top' : ℕ) (is : List ℕ)
    → Holding t l bound d top is
    → top ≤ top'
    → Holding t l bound d top' is
raise t l bound d top top' is h le = record {
  live = h.live;
  height = h.height;
  levels = h.levels;
  others = h.others;
  index = h.index;
  items = h.items;
  degree_same = h.degree_same;
  high = let high = h.high in omega (arith, high, le);
}

module _ (F : Floats) where
  -- The calls of `Add` for a list of scores and members, and the sum of their results.
  abbrev pub add_all : ℕ → BTreeIndex F → List (F.Float × Bytes) → Result (BTreeIndex F × ℕ)
  add_all fuel t [] = ok (t, 0)
  add_all fuel t ((score, member) ∷ xs) = do
    r ← add F fuel t score member
    rest ← add_all fuel r.0 xs
    ok (rest.0, r.1 + rest.1)

  -- The index holds as many items as there are results to add up.
  abbrev pub Grew : BTreeIndex F → ℕ → ℕ → ℕ → ℕ → Type 0
  Grew t' l d top size =
      (is : List ℕ) × Holding t'.tree l (length t'.store) d top is × (length is ≡ size)

  Added-length :
      (t t' : BTreeIndex F) (l top : ℕ) (is : List ℕ) (score : F.Float) (member : Bytes) (r : ℕ)
      → (a : Added F t t' l top is score member r) → length a.new_is ≡ length is + r
  Added-length t t' l top is score member r a = elim a.outcome [
    | inl (e, (xs, ys, was, now), stored) ↦ omega (
      arith,
      e,
      ap length was,
      ap length now,
      length-append xs ys,
      length-append xs (length t.store ∷ ys),
    )
    | inr (e, same, rest) ↦ omega (arith, e, ap length same)
  ]

  pub add_all-Grew :
      (fuel : ℕ) (t : BTreeIndex F) (xs : List (F.Float × Bytes)) (l d top : ℕ) (is : List ℕ)
      → Holding t.tree l (length t.store) d top is
      → 2 ≤ d
      → top + length xs < fuel
      → (t' : BTreeIndex F) × (n : ℕ) × (add_all fuel t xs ≡ ok (t', n))
        × Grew t' l d (top + length xs) (length is + n)
  unfolding add
  add_all-Grew fuel t [] l d top is h wide enough = (
    t,
    0,
    refl,
    (is, raise t.tree l (length t.store) d top (top + 0) is h (omega arith), omega arith),
  )
  add_all-Grew fuel t ((score, []) ∷ xs) l d top is h wide enough =
      let (t', n, e, (js, g, size)) =
        add_all-Grew fuel t xs l d top is h wide (omega (arith, enough)) in
      (
        t',
        n,
        rw e (ap (λ r. ok (t', r)) (omega arith)),
        (
          js,
          raise t'.tree l (length t'.store) d (top + length xs) (top + suc (length xs)) js g
              (omega arith),
          size,
        ),
      )
  add_all-Grew fuel t ((score, b ∷ s) ∷ xs) l d top is h wide enough =
      let high = h.high in
      let (t1, r, e, a) =
        add-Indexed F fuel t score b s h.live h.height h.levels l h.others h.index
          (omega (arith, h.degree_same, wide)) (omega (arith, high, enough)) in
      let grew = Added-length t t1 l (suc (h.height t.tree.root)) _ score (b ∷ s) r a in
      let next : Holding t1.tree l (length t1.store) d (suc top) a.new_is =
        raise t1.tree l (length t1.store) d (suc (h.height t.tree.root)) (suc top) a.new_is
          (transport
            (ap (λ c. Holding t1.tree l (length t1.store) c (suc (h.height t.tree.root)) a.new_is)
              h.degree_same)
            a.holding)
          (omega (arith, high)) in
      let (t', n, f, (js, g, size)) =
        add_all-Grew fuel t1 xs l d (suc top) a.new_is next wide (omega (arith, enough)) in
      (
        t',
        r + n,
        rw (e, f) refl,
        (
          js,
          raise t'.tree l (length t'.store) d (suc top + length xs) (top + suc (length xs)) js g
              (omega arith),
          omega (arith, size, grew, ap length h.items),
        ),
      )

-- From a new index of a degree of at least 2 on, with more fuel than there are calls, any sequence of calls of
-- `Add` returns, and then `Count` (with enough fuel) is the number of the calls that returned 1.
pub count-add_all :
    (F : Floats) (degree : ℕ) (xs : List (F.Float × Bytes))
    → 2 ≤ degree
    → (t' : BTreeIndex F) × (n : ℕ) × (m : ℕ) × (add_all F
          (suc (length xs))
          (record { tree = new_btree degree; store = [] })
          xs
        ≡ ok (t', n))
      × ((fuel : ℕ) → m < fuel → count fuel t'.tree ≡ ok n)
count-add_all F degree xs wide =
    let (t', n, e, (is, h, size)) =
      add_all-Grew F (suc (length xs)) (record { tree = new_btree degree; store = [] }) xs 0 degree
        0 [] (new_btree-Holding degree) wide (omega arith) in
    (
      t',
      n,
      h.levels + suc (length h.others),
      e,
      λ fuel lt.
          count-Leaves fuel t'.tree h.levels 0 h.others h.index.leaves
            (record { levels = omega (arith, lt); leaves = omega (arith, lt) })
          ∙ ap ok (omega (arith, size, ap length h.items)),
    )
