-- ===== src/SortedSet/BTree/WellFormed/Grown.antt =====
-- The tree of internal/data_structure/sorted_set/btree_index.go after its root has got a parent (splitRoot).
use redi_go.Prelude.{
  ℕ, suc, ◌≤◌, ◌<◌, List, [], ◌∷◌, ◌++◌, ◌≡◌, ◌≢◌, refl, sym, ap, ◌∙◌, Bool, true, false, inl, inr,
  Option, none, some, arith, length, length-set, length-append, set, In, Distinct, get_or-set_self,
  get_or-set_ne, get_or-append_old, get_or-append_new, ℕ_discrete,
}
use mathlib.Core.Path.{transport}
use redi_go.SortedSet.BTree.{BTreeNode, empty_leaf}
use redi_go.SortedSet.BTree.Leaves.{node}
use redi_go.SortedSet.BTree.Split.Rewired.{body}
use redi_go.SortedSet.BTree.WellFormed.{
  WellFormed, also, with_height, also-cases, also-old, also_self, with_height_self, with_height-old,
}

abbrev pub new_root : ℕ → BTreeNode
new_root r = record { items = []; children = r ∷ []; is_leaf = false; parent = none; next = none }

abbrev pub grown : List BTreeNode → ℕ → List BTreeNode
grown ns r = set ns r (record (node ns r) { parent = some (length ns) }) ++ new_root r ∷ []

module _ (ns : List BTreeNode) (live : ℕ → Bool) (height : ℕ → ℕ) (r : ℕ)
    (w : WellFormed ns live height r) where
  pub r_in : r < length ns
  r_in = w.inside r w.root_live

  old_root : BTreeNode
  old_root = record (node ns r) { parent = some (length ns) }

  pub grown-length : length (grown ns r) ≡ suc (length ns)
  unfolding old_root
  grown-length =
      omega (arith, length-append (set ns r old_root) (new_root r ∷ []), length-set ns r old_root)

  pub grown-fresh : node (grown ns r) (length ns) ≡ new_root r
  unfolding old_root
  grown-fresh =
      ap (node (grown ns r)) (sym (length-set ns r old_root))
      ∙ get_or-append_new (set ns r old_root) (new_root r) empty_leaf

  grown-old : (x : ℕ) → x < length ns → node (grown ns r) x ≡ node (set ns r old_root) x
  unfolding old_root
  grown-old x lt =
      get_or-append_old (set ns r old_root) (new_root r ∷ []) x empty_leaf
        (omega (arith, length-set ns r old_root))

  pub grown-root : (node (grown ns r) r).parent ≡ some (length ns)
  unfolding old_root
  grown-root = ap (λ n. n.parent) (grown-old r r_in ∙ get_or-set_self ns r old_root empty_leaf r_in)

  grown-other : (x : ℕ) → x < length ns → x ≢ r → node (grown ns r) x ≡ node ns x
  unfolding old_root
  grown-other x lt ne = grown-old x lt ∙ get_or-set_ne ns r x old_root empty_leaf (λ e. ne (sym e))

  pub grown-body : (x : ℕ) → x < length ns → body (node (grown ns r) x) ≡ body (node ns x)
  unfolding old_root
  grown-body x lt = elim (ℕ_discrete x r) [
    | yes e ↦
        ap (λ y. body (node (grown ns r) y)) e
        ∙ ap body (grown-old r r_in ∙ get_or-set_self ns r old_root empty_leaf r_in)
        ∙ ap (λ y. body (node ns y)) (sym e)
    | no ne ↦ ap body (grown-other x lt ne)
  ]

  inner_before :
      (x : ℕ) → live x ≡ true → (node (grown ns r) x).is_leaf ≡ false → (node ns x).is_leaf ≡ false
  inner_before x lx e = sym (ap (λ b. b.2) (grown-body x (w.inside x lx))) ∙ e

  -- What holds of the new root and, as before, of the others holds of all inner nodes.
  everywhere :
      (P : List ℕ × List ℕ × Bool × Option ℕ → Type 0)
      → P (body (new_root r))
      → ((x : ℕ) → live x ≡ true → (node ns x).is_leaf ≡ false → P (body (node ns x)))
      → (x : ℕ) → also (length ns) live x ≡ true
      → (node (grown ns r) x).is_leaf ≡ false
      → P (body (node (grown ns r) x))
  everywhere P top rest x lx inner = elim (also-cases (length ns) x live lx) [
    | inl f ↦
        transport (ap P (sym (ap (λ y. body (node (grown ns r) y)) f ∙ ap body grown-fresh))) top
    | inr old ↦
        transport (ap P (sym (grown-body x (w.inside x old))))
          (rest x old (inner_before x old inner))
  ]

  height' : ℕ → ℕ
  height' = with_height (length ns) (suc (height r)) height

  height-old : (x : ℕ) → live x ≡ true → height' x ≡ height x
  unfolding height'
  height-old x lx = with_height-old (length ns) (suc (height r)) x height (w.inside x lx)

  height-fresh : height' (length ns) ≡ suc (height r)
  unfolding height'
  height-fresh = with_height_self (length ns) (suc (height r)) height

  -- A node with a parent is not the root.
  below : (x q : ℕ) → (node ns x).parent ≡ some q → x ≢ r
  below x q e s =
      absurd
        (let n : none ≡ some q = sym w.top_root ∙ ap (λ y. (node ns y).parent) (sym s) ∙ e in cc)

  Holds : ℕ → ℕ → Type 0
  Holds q c =
      (also (length ns) live c ≡ true)
      × ((node (grown ns r) c).parent ≡ some q)
      × (height' q ≡ suc (height' c))

  down' :
      (q c : ℕ)
      → also (length ns) live q ≡ true
      → (node (grown ns r) q).is_leaf ≡ false
      → In c (node (grown ns r) q).children
      → Holds q c
  unfolding Holds
  down' q c lq inner i = elim (also-cases (length ns) q live lq) [
    | inl f ↦
        let only : c ≡ r =
          elim (transport
            (ap (In c)
              (ap (λ y. (node (grown ns r) y).children) f ∙ ap (λ n. n.children) grown-fresh))
            i) [ inl e ↦ e | inr j ↦ absurd j ] in
        (
          rw only (also-old (length ns) r live w.root_live),
          ap (λ y. (node (grown ns r) y).parent) only ∙ grown-root ∙ ap some (sym f),
          ap height' f
              ∙ height-fresh
              ∙ ap suc (sym (height-old r w.root_live) ∙ ap height' (sym only)),
        )
    | inr old ↦
        let (lc, was, h) =
          w.down q c old (inner_before q old inner)
            (transport (ap (In c) (ap (λ b. b.1) (grown-body q (w.inside q old)))) i) in
        (
          also-old (length ns) c live lc,
          ap (λ n. n.parent) (grown-other c (w.inside c lc) (below c q was)) ∙ was,
          height-old q old ∙ h ∙ ap suc (sym (height-old c lc)),
        )
  ]

  Hangs : ℕ → ℕ → Type 0
  Hangs x q =
      (also (length ns) live q ≡ true)
      × ((node (grown ns r) q).is_leaf ≡ false)
      × In x (node (grown ns r) q).children

  up_fresh : Hangs r (length ns)
  unfolding Hangs
  up_fresh = (
    also_self (length ns) live,
    ap (λ n. n.is_leaf) grown-fresh,
    transport (ap (In r) (sym (ap (λ n. n.children) grown-fresh))) (inl refl),
  )

  up' :
      (x q : ℕ) → also (length ns) live x ≡ true → (node (grown ns r) x).parent ≡ some q → Hangs x q
  unfolding Hangs
  up' x q lx e = elim (also-cases (length ns) x live lx) [
    | inl f ↦ absurd (
        let n : none ≡ some q =
          sym (ap (λ y. (node (grown ns r) y).parent) f ∙ ap (λ n. n.parent) grown-fresh) ∙ e in
        cc)
    | inr old ↦ elim (ℕ_discrete x r) [
      | yes s ↦
          let n : some (length ns) ≡ some q =
            sym grown-root ∙ ap (λ y. (node (grown ns r) y).parent) (sym s) ∙ e in
          let m : length ns ≡ q = cc in
          transport (ap (λ y. Hangs y q) (sym s)) (transport (ap (Hangs r) m) up_fresh)
      | no ne ↦
          let (lq, inner, i) =
            w.up x q old (sym (ap (λ n. n.parent) (grown-other x (w.inside x old) ne)) ∙ e) in
          let same = grown-body q (w.inside q lq) in
          (
            also-old (length ns) q live lq,
            ap (λ b. b.2) same ∙ inner,
            transport (ap (In x) (sym (ap (λ b. b.1) same))) i,
          )
    ]
  ]

  top' :
      (x : ℕ) → also (length ns) live x ≡ true → (node (grown ns r) x).parent ≡ none → x ≡ length ns
  top' x lx e = elim (also-cases (length ns) x live lx) [
    | inl f ↦ f
    | inr old ↦ elim (ℕ_discrete x r) [
      | yes s ↦ absurd (
          let n : some (length ns) ≡ none =
            sym grown-root ∙ ap (λ y. (node (grown ns r) y).parent) (sym s) ∙ e in
          cc)
      | no ne ↦
          absurd
            (ne (w.top x old (sym (ap (λ n. n.parent) (grown-other x (w.inside x old) ne)) ∙ e)))
    ]
  ]

  low' : (x : ℕ) → also (length ns) live x ≡ true → height' x ≤ height' (length ns)
  low' x lx = elim (also-cases (length ns) x live lx) [
    | inl f ↦ omega (arith, ap height' f)
    | inr old ↦ omega (arith, height-old x old, height-fresh, w.low x old)
  ]

  pub grown-WellFormed :
      WellFormed
        (grown ns r)
        (also (length ns) live)
        (with_height (length ns) (suc (height r)) height)
        (length ns)
  unfolding height' Holds Hangs
  grown-WellFormed = record {
    root_live = also_self (length ns) live;
    inside = λ x lx. elim (also-cases (length ns) x live lx) [
      | inl f ↦ omega (arith, f, grown-length)
      | inr old ↦ omega (arith, w.inside x old, grown-length)
    ];
    top = top';
    top_root = ap (λ n. n.parent) grown-fresh;
    low = low';
    up = up';
    down = down';
    full = everywhere (λ b. length b.1 ≡ suc (length b.0)) refl w.full;
    distinct = everywhere (λ b. Distinct b.1) ((λ i. i), tt) w.distinct;
  }
