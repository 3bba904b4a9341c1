-- ===== src/SortedSet/BTree/Ranks.antt =====
-- The queries of internal/data_structure/sorted_set/btree_index.go against the list of the items.
use redi_go.Prelude.{
  Bytes, ℕ, zero, suc, ◌+◌, ◌-◌, ◌≤◌, ◌<◌, List, [], ◌∷◌, ◌++◌, append_assoc, append-nil, ◌≡◌, refl,
  sym, ap, ◌∙◌, true, false, Option, none, some, arith, beq, beq_iff, ltb, leb, ◌==◌, if◌then◌else◌,
  Bool-cases, inl, inr, length, length-append, get_elem?, take, drop, ℕ_discrete,
}
use redi_go.Prelude.Int.{ℤ, pos, negsuc}
use redi_go.Go.Result.{ok, ◌>>=◌, bind_assoc}
use redi_go.Go.Float.{Floats}
use redi_go.SortedSet.Item.{Item}
use redi_go.SortedSet.BTree.{
  BTreeNode, Tree, BTreeIndex, visit_items, rank_visit, rank_result, get_rank, by_rank_visit,
  get_by_rank, range_by_rank_visit, get_range_by_rank, count_leaves, count,
}
use redi_go.SortedSet.BTree.Leaves.{
  node, node_at-node, Chain, Leaves, leaf_items, first_leaf-Leftmost, walk-Leaves,
}

-- What bounds the loops: the levels of the index and the number of its leaves.
pub record Enough (fuel k : ℕ) (ls : List ℕ) : Type 0 where
  pub levels : k < fuel
  pub leaves : suc (length ls) < fuel

count_leaves-Chain :
    (ls : List ℕ) (fuel : ℕ) (ns : List BTreeNode) (start : Option ℕ) (n : ℕ)
    → Chain ns start ls
    → length ls < fuel
    → count_leaves fuel ns start n ≡ ok (n + length (leaf_items ns ls))
unfolding count_leaves
count_leaves-Chain ls zero ns start n c lt = elim lt [ ]
count_leaves-Chain [] (suc fuel) ns start n c lt = rw (c, count_leaves) (ap ok (omega arith))
count_leaves-Chain (p ∷ ps) (suc fuel) ns start n (e, inside, leaf, c) lt =
    rw (e, count_leaves, node_at-node ns p inside)
      (count_leaves-Chain ps fuel ns (node ns p).next _ c (omega arith)
        ∙ ap ok (omega (arith, length-append (node ns p).items (leaf_items ns ps))))

-- `Count` is the number of the items in the leaves.
pub count-Leaves :
    (fuel : ℕ) (t : Tree) (k l : ℕ) (ls : List ℕ)
    → Leaves t k l ls
    → Enough fuel k ls
    → count fuel t ≡ ok (length (leaf_items t.nodes (l ∷ ls)))
unfolding count
count-Leaves fuel t k l ls v m =
    rw (first_leaf-Leftmost k fuel t.nodes t.root l v.first m.levels)
      (count_leaves-Chain (l ∷ ls) fuel t.nodes (some l) 0 v.chain m.leaves ∙ ap ok (omega arith))

visit-by_rank :
    (is : List ℕ) (rank current : ℕ)
    → current ≤ rank
    → (visit_items (by_rank_visit rank) is (current, none) >>= λ r. ok r.0.1)
      ≡ ok (get_elem? is (rank - current))
unfolding visit_items by_rank_visit
visit-by_rank [] rank current le = refl
visit-by_rank (i ∷ is) rank current le = elim (Bool-cases (current == rank)) [
  | inl b ↦ let e : rank - current ≡ 0 = ground arith in rw (by_rank_visit, b, e) refl
  | inr b ↦
      let e : rank - current ≡ suc (rank - suc current) = ground arith in
      rw (by_rank_visit, b, e) (visit-by_rank is rank (suc current) (ground arith))
]

take-nil : (n : ℕ) → take {A = ℕ} n [] ≡ []
take-nil zero = refl
take-nil (suc n) = refl

drop-nil : (n : ℕ) → drop {A = ℕ} n [] ≡ []
drop-nil zero = refl
drop-nil (suc n) = refl

-- From a position in the range on, what is left of it is collected behind `result`.
visit_inside :
    (is : List ℕ) (start end : ℕ) (result : List ℕ) (current : ℕ)
    → start ≤ current
    → (visit_items (range_by_rank_visit start end) is (result, current) >>= λ r. ok r.0.0)
      ≡ ok (result ++ take (suc end - current) is)
unfolding visit_items range_by_rank_visit
visit_inside [] start end result current le = rw (take-nil (suc end - current), append-nil) refl
visit_inside (i ∷ is) start end result current le =
    let at : leb start current ≡ true = ground arith in
    elim (Bool-cases (ltb end current)) [
      | inl past ↦
          let e : suc end - current ≡ 0 = ground arith in
          let over : leb current end ≡ false = ground arith in
          rw (range_by_rank_visit, at, over, past, e) (rw append-nil refl)
      | inr more ↦
          let e : suc end - current ≡ suc (suc end - suc current) = ground arith in
          let within : leb current end ≡ true = ground arith in
          rw (range_by_rank_visit, at, within, more, e)
            (visit_inside is start end (result ++ i ∷ []) (suc current) (omega arith)
              ∙ ap ok (append_assoc result (i ∷ []) _))
    ]

visit-range_by_rank :
    (is : List ℕ) (start end : ℕ) (result : List ℕ) (current : ℕ)
    → start ≤ end
    → current ≤ start
    → (visit_items (range_by_rank_visit start end) is (result, current) >>= λ r. ok r.0.0)
      ≡ ok (result ++ take (suc end - start) (drop (start - current) is))
unfolding visit_items range_by_rank_visit
visit-range_by_rank [] start end result current le before =
    rw (drop-nil (start - current), take-nil (suc end - start), append-nil) refl
visit-range_by_rank (i ∷ is) start end result current le before = elim (ℕ_discrete current start) [
  | yes e ↦
      let none_left : start - current ≡ 0 = omega (arith, e) in
      rw none_left (
        visit_inside (i ∷ is) start end result current (omega (arith, e))
        ∙ ap (λ n. ok (result ++ take (suc end - n) (i ∷ is))) e)
  | no early ↦
      let e : start - current ≡ suc (start - suc current) = omega (arith, early) in
      let below : leb start current ≡ false = ground (arith, early) in
      let more : ltb end current ≡ false = ground (arith, early) in
      rw (range_by_rank_visit, below, more, e)
        (visit-range_by_rank is start end result (suc current) le (omega (arith, early)))
]

module _ (F : Floats) where
  -- The pointers `is` point to the items `xs`.
  abbrev pub PointTo : List (Item F) → List ℕ → List (Item F) → Type 0
  PointTo store [] [] = Unit {0}
  PointTo store [] (x ∷ xs) = ⊥
  PointTo store (i ∷ is) [] = ⊥
  PointTo store (i ∷ is) (x ∷ xs) = (get_elem? store i ≡ some x) × PointTo store is xs

  -- The position of a member from `rank` on, or -1.
  abbrev pub rank_in : Bytes → ℕ → List (Item F) → ℤ
  rank_in member rank [] = negsuc 0
  rank_in member rank (x ∷ xs) =
      if beq x.member member then pos rank else rank_in member (suc rank) xs

  visit-rank_in :
      (store : List (Item F)) (member : Bytes) (is : List ℕ) (xs : List (Item F)) (rank : ℕ)
      → PointTo store is xs
      → (visit_items (rank_visit F store member) is (rank, none) >>= λ r. ok (rank_result F r.0))
        ≡ ok (rank_in member rank xs)
  unfolding visit_items rank_visit
  visit-rank_in store member [] [] rank e = refl
  visit-rank_in store member [] (x ∷ xs) rank e = elim e [ ]
  visit-rank_in store member (i ∷ is) [] rank e = elim e [ ]
  visit-rank_in store member (i ∷ is) (x ∷ xs) rank (e, es) =
      elim (Bool-cases (beq x.member member)) [
        | inl b ↦ rw (e, b) refl
        | inr b ↦ rw (e, b) (visit-rank_in store member is xs (suc rank) es)
      ]

  -- On an index whose leaves, from the first below the root along `Next`, hold pointers to the items `xs`,
  -- and with fuel for its levels and leaves, `GetRank` returns the position of the first item of the member
  -- in `xs`, or -1 if there is none.
  pub get_rank-Leaves :
      (fuel : ℕ) (t : BTreeIndex F) (member : Bytes) (k l : ℕ) (ls : List ℕ) (xs : List (Item F))
      → Leaves t.tree k l ls
      → PointTo t.store (leaf_items t.tree.nodes (l ∷ ls)) xs
      → Enough fuel k ls
      → get_rank F fuel t member ≡ ok (rank_in member 0 xs)
  unfolding get_rank
  get_rank-Leaves fuel t member k l ls xs v p m =
      rw
        (walk-Leaves (rank_visit F t.store member) fuel t.tree k l ls (0, none) v m.levels m.leaves)
        (bind_assoc
            (visit_items (rank_visit F t.store member) (leaf_items t.tree.nodes (l ∷ ls)) (0, none))
            _ _
          ∙ visit-rank_in t.store member (leaf_items t.tree.nodes (l ∷ ls)) xs 0 p)

  -- With enough fuel `GetByRank` is the item at that position of the leaves, if there is one.
  pub get_by_rank-Leaves :
      (fuel : ℕ) (t : BTreeIndex F) (rank k l : ℕ) (ls : List ℕ)
      → Leaves t.tree k l ls
      → Enough fuel k ls
      → get_by_rank F fuel t (pos rank) ≡ ok (get_elem? (leaf_items t.tree.nodes (l ∷ ls)) rank)
  unfolding get_by_rank
  get_by_rank-Leaves fuel t rank k l ls v m =
      rw (walk-Leaves (by_rank_visit rank) fuel t.tree k l ls (0, none) v m.levels m.leaves) (
        bind_assoc (visit_items (by_rank_visit rank) (leaf_items t.tree.nodes (l ∷ ls)) (0, none)) _
          _
        ∙ visit-by_rank (leaf_items t.tree.nodes (l ∷ ls)) rank 0 (omega arith)
        ∙ ap (λ n. ok (get_elem? (leaf_items t.tree.nodes (l ∷ ls)) n)) (omega arith))

  -- On an index whose leaves are those of a chain along `Next`, and with fuel for its levels and leaves,
  -- `GetRangeByRank` of two positions `start` <= `end` returns the items of the leaves from the one to the
  -- other, both included, as far as there are any.
  pub get_range_by_rank-Leaves :
      (fuel : ℕ) (t : BTreeIndex F) (start end k l : ℕ) (ls : List ℕ)
      → Leaves t.tree k l ls
      → Enough fuel k ls
      → start ≤ end
      → get_range_by_rank F fuel t (pos start) (pos end)
        ≡ ok (take (suc end - start) (drop start (leaf_items t.tree.nodes (l ∷ ls))))
  unfolding get_range_by_rank
  get_range_by_rank-Leaves fuel t start end k l ls v m le =
      let order : ltb end start ≡ false = ground arith in
      rw
        (
          get_range_by_rank,
          order,
          walk-Leaves (range_by_rank_visit start end) fuel t.tree k l ls ([], 0) v m.levels
              m.leaves,
        )
        (bind_assoc
            (visit_items (range_by_rank_visit start end) (leaf_items t.tree.nodes (l ∷ ls)) ([], 0))
            _ _
          ∙ visit-range_by_rank (leaf_items t.tree.nodes (l ∷ ls)) start end [] 0 le (omega arith)
          ∙ ap (λ n. ok (take (suc end - start) (drop n (leaf_items t.tree.nodes (l ∷ ls)))))
              (omega arith))

  rank_in-found :
      (store : List (Item F)) (member : Bytes) (is : List ℕ) (xs : List (Item F)) (rank r : ℕ)
      → PointTo store is xs
      → rank_in member rank xs ≡ pos r
      → (i : ℕ) × (x : Item F) × (rank ≤ r)
        × (get_elem? is (r - rank) ≡ some i)
        × (get_elem? store i ≡ some x)
        × (x.member ≡ member)
  rank_in-found store member [] [] rank r p e = cc
  rank_in-found store member [] (x ∷ xs) rank r p e = elim p [ ]
  rank_in-found store member (i ∷ is) [] rank r p e = elim p [ ]
  rank_in-found store member (i ∷ is) (x ∷ xs) rank r (p, ps) e =
      elim (Bool-cases (beq x.member member)) [
        | inl b ↦
            let here : pos rank ≡ pos r = rw b at e in
            let same : rank ≡ r = cc in
            let first : r - rank ≡ 0 = omega (arith, same) in
            (i, x, omega (arith, same), rw first refl, p, (beq_iff x.member member).0 b)
        | inr b ↦
            let (j, y, le, at, there, name) =
              rank_in-found store member is xs (suc rank) r ps (rw b at e) in
            let later : r - rank ≡ suc (r - suc rank) = omega (arith, le) in
            (j, y, omega (arith, le), rw later at, there, name)
      ]

  -- On an index whose leaves hold pointers to the items `xs`, and with fuel for its levels and leaves, if
  -- `GetRank` returns a rank for a member then `GetByRank` of that rank returns an item of that member.
  pub get_by_rank-get_rank :
      (fuel : ℕ) (t : BTreeIndex F) (member : Bytes) (r k l : ℕ) (ls : List ℕ) (xs : List (Item F))
      → Leaves t.tree k l ls
      → PointTo t.store (leaf_items t.tree.nodes (l ∷ ls)) xs
      → Enough fuel k ls
      → get_rank F fuel t member ≡ ok (pos r)
      → (i : ℕ) × (x : Item F) × (get_by_rank F fuel t (pos r) ≡ ok (some i))
        × (get_elem? t.store i ≡ some x)
        × (x.member ≡ member)
  get_by_rank-get_rank fuel t member r k l ls xs v p m e =
      let known : ok (rank_in member 0 xs) ≡ ok (pos r) =
        sym (get_rank-Leaves fuel t member k l ls xs v p m) ∙ e in
      let rank_is : rank_in member 0 xs ≡ pos r = cc in
      let (i, x, le, at, there, name) =
        rank_in-found t.store member (leaf_items t.tree.nodes (l ∷ ls)) xs 0 r p rank_is in
      (
        i,
        x,
        get_by_rank-Leaves fuel t r k l ls v m
            ∙ ap (λ n. ok (get_elem? (leaf_items t.tree.nodes (l ∷ ls)) n)) (omega arith)
            ∙ ap ok at,
        there,
        name,
      )
