-- ===== src/SortedSet/Agreeing.antt =====
-- A sorted set of sorted_set.go over the B+ tree whose index and map of scores agree, and one `Add` to it.
use redi_go.Prelude.{
  Bytes, ℕ, zero, suc, ◌≤◌, ◌<◌, List, [], ◌∷◌, ◌++◌, ◌≡◌, refl, sym, ap, ◌∙◌, Bool-cases, inl, inr,
  none, some, arith, beq, beq_iff, beq_refl, length, length-append, get_elem?, In, In-insert,
  In-insert_cases, In-inserted,
}
use mathlib.Core.Path.{transport}
use redi_go.Go.Map
use redi_go.Go.Map.{Map, IsMap, held}
use redi_go.Go.Float.{Floats}
use redi_go.Go.Result.{ok}
use redi_go.SortedSet.{SortedSet, new_sorted_set, add, add_known, insert_score}
use redi_go.SortedSet.Indexes.{btree_index}
use redi_go.SortedSet.Item.{Item}
use redi_go.SortedSet.BTree.{BTreeIndex}
use redi_go.SortedSet.BTree.Indexed.Insert.{Inserted, add-Indexed}
use redi_go.SortedSet.BTree.Indexed.SplitNode.{Holding}
use redi_go.SortedSet.BTree.Indexed.Run.{raise, new_btree-Holding}

get_elem?-before :
    {A : Type 0} (xs ys : List A) (i : ℕ) (a : A)
    → get_elem? xs i ≡ some a
    → get_elem? (xs ++ ys) i ≡ some a
get_elem?-before [] ys i a e = absurd cc
get_elem?-before (x ∷ xs) ys zero a e = e
get_elem?-before (x ∷ xs) ys (suc i) a e = get_elem?-before xs ys i a e

get_elem?-last : {A : Type 0} (xs : List A) (a : A) → get_elem? (xs ++ a ∷ []) (length xs) ≡ some a
get_elem?-last [] a = refl
get_elem?-last (x ∷ xs) a = get_elem?-last xs a

module _ (F : Floats) where
  -- The item that the pointer `i` leads to is of a member with the score of the item.
  abbrev pub Scored : List (Item F) → Map F.Float → ℕ → Type 0
  Scored store scores i =
      (item : Item F) × (get_elem? store i ≡ some item)
      × (Map.get scores item.member ≡ some item.score)

  -- A pointer of the list leads to an item of the member.
  abbrev pub Held : List (Item F) → List ℕ → Bytes → Type 0
  Held store is j =
      (i : ℕ) × (item : Item F) × In i is × (get_elem? store i ≡ some item) × (item.member ≡ j)

  Scored-fresh :
      (store : List (Item F)) (scores : Map F.Float) (m : Bytes) (score : F.Float)
      → Scored
          (store ++ record { score = score; member = m } ∷ [])
          (Map.put scores m score)
          (length store)
  Scored-fresh store scores m score = (
    record { score = score; member = m },
    get_elem?-last store (record { score = score; member = m }),
    Map.get-put scores m m score ∙ rw (beq_refl m) refl,
  )

  Scored-old :
      (store : List (Item F)) (scores : Map F.Float) (m : Bytes) (score : F.Float) (i : ℕ)
      → Map.get scores m ≡ none
      → Scored store scores i
      → Scored (store ++ record { score = score; member = m } ∷ []) (Map.put scores m score) i
  Scored-old store scores m score i new (item, at, given) = (
    item,
    get_elem?-before store _ i item at,
    Map.get-put scores m item.member score ∙ elim (Bool-cases (beq m item.member)) [
      | inl e ↦
          let same : m ≡ item.member = (beq_iff m item.member).0 e in
          absurd (
            let none_some : none ≡ some item.score = sym new ∙ ap (Map.get scores) same ∙ given in
            cc)
      | inr e ↦ rw e given
    ],
  )

  module _ (fuel degree : ℕ) where
    abbrev pub TreeSet : Type 0
    TreeSet = SortedSet F (btree_index F fuel degree)

    -- The index has its invariant and a height of at most `top`, its leaves hold one item for each member of the map
    -- of scores and one of each member, and each item has the score that its member has there.
    pub record Agreeing (ss : TreeSet) (l top : ℕ) : Type 0 where
      pub is : List ℕ
      pub holding : Holding ss.index.tree l (length ss.index.store) degree top is
      pub scored : (i : ℕ) → In i is → Scored ss.index.store ss.member_score i
      pub listed :
          (j : Bytes) (score : F.Float)
          → Map.get ss.member_score j ≡ some score
          → Held ss.index.store is j
      pub as_many : length is ≡ Map.size ss.member_score
      pub no_two : IsMap ss.member_score

    module _ (t t' : BTreeIndex F) (scores : Map F.Float) (score : F.Float) (b : ℕ) (s : Bytes)
        (is js : List ℕ) (new : Map.get scores (b ∷ s) ≡ none)
        (stored : t'.store ≡ t.store ++ record { score = score; member = b ∷ s } ∷ [])
        (put_in : Inserted (length t.store) is js) where
      Inserted-Scored :
          ((i : ℕ) → In i is → Scored t.store scores i)
          → (i : ℕ) → In i js
          → Scored t'.store (Map.put scores (b ∷ s) score) i
      Inserted-Scored old i m =
          let (xs, ys, was, now) = put_in in
          transport (ap (λ store. Scored store (Map.put scores (b ∷ s) score) i) (sym stored))
            (elim (In-insert_cases i (length t.store) xs ys (transport (ap (In i) now) m)) [
              | inl e ↦
                  transport
                    (ap
                      (λ n.
                        Scored (t.store ++ record { score = score; member = b ∷ s } ∷ [])
                          (Map.put scores (b ∷ s) score) n)
                      (sym e))
                    (Scored-fresh t.store scores (b ∷ s) score)
              | inr o ↦
                  Scored-old t.store scores (b ∷ s) score i new
                    (old i (transport (ap (In i) (sym was)) o))
            ])

      Inserted-Held :
          ((j : Bytes) (x : F.Float) → Map.get scores j ≡ some x → Held t.store is j)
          → (j : Bytes) (x : F.Float) → Map.get (Map.put scores (b ∷ s) score) j ≡ some x
          → Held t'.store js j
      Inserted-Held old j x there =
          let (xs, ys, was, now) = put_in in
          let fresh : Item F = record { score = score; member = b ∷ s } in
          elim (Bool-cases (beq (b ∷ s) j)) [
            | inl e ↦ (
              length t.store,
              fresh,
              transport (ap (In (length t.store)) (sym now)) (In-inserted (length t.store) xs ys),
              ap (λ store. get_elem? store (length t.store)) stored ∙ get_elem?-last t.store fresh,
              (beq_iff (b ∷ s) j).0 e,
            )
            | inr e ↦
                let before : Map.get scores j ≡ some x =
                  (rw e refl) ∙ sym (Map.get-put scores (b ∷ s) j score) ∙ there in
                let (i, item, m, at, name) = old j x before in
                (
                  i,
                  item,
                  transport (ap (In i) (sym now))
                      (In-insert i (length t.store) xs ys (transport (ap (In i) was) m)),
                  ap (λ store. get_elem? store i) stored ∙ get_elem?-before t.store _ i item at,
                  name,
                )
          ]

      Inserted-size :
          IsMap scores
          → length is ≡ Map.size scores
          → length js ≡ Map.size (Map.put scores (b ∷ s) score)
      Inserted-size no_two as_many =
          let (xs, ys, was, now) = put_in in
          let none_held : held (Map.get scores (b ∷ s)) ≡ 0 = ap held new in
          omega (
            arith,
            as_many,
            none_held,
            Map.size-put scores (b ∷ s) score no_two,
            ap length was,
            ap length now,
            length-append xs ys,
            length-append xs (length t.store ∷ ys),
          )

    -- `Add` of a member without a score.
    pub add-Agreeing :
        (ss : TreeSet) (score : F.Float) (b : ℕ) (s : Bytes) (l top : ℕ)
        → Agreeing ss l top
        → Map.get ss.member_score (b ∷ s) ≡ none
        → 2 ≤ degree
        → top < fuel
        → (ss' : TreeSet) × (add F (btree_index F fuel degree) ss score (b ∷ s) ≡ ok (ss', 1))
          × (ss'.member_score ≡ Map.put ss.member_score (b ∷ s) score)
          × Agreeing ss' l (suc top)
    unfolding add add_known insert_score
    add-Agreeing ss score b s l top a new wide enough =
        let h = a.holding in
        let high = h.high in
        let t = ss.index in
        let (t', r, e, added) =
          add-Indexed F fuel t score b s h.live h.height h.levels l h.others h.index
            (omega (arith, h.degree_same, wide)) (omega (arith, high, enough)) in
        let ss' : TreeSet = record {
          index = t';
          member_score = Map.put ss.member_score (b ∷ s) score;
        } in
        elim added.outcome [
          | inl (one, put_in, stored) ↦
              let put_in' : Inserted (length t.store) a.is added.new_is =
                transport (ap (λ is. Inserted (length t.store) is added.new_is) h.items) put_in in
              (
                ss',
                rw (new, e, one) refl,
                refl,
                record {
                  is = added.new_is;
                  holding =
                      raise t'.tree l (length t'.store) degree (suc (h.height t.tree.root))
                        (suc top) added.new_is
                        (transport
                          (ap
                            (λ c.
                              Holding t'.tree l (length t'.store) c (suc (h.height t.tree.root))
                                added.new_is)
                            h.degree_same)
                          added.holding)
                        (omega (arith, high));
                  scored =
                      Inserted-Scored t t' ss.member_score score b s a.is added.new_is new stored
                        put_in' a.scored;
                  listed =
                      Inserted-Held t t' ss.member_score score b s a.is added.new_is new stored
                        put_in' a.listed;
                  as_many =
                      Inserted-size t t' ss.member_score score b s a.is added.new_is new stored
                        put_in' a.no_two a.as_many;
                  no_two = Map.put-IsMap ss.member_score (b ∷ s) score a.no_two;
                },
              )
          | inr (zero_back, same, (i, item, m, at, name, changed)) ↦
              let (item', at', given) = a.scored i (transport (ap (In i) h.items) m) in
              let it : item' ≡ item = (let q : some item' ≡ some item = sym at' ∙ at in cc) in
              absurd (
                let none_some : none ≡ some item'.score =
                  sym new
                  ∙ ap (Map.get ss.member_score) (sym (ap (λ x. x.member) it ∙ name))
                  ∙ given in
                cc)
        ]

    pub new-Agreeing : Agreeing (new_sorted_set F (btree_index F fuel degree)) 0 0
    unfolding new_sorted_set
    new-Agreeing = record {
      is = [];
      holding = new_btree-Holding degree;
      scored = λ i m. elim m [ ];
      listed =
          λ j score e. absurd (let none_some : none ≡ some score = sym (Map.get-empty j) ∙ e in cc);
      as_many = sym (Map.size-empty F.Float);
      no_two = Map.empty-IsMap F.Float;
    }
