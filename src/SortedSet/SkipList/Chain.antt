-- ===== src/SortedSet/SkipList/Chain.antt =====
-- The lowest level of the skip list of internal/data_structure/sorted_set/skiplist_index.go as one list.
use redi_go.Prelude.{
  Bytes, ℕ, zero, suc, ◌<◌, List, [], ◌∷◌, ◌≡◌, refl, Bool-cases, inl, inr, Option, none, some,
  arith, beq, if◌then◌else◌, length, get_elem?,
}
use redi_go.Go.Result.{ok}
use redi_go.Go.Float.{Floats}
use redi_go.SortedSet.SkipList.{
  SkiplistLevel, SkiplistNode, SkipList, find_from, find_member, level_at,
}

module _ (F : Floats) where
  -- A node and the pointer to it.
  abbrev pub Entry : Type 0
  Entry = ℕ × SkiplistNode F

  -- The forward pointers of the lowest level lead from `start` through the entries and end there.
  abbrev pub Chain : List (SkiplistNode F) → Option ℕ → List Entry → Type 0
  Chain ns start [] = start ≡ none
  Chain ns start ((p, n) ∷ es) =
      (start ≡ some p)
      × (get_elem? ns p ≡ some n)
      × ((l : SkiplistLevel) × (get_elem? n.levels 0 ≡ some l) × Chain ns l.forward es)

  -- The first entry of a member.
  abbrev pub first_of : Bytes → List Entry → Option ℕ
  first_of member [] = none
  first_of member ((p, n) ∷ es) = if beq n.ele member then some p else first_of member es

  find_from-Chain :
      (es : List Entry) (fuel : ℕ) (ns : List (SkiplistNode F)) (member : Bytes) (start : Option ℕ)
      → Chain ns start es
      → length es < fuel
      → find_from F fuel ns member start ≡ ok (first_of member es)
  unfolding find_from
  find_from-Chain es zero ns member start c lt = elim lt [ ]
  find_from-Chain [] (suc fuel) ns member start c lt = rw (c, find_from) refl
  find_from-Chain ((p, n) ∷ es) (suc fuel) ns member start (e, at, (l, low, c)) lt =
      elim (Bool-cases (beq n.ele member)) [
        | inl b ↦ rw (e, find_from, at, low, b) refl
        | inr b ↦
            rw (e, find_from, at, low, b)
              (find_from-Chain es fuel ns member l.forward c (omega arith))
      ]

  -- On a skip list whose lowest level leads from the head through the entries `es`, with more fuel than there are
  -- entries, `findMember` returns the first entry of the member, or nil if there is none.
  pub find_member-Chain :
      (fuel : ℕ) (sl : SkipList F) (member : Bytes) (head : SkiplistLevel) (es : List Entry)
      → level_at F sl.nodes 0 0 ≡ ok head
      → Chain sl.nodes head.forward es
      → length es < fuel
      → find_member F fuel sl member ≡ ok (first_of member es)
  unfolding find_member
  find_member-Chain fuel sl member head es at c lt =
      rw at (find_from-Chain es fuel sl.nodes member head.forward c lt)
