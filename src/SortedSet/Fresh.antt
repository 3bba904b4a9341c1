-- ===== src/SortedSet/Fresh.antt =====
-- Calls of `Add` of sorted_set.go over the B+ tree, with members that are new to the set.
use redi_go.Prelude.{
  Bytes, ℕ, suc, ◌+◌, ◌≤◌, ◌<◌, List, [], ◌∷◌, ◌≡◌, refl, sym, ap, ◌∙◌, Bool-cases, inl, inr,
  Option, none, some, arith, beq, beq_iff, if◌then◌else◌, length, In, Distinct,
}
use mathlib.Core.Path.{transport}
use redi_go.Go.Map
use redi_go.Go.Map.{Map, IsMap, held}
use redi_go.Go.Float.{Floats}
use redi_go.Go.Result.{Result, ok, ◌>>=◌}
use redi_go.SortedSet.{new_sorted_set, add, get_score}
use redi_go.SortedSet.Indexes.{btree_index}
use redi_go.SortedSet.Agreeing.{TreeSet, Agreeing, add-Agreeing, new-Agreeing}

module _ (F : Floats) (fuel degree : ℕ) where
  -- The calls of `Add` for a list of scores and members, and the sum of their results.
  abbrev pub add_each :
      TreeSet F fuel degree → List (F.Float × Bytes) → Result (TreeSet F fuel degree × ℕ)
  add_each ss [] = ok (ss, 0)
  add_each ss ((score, member) ∷ xs) = do
    r ← add F (btree_index F fuel degree) ss score member
    rest ← add_each r.0 xs
    ok (rest.0, r.1 + rest.1)

  abbrev pub members_of : List (F.Float × Bytes) → List Bytes
  members_of [] = []
  members_of ((score, member) ∷ xs) = member ∷ members_of xs

  -- The score that the list gives to a member, which had the score `old`.
  abbrev pub given_score : List (F.Float × Bytes) → Bytes → Option F.Float → Option F.Float
  given_score [] j old = old
  given_score ((score, member) ∷ xs) j old =
      given_score xs j (if beq member j then some score else old)

  unknown_after :
      (scores : Map F.Float) (m : Bytes) (score : F.Float) (xs : List (F.Float × Bytes))
      → ¬ (In m (members_of xs))
      → ((j : Bytes) → In j (m ∷ members_of xs) → Map.get scores j ≡ none)
      → (j : Bytes) → In j (members_of xs)
      → Map.get (Map.put scores m score) j ≡ none
  unknown_after scores m score xs apart new j i =
      Map.get-put scores m j score ∙ elim (Bool-cases (beq m j)) [
        | inl e ↦
            absurd (apart (transport (ap (λ k. In k (members_of xs)) (sym ((beq_iff m j).0 e))) i))
        | inr e ↦ rw e (new j (inr i))
      ]

  add_each-step :
      (ss : TreeSet F fuel degree) (xs : List (F.Float × Bytes)) (l top : ℕ)
      → Agreeing F fuel degree ss l top
      → ¬ (In [] (members_of xs))
      → Distinct (members_of xs)
      → ((j : Bytes) → In j (members_of xs) → Map.get ss.member_score j ≡ none)
      → 2 ≤ degree
      → top + length xs < fuel
      → (ss' : TreeSet F fuel degree) × (add_each ss xs ≡ ok (ss', length xs))
        × ((j : Bytes) → Map.get ss'.member_score j ≡ given_score xs j (Map.get ss.member_score j))
        × Agreeing F fuel degree ss' l (top + length xs)
  add_each-step ss [] l top a named apart new wide enough = (
    ss,
    refl,
    (λ j. refl),
    transport (ap (Agreeing F fuel degree ss l) (let e : top ≡ top + 0 = omega arith in e)) a,
  )
  add_each-step ss ((score, []) ∷ xs) l top a named apart new wide enough =
      absurd (named (inl refl))
  add_each-step ss ((score, b ∷ s) ∷ xs) l top a named apart new wide enough =
      let (s1, e, scores, a1) =
        add-Agreeing F fuel degree ss score b s l top a (new (b ∷ s) (inl refl)) wide
          (omega (arith, enough)) in
      let (s2, f, rest, a2) =
        add_each-step s1 xs l (suc top) a1 (λ i. named (inr i)) apart.1
          (λ j i.
            ap (λ m. Map.get m j) scores
            ∙ unknown_after ss.member_score (b ∷ s) score xs apart.0 new j i)
          wide (omega (arith, enough)) in
      (
        s2,
        rw (e, f) (ap (λ n. ok (s2, n)) (omega arith)),
        (λ j.
            rest j
            ∙ ap (given_score xs j)
                (ap (λ m. Map.get m j) scores ∙ Map.get-put ss.member_score (b ∷ s) j score)),
        transport
            (ap (Agreeing F fuel degree s2 l)
              (let n : suc top + length xs ≡ top + suc (length xs) = omega arith in n))
            a2,
      )

-- From a new sorted set over the B+ tree of a degree of at least 2 on, any sequence of calls of `Add` for members
-- that are not empty and all different, with more fuel for each call than there are calls, returns 1 each
-- time. Then each of them has the score of its call and no other member has a score, the index has its
-- invariant and at most as many levels below its root as there were calls, its leaves hold an item of each of the members and as many items as there are members, and each
-- item has the score of its member.
pub add_each-Agreeing :
    (F : Floats) (fuel degree : ℕ) (xs : List (F.Float × Bytes))
    → 2 ≤ degree
    → length xs < fuel
    → ¬ (In [] (members_of F fuel degree xs))
    → Distinct (members_of F fuel degree xs)
    → (ss : TreeSet F fuel degree) × (add_each F fuel degree
          (new_sorted_set F (btree_index F fuel degree))
          xs
        ≡ ok (ss, length xs))
      × ((j : Bytes)
          → get_score F (btree_index F fuel degree) ss j ≡ given_score F fuel degree xs j none)
      × Agreeing F fuel degree ss 0 (length xs)
unfolding new_sorted_set get_score
add_each-Agreeing F fuel degree xs wide enough named apart =
    let (ss, e, scores, a) =
      add_each-step F fuel degree (new_sorted_set F (btree_index F fuel degree)) xs 0 0
        (new-Agreeing F fuel degree) named apart (λ j i. Map.get-empty j) wide
        (omega (arith, enough)) in
    (
      ss,
      e,
      λ j. scores j ∙ ap (given_score F fuel degree xs j) (Map.get-empty j),
      transport
          (ap (Agreeing F fuel degree ss 0) (let n : 0 + length xs ≡ length xs = omega arith in n))
          a,
    )
