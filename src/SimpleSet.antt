-- ===== src/SimpleSet.antt =====
-- internal/data_structure/simple_set/simple_set.go. A method returns the new set beside its result.
pub mod Laws
use redi_go.Prelude.{
  Bytes, ℕ, ◌+◌, List, [], ◌∷◌, ◌++◌, Bool, true, false, Option, none, some, if◌then◌else◌,
}
use redi_go.Go.Map
use redi_go.Go.Map.{Map}

pub record SimpleSet : Type 0 where
  pub key : Bytes
  pub dict : Map (Unit {0})

unfoldable pub new_simple_set : Bytes → SimpleSet
new_simple_set key = record { key = key; dict = Map.empty }

abbrev pub is_some {ℓ} : {A : Type ℓ} → Option A → Bool
is_some none = false
is_some (some a) = true

-- _, exist := s.dict[m]
unfoldable pub has : SimpleSet → Bytes → Bool
has s m = is_some (Map.get s.dict m)

abbrev insert : SimpleSet → Bytes → SimpleSet
insert s m = record s { dict = Map.put s.dict m tt }

abbrev erase : SimpleSet → Bytes → SimpleSet
erase s m = record s { dict = Map.delete s.dict m }

-- One round of `Add`, from the number added so far.
unfoldable pub add_one : Bytes → SimpleSet → ℕ → SimpleSet × ℕ
add_one m s added = if has s m then (s, added) else (insert s m, added + 1)

unfoldable pub add_loop : List Bytes → SimpleSet → ℕ → SimpleSet × ℕ
add_loop [] s added = (s, added)
add_loop (m ∷ ms) s added = let (s', added') = add_one m s added in add_loop ms s' added'

unfoldable pub add : SimpleSet → List Bytes → SimpleSet × ℕ
add s members = add_loop members s 0

-- One round of `Rem`, from the number removed so far.
unfoldable pub rem_one : Bytes → SimpleSet → ℕ → SimpleSet × ℕ
rem_one m s removed = if has s m then (erase s m, removed + 1) else (s, removed)

unfoldable pub rem_loop : List Bytes → SimpleSet → ℕ → SimpleSet × ℕ
rem_loop [] s removed = (s, removed)
rem_loop (m ∷ ms) s removed = let (s', removed') = rem_one m s removed in rem_loop ms s' removed'

unfoldable pub rem : SimpleSet → List Bytes → SimpleSet × ℕ
rem s members = rem_loop members s 0

unfoldable pub is_member : SimpleSet → Bytes → ℕ
is_member s member = if has s member then 1 else 0

-- The members, in the order in which the range visits the map: `visit` puts the keys in that order.
unfoldable pub members : (List Bytes → List Bytes) → SimpleSet → List Bytes
members visit s = visit (Map.keys s.dict)
