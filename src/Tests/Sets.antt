-- ===== src/Tests/Sets.antt =====
-- A small set.
use redi_go.Prelude.{Bytes, codes, ◌+◌, [], ◌∷◌, ◌≡◌, refl, ◌||◌, beq, listed}
use redi_go.Go.Map
use redi_go.SimpleSet.{new_simple_set, has, add_loop, add_one, add, is_member}
use redi_go.SimpleSet.Laws.{as_count, add_lem}

abbrev a : Bytes
a = codes "a"

abbrev b : Bytes
b = codes "b"

add_lem_example :
    (is_member (add (new_simple_set a) (a ∷ b ∷ a ∷ [])).0 b
      ≡ as_count (listed b (a ∷ b ∷ a ∷ []) || has (new_simple_set a) b))
    × (Map.size (add (new_simple_set a) (a ∷ b ∷ a ∷ [])).0.dict
        ≡ Map.size (new_simple_set a).dict + (add (new_simple_set a) (a ∷ b ∷ a ∷ [])).1)
unfolding new_simple_set
add_lem_example = add_lem (new_simple_set a) (a ∷ b ∷ a ∷ []) b (Map.empty-IsMap (Unit {0}))

add_counts : (add (new_simple_set a) (a ∷ b ∷ a ∷ [])).1 ≡ 2
unfolding add add_loop add_one new_simple_set has beq Map.get Map.put Map.empty Map.find Map.without
add_counts = refl
