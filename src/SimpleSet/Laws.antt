-- ===== src/SimpleSet/Laws.antt =====
-- `Add` and `Rem` of internal/data_structure/simple_set against the sets that they stand for.
use redi_go.Prelude.{
  Bytes, ℕ, ◌+◌, List, [], ◌∷◌, ◌≡◌, refl, Bool, not, ◌&&◌, ◌||◌, arith, beq, beq_iff, listed,
  if◌then◌else◌,
}
use redi_go.Go.Map
use redi_go.Go.Map.{Map, IsMap}
use redi_go.SimpleSet.{SimpleSet, has, add_one, add_loop, add, rem_one, rem_loop, rem, is_member}

has-add_one :
    (x m : Bytes) (s : SimpleSet) (added : ℕ) → has (add_one x s added).0 m ≡ (beq x m || has s m)
unfolding add_one has
has-add_one x m s added = ground (arith, Map.get-put s.dict x m tt, beq_iff x m)

has-rem_one :
    (x m : Bytes) (s : SimpleSet) (removed : ℕ)
    → has (rem_one x s removed).0 m ≡ (not (beq x m) && has s m)
unfolding rem_one has
has-rem_one x m s removed = ground (arith, Map.get-delete s.dict x m, beq_iff x m)

-- What one round does to the size of the set and to the count.
size-add_one :
    (x : Bytes) (s : SimpleSet) (added : ℕ)
    → IsMap s.dict
    → IsMap (add_one x s added).0.dict
      × (Map.size (add_one x s added).0.dict + added ≡ Map.size s.dict + (add_one x s added).1)
unfolding add_one has
size-add_one x s added h = ground (arith, Map.put-IsMap s.dict x tt h, Map.size-put s.dict x tt h)

size-rem_one :
    (x : Bytes) (s : SimpleSet) (removed : ℕ)
    → IsMap s.dict
    → IsMap (rem_one x s removed).0.dict
      × (Map.size (rem_one x s removed).0.dict + (rem_one x s removed).1
          ≡ Map.size s.dict + removed)
unfolding rem_one has
size-rem_one x s removed h = ground (arith, Map.delete-IsMap s.dict x h, Map.size-delete s.dict x h)

has-add_loop :
    (ms : List Bytes) (s : SimpleSet) (added : ℕ) (m : Bytes)
    → has (add_loop ms s added).0 m ≡ (listed m ms || has s m)
unfolding add_loop
has-add_loop [] s added m = refl
has-add_loop (x ∷ ms) s added m =
    let (s', added') = add_one x s added in
    ground (arith, has-add_loop ms s' added' m, has-add_one x m s added)

has-rem_loop :
    (ms : List Bytes) (s : SimpleSet) (removed : ℕ) (m : Bytes)
    → has (rem_loop ms s removed).0 m ≡ (not (listed m ms) && has s m)
unfolding rem_loop
has-rem_loop [] s removed m = refl
has-rem_loop (x ∷ ms) s removed m =
    let (s', removed') = rem_one x s removed in
    ground (arith, has-rem_loop ms s' removed' m, has-rem_one x m s removed)

size-add_loop :
    (ms : List Bytes) (s : SimpleSet) (added : ℕ)
    → IsMap s.dict
    → IsMap (add_loop ms s added).0.dict
      × (Map.size (add_loop ms s added).0.dict + added ≡ Map.size s.dict + (add_loop ms s added).1)
unfolding add_loop
size-add_loop [] s added h = (h, refl)
size-add_loop (x ∷ ms) s added h =
    let (s', added') = add_one x s added in
    let (h', e) = size-add_one x s added h in
    let (h'', e') = size-add_loop ms s' added' h' in (h'', omega arith)

size-rem_loop :
    (ms : List Bytes) (s : SimpleSet) (removed : ℕ)
    → IsMap s.dict
    → IsMap (rem_loop ms s removed).0.dict
      × (Map.size (rem_loop ms s removed).0.dict + (rem_loop ms s removed).1
          ≡ Map.size s.dict + removed)
unfolding rem_loop
size-rem_loop [] s removed h = (h, refl)
size-rem_loop (x ∷ ms) s removed h =
    let (s', removed') = rem_one x s removed in
    let (h', e) = size-rem_one x s removed h in
    let (h'', e') = size-rem_loop ms s' removed' h' in (h'', omega arith)

abbrev pub as_count : Bool → ℕ
as_count b = if b then 1 else 0

-- After `Add` exactly the arguments and the old members are members, and the result is by how many
-- the set has grown; no key stands twice in the map of the set.
pub add_lem :
    (s : SimpleSet) (ms : List Bytes) (m : Bytes)
    → IsMap s.dict
    → (is_member (add s ms).0 m ≡ as_count (listed m ms || has s m))
      × (Map.size (add s ms).0.dict ≡ Map.size s.dict + (add s ms).1)
unfolding add is_member
add_lem s ms m h = (rw (has-add_loop ms s 0 m), omega (arith, (size-add_loop ms s 0 h).1))

-- After `Rem` exactly the old members that are no arguments are members, and the result is by how
-- many the set has shrunk; no key stands twice in the map of the set.
pub rem_lem :
    (s : SimpleSet) (ms : List Bytes) (m : Bytes)
    → IsMap s.dict
    → (is_member (rem s ms).0 m ≡ as_count (not (listed m ms) && has s m))
      × (Map.size (rem s ms).0.dict + (rem s ms).1 ≡ Map.size s.dict)
unfolding rem is_member
rem_lem s ms m h = (rw (has-rem_loop ms s 0 m), omega (arith, (size-rem_loop ms s 0 h).1))

-- No key stands twice in the map of the set after the operations.
pub add-IsMap : (s : SimpleSet) (ms : List Bytes) → IsMap s.dict → IsMap (add s ms).0.dict
unfolding add
add-IsMap s ms h = (size-add_loop ms s 0 h).0

pub rem-IsMap : (s : SimpleSet) (ms : List Bytes) → IsMap s.dict → IsMap (rem s ms).0.dict
unfolding rem
rem-IsMap s ms h = (size-rem_loop ms s 0 h).0
