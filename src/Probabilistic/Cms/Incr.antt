-- ===== src/Probabilistic/Cms/Incr.antt =====
-- `IncrBy` of internal/data_structure/probabilistic/cms.go, row by row.
use redi_go.Prelude.{
  Bytes, ℕ, zero, suc, ◌+◌, ◌≤◌, ◌<◌, List, ◌≡◌, ◌≢◌, refl, ap, arith, length, set, ◌∙◌, get_or,
  length-set, get_or-set_self, get_or-set_ne, ℕ_discrete,
}
use redi_go.Go.Result.{ok}
use redi_go.Probabilistic.Cms.{Cms, max_uint64, bump, lower, incr_loop, incr_by, count}
use redi_go.Probabilistic.Cms.Rows.{
  IsSketch, row_min, row_min_ext, slot, cell, slot-lt, slot_row, position-slot, read_counter-cell,
  count_ok,
}

pub bump_bounds : (value x : ℕ) → x ≤ max_uint64 → (x ≤ bump value x) × (bump value x ≤ max_uint64)
unfolding bump
bump_bounds value x h = ground arith

module _ (hash : Bytes → ℕ → ℕ) (item : Bytes) (value : ℕ) where
  -- The write of one row, and those of `n` rows from row `i`.
  bump_row : Cms → ℕ → Cms
  bump_row c i = record c {
    counter = set c.counter (slot hash c.width item i) (bump value (cell hash c item i));
  }

  pub bump_rows : ℕ → ℕ → Cms → Cms
  bump_rows zero i c = c
  bump_rows (suc n) i c = bump_rows n (i + 1) (bump_row c i)

  set_fits :
      (xs : List ℕ) (i v : ℕ)
      → i < length xs
      → v ≤ max_uint64
      → ((j : ℕ) → get_or xs j 0 ≤ max_uint64)
      → (j : ℕ) → get_or (set xs i v) j 0 ≤ max_uint64
  set_fits xs i v h b all j = elim (ℕ_discrete i j) [
    | yes p ↦ rw (← p, get_or-set_self xs i v 0 h) b
    | no q ↦ rw (get_or-set_ne xs i j v 0 q) (all j)
  ]

  slot_in :
      {c : Cms} (i : ℕ) → IsSketch c → i < c.depth → slot hash c.width item i < length c.counter
  slot_in {c} i k h = omega (arith, slot-lt hash c.width c.depth item i k.width_pos h, k.full)

  bump_row-IsSketch : {c : Cms} (i : ℕ) → IsSketch c → i < c.depth → IsSketch (bump_row c i)
  unfolding bump_row cell
  bump_row-IsSketch {c} i k h = record {
    width_pos = k.width_pos;
    full = omega (
      arith,
      k.full,
      length-set c.counter (slot hash c.width item i) (bump value (cell hash c item i)),
    );
    fits = k.fits;
    cells_fit =
        set_fits c.counter (slot hash c.width item i) _ (slot_in i k h)
          (bump_bounds value (cell hash c item i) (k.cells_fit (slot hash c.width item i))).1
          k.cells_fit;
  }

  cell-bump_row_self :
      {c : Cms} (i : ℕ)
      → IsSketch c
      → i < c.depth
      → cell hash (bump_row c i) item i ≡ bump value (cell hash c item i)
  unfolding bump_row cell
  cell-bump_row_self {c} i k h = get_or-set_self c.counter _ _ 0 (slot_in i k h)

  cell-bump_row_ne :
      {c : Cms} (other : Bytes) (i r : ℕ)
      → IsSketch c
      → i ≢ r
      → cell hash (bump_row c i) other r ≡ cell hash c other r
  unfolding bump_row cell
  cell-bump_row_ne {c} other i r k h =
      get_or-set_ne c.counter (slot hash c.width item i) (slot hash c.width other r) _ 0
        (λ e. h (slot_row hash c.width item other i r k.width_pos e))

  -- No counter falls.
  cell-bump_row_le :
      {c : Cms} (other : Bytes) (i r : ℕ)
      → IsSketch c
      → i < c.depth
      → cell hash c other r ≤ cell hash (bump_row c i) other r
  unfolding bump_row cell
  cell-bump_row_le {c} other i r k h =
      elim (ℕ_discrete (slot hash c.width item i) (slot hash c.width other r)) [
        | yes p ↦
            rw
              (
                ← p,
                get_or-set_self c.counter (slot hash c.width item i)
                    (bump value (cell hash c item i)) 0 (slot_in i k h),
              )
              (bump_bounds value (cell hash c item i) (k.cells_fit (slot hash c.width item i))).0
        | no q ↦
            rw (get_or-set_ne c.counter _ _ (bump value (cell hash c item i)) 0 q) (omega arith)
      ]

  depth-bump_rows : (n i : ℕ) (c : Cms) → (bump_rows n i c).depth ≡ c.depth
  unfolding bump_rows bump_row
  depth-bump_rows zero i c = refl
  depth-bump_rows (suc n) i c = depth-bump_rows n (i + 1) (bump_row c i)

  -- The loop of `IncrBy` returns; it makes these writes, and its result is the least value written.
  incr_loop_ok :
      (n i low : ℕ) (c : Cms)
      → IsSketch c
      → i + n ≡ c.depth
      → incr_loop hash n i c item value low
        ≡ ok (bump_rows n i c, row_min n i (λ r. bump value (cell hash c item r)) low)
  unfolding incr_loop bump_rows row_min bump_row
  incr_loop_ok zero i low c k e = refl
  incr_loop_ok (suc n) i low c k e =
      let low' = lower (bump value (cell hash c item i)) low in
      let same =
        row_min_ext n (i + 1) (λ r. bump value (cell hash (bump_row c i) item r))
          (λ r. bump value (cell hash c item r)) low'
          (λ r a b. ap (bump value) (cell-bump_row_ne item i r k (omega arith))) in
      rw (position-slot hash item i k (omega arith), read_counter-cell hash item i k (omega arith))
        (incr_loop_ok n (i + 1) low' (bump_row c i) (bump_row-IsSketch i k (omega arith))
            (omega arith)
          ∙ (λ j. ok (bump_rows n (i + 1) (bump_row c i), same j)))

  bump_rows-IsSketch :
      (n i : ℕ) (c : Cms) → IsSketch c → i + n ≡ c.depth → IsSketch (bump_rows n i c)
  unfolding bump_rows bump_row
  bump_rows-IsSketch zero i c k e = k
  bump_rows-IsSketch (suc n) i c k e =
      bump_rows-IsSketch n (i + 1) (bump_row c i) (bump_row-IsSketch i k (omega arith))
        (omega arith)

  cell_before :
      (n i : ℕ) (c : Cms) (r : ℕ)
      → IsSketch c
      → i + n ≡ c.depth
      → r < i
      → cell hash (bump_rows n i c) item r ≡ cell hash c item r
  unfolding bump_rows bump_row
  cell_before zero i c r k e h = refl
  cell_before (suc n) i c r k e h =
      cell_before n (i + 1) (bump_row c i) r (bump_row-IsSketch i k (omega arith)) (omega arith)
        (omega arith)
      ∙ cell-bump_row_ne item i r k (omega arith)

  -- Every counter of the item is raised once.
  cell-bump_rows :
      (n i : ℕ) (c : Cms) (r : ℕ)
      → IsSketch c
      → i + n ≡ c.depth
      → i ≤ r
      → r < i + n
      → cell hash (bump_rows n i c) item r ≡ bump value (cell hash c item r)
  unfolding bump_rows bump_row
  cell-bump_rows zero i c r k e a b = absurd (omega arith)
  cell-bump_rows (suc n) i c r k e a b =
      let k' = bump_row-IsSketch i k (omega arith) in
      elim (ℕ_discrete i r) [
        | yes p ↦ rw (← p) (
            cell_before n (i + 1) (bump_row c i) i k' (omega arith) (omega arith)
            ∙ cell-bump_row_self i k (omega arith))
        | no q ↦
            cell-bump_rows n (i + 1) (bump_row c i) r k' (omega arith) (omega arith) (omega arith)
            ∙ ap (bump value) (cell-bump_row_ne item i r k q)
      ]

  cell-bump_rows_le :
      (n i : ℕ) (c : Cms) (other : Bytes) (r : ℕ)
      → IsSketch c
      → i + n ≡ c.depth
      → cell hash c other r ≤ cell hash (bump_rows n i c) other r
  unfolding bump_rows bump_row
  cell-bump_rows_le zero i c other r k e = omega arith
  cell-bump_rows_le (suc n) i c other r k e = omega (
    arith,
    cell-bump_row_le other i r k (omega arith),
    cell-bump_rows_le n (i + 1) (bump_row c i) other r (bump_row-IsSketch i k (omega arith))
        (omega arith),
  )

  -- The sketch after `IncrBy`.
  pub incremented : Cms → Cms
  incremented c = bump_rows c.depth 0 c

  pub incremented-IsSketch : {c : Cms} → IsSketch c → IsSketch (incremented c)
  unfolding incremented
  incremented-IsSketch {c} k = bump_rows-IsSketch c.depth 0 c k (omega arith)

  pub depth-incremented : (c : Cms) → (incremented c).depth ≡ c.depth
  unfolding incremented
  depth-incremented c = depth-bump_rows c.depth 0 c

  pub cell-incremented :
      {c : Cms} (r : ℕ)
      → IsSketch c
      → r < c.depth
      → cell hash (incremented c) item r ≡ bump value (cell hash c item r)
  unfolding incremented
  cell-incremented {c} r k h =
      cell-bump_rows c.depth 0 c r k (omega arith) (omega arith) (omega arith)

  pub cell-le-incremented :
      {c : Cms} (other : Bytes) (r : ℕ)
      → IsSketch c
      → cell hash c other r ≤ cell hash (incremented c) other r
  unfolding incremented
  cell-le-incremented {c} other r k = cell-bump_rows_le c.depth 0 c other r k (omega arith)

  pub incr_by_ok :
      {c : Cms}
      → IsSketch c
      → incr_by hash c item value
        ≡ ok (incremented c, row_min c.depth 0 (λ r. bump value (cell hash c item r)) max_uint64)
  unfolding incr_by incremented
  incr_by_ok {c} k = incr_loop_ok c.depth 0 max_uint64 c k (omega arith)

  -- `IncrBy` returns what `Count` returns for the item afterwards, and leaves a well-formed sketch.
  pub count-incr_by :
      (c : Cms)
      → IsSketch c
      → (c' : Cms) × (n : ℕ) × (incr_by hash c item value ≡ ok (c', n))
        × (count hash c' item ≡ ok n)
        × IsSketch c'
  count-incr_by c k = (
    incremented c,
    row_min c.depth 0 (λ r. bump value (cell hash c item r)) max_uint64,
    incr_by_ok k,
    count_ok hash item (incremented-IsSketch k)
        ∙ ap (λ (n : ℕ). ok (row_min n 0 (cell hash (incremented c) item) max_uint64))
            (depth-incremented c)
        ∙ ap ok (
            row_min_ext c.depth 0 (cell hash (incremented c) item)
              (λ r. bump value (cell hash c item r)) max_uint64
              (λ r a b. cell-incremented r k (omega arith))),
    incremented-IsSketch k,
  )
