-- ===== src/Probabilistic/Cms/Rows.antt =====
-- The rows of a count-min sketch: where an item's counters stand, and their minimum.
use redi_go.Prelude.{
  Bytes, ℕ, zero, suc, ◌+◌, ◌*◌, ◌%◌, ◌^◌, ◌≤◌, ◌<◌, ◌≡◌, refl, ap, false, arith, ℕ_discrete,
  dec_lt, ◌==◌, length, get_or, get_elem?-get_or,
}
use native.Mathlib.Nat.{mod-lt, mod-eq_of_lt}
use redi_go.Prelude.Int.{word_mod}
use redi_go.Go.Result.{ok}
use redi_go.Probabilistic.Cms.{
  Cms, max_uint64, get_index, read_counter, lower, position, count_loop, count,
}

-- A sketch with a counter for each row and column, each within a word.
pub record IsSketch (c : Cms) : Type 0 where
  pub width_pos : 0 < c.width
  pub full : length c.counter ≡ c.width * c.depth
  pub fits : c.width * c.depth < word_mod
  pub cells_fit : (i : ℕ) → get_or c.counter i 0 ≤ max_uint64

unfoldable pub row_min : ℕ → ℕ → (ℕ → ℕ) → ℕ → ℕ
row_min zero i f low = low
row_min (suc n) i f low = row_min n (i + 1) f (lower (f i) low)

pub row_min_ext :
    (n i : ℕ) (f g : ℕ → ℕ) (low : ℕ)
    → ((r : ℕ) → i ≤ r → r < i + n → f r ≡ g r)
    → row_min n i f low ≡ row_min n i g low
unfolding row_min
row_min_ext zero i f g low h = refl
row_min_ext (suc n) i f g low h =
    rw (h i (omega arith) (omega arith))
      (row_min_ext n (i + 1) f g _ (λ r a b. h r (omega arith) (omega arith)))

pub row_min_ge :
    (n i : ℕ) (f : ℕ → ℕ) (low v : ℕ)
    → v ≤ low
    → ((r : ℕ) → i ≤ r → r < i + n → v ≤ f r)
    → v ≤ row_min n i f low
unfolding row_min
row_min_ge zero i f low v b h = b
row_min_ge (suc n) i f low v b h =
    let first : v ≤ f i = h i (omega arith) (omega arith) in
    row_min_ge n (i + 1) f (lower (f i) low) v (ground arith)
      (λ r a c. h r (omega arith) (omega arith))

pub row_min_low : (n i : ℕ) (f : ℕ → ℕ) (low : ℕ) → row_min n i f low ≤ low
unfolding row_min
row_min_low zero i f low = omega arith
row_min_low (suc n) i f low = ground (arith, row_min_low n (i + 1) f (lower (f i) low))

pub row_min_le : (n i : ℕ) (f : ℕ → ℕ) (low r : ℕ) → i ≤ r → r < i + n → row_min n i f low ≤ f r
unfolding row_min
row_min_le zero i f low r a b = absurd (omega arith)
row_min_le (suc n) i f low r a b = elim (ℕ_discrete i r) [
  | yes p ↦ rw (← p) (ground (arith, row_min_low n (i + 1) f (lower (f i) low)))
  | no q ↦ row_min_le n (i + 1) f _ r (omega arith) (omega arith)
]

index_in_range : (r x w d : ℕ) → r < d → x < w → r * w + x < w * d
index_in_range r x w d p q = grind arith

index_grows : (r s x y w : ℕ) → r < s → x < w → r * w + x < s * w + y
index_grows r s x y w p q = grind arith

module _ (hash : Bytes → ℕ → ℕ) where
  -- The index of the counter of an item in row `r`.
  pub slot : ℕ → Bytes → ℕ → ℕ
  slot width item r = r * width + hash item (r % 2 ^ 32) % width

  unfoldable pub cell : Cms → Bytes → ℕ → ℕ
  cell c item r = get_or c.counter (slot c.width item r) 0

  pub slot-lt : (w d : ℕ) (item : Bytes) (r : ℕ) → 0 < w → r < d → slot w item r < w * d
  unfolding slot
  slot-lt w d item r h k = index_in_range r _ w d k (mod-lt _ h)

  slot-ne : (w : ℕ) (item item' : Bytes) (r s : ℕ) → 0 < w → r < s → slot w item r < slot w item' s
  unfolding slot
  slot-ne w item item' r s h k = index_grows r s _ _ w k (mod-lt _ h)

  -- Two rows share no counter.
  pub slot_row :
      (w : ℕ) (item item' : Bytes) (r s : ℕ) → 0 < w → slot w item r ≡ slot w item' s → r ≡ s
  slot_row w item item' r s h e = elim (dec_lt r s) [
    | yes p ↦ absurd (omega (arith, slot-ne w item item' r s h p))
    | no p ↦ elim (dec_lt s r) [
      | yes q ↦ absurd (omega (arith, slot-ne w item' item s r h q))
      | no q ↦ omega arith
    ]
  ]

  pub position-slot :
      {c : Cms} (item : Bytes) (r : ℕ)
      → IsSketch c
      → r < c.depth
      → position hash c item r ≡ ok (slot c.width item r)
  unfolding position slot
  position-slot {c} item r k h =
      let nonzero : (c.width == 0) ≡ false = ground (arith, k.width_pos) in
      let small = slot-lt c.width c.depth item r k.width_pos h in
      rw nonzero (unfold get_index slot in ap ok (mod-eq_of_lt (omega (arith, small, k.fits))))

  pub read_counter-cell :
      {c : Cms} (item : Bytes) (r : ℕ)
      → IsSketch c
      → r < c.depth
      → read_counter c.counter (slot c.width item r) ≡ ok (cell c item r)
  unfolding read_counter cell
  read_counter-cell {c} item r k h = rw (
    get_elem?-get_or c.counter (slot c.width item r) 0
        (omega (arith, slot-lt c.width c.depth item r k.width_pos h, k.full)),
    read_counter,
  )

  pub count_loop_ok :
      {c : Cms} (n i : ℕ) (item : Bytes) (low : ℕ)
      → IsSketch c
      → i + n ≡ c.depth
      → count_loop hash n i c item low ≡ ok (row_min n i (cell c item) low)
  unfolding count_loop row_min
  count_loop_ok zero i item low k e = refl
  count_loop_ok (suc n) i item low k e =
      rw (position-slot item i k (omega arith), read_counter-cell item i k (omega arith))
        (count_loop_ok n (i + 1) item _ k (omega arith))

  -- `Count` returns, and its result is the least counter of the item.
  pub count_ok :
      {c : Cms} (item : Bytes)
      → IsSketch c
      → count hash c item ≡ ok (row_min c.depth 0 (cell c item) max_uint64)
  unfolding count
  count_ok {c} item k = count_loop_ok c.depth 0 item max_uint64 k (omega arith)
