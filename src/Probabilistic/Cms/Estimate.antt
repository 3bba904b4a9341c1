-- ===== src/Probabilistic/Cms/Estimate.antt =====
-- What a count-min sketch promises over a whole history of increments.
use Prim.Native.Nat.{min}
use redi_go.Prelude.{
  Bytes, ℕ, ◌+◌, ◌*◌, ◌%◌, ◌≤◌, ◌<◌, List, [], ◌∷◌, ◌≡◌, refl, false, arith, beq, beq_iff, ltb,
  if◌then◌else◌, Bool-cases, inl, inr, replicate, length-replicate, get_or-replicate,
}
use native.Mathlib.Nat.{mod-eq_of_lt}
use redi_go.Prelude.Int.{word_mod}
use redi_go.Go.Result.{Result, ok, ◌>>=◌}
use redi_go.Probabilistic.Cms.{Cms, max_uint64, max_counters, new_cms, bump, incr_by, count}
use redi_go.Probabilistic.Cms.Rows.{IsSketch, row_min, row_min_ge, cell, count_ok}
use redi_go.Probabilistic.Cms.Incr.{
  incremented, incremented-IsSketch, depth-incremented, cell-incremented, cell-le-incremented,
  incr_by_ok,
}

-- `NewCMS` with a width and a product of its dimensions that fit makes a well-formed sketch.
pub new_cms_ok :
    (w d : ℕ)
    → 0 < w
    → w * d ≤ max_counters
    → (c : Cms) × (new_cms w d ≡ ok c)
      × IsSketch c
      × (c.depth ≡ d)
      × (c.counter ≡ replicate (w * d) 0)
unfolding new_cms
new_cms_ok w d h fits =
    let e : (w * d) % word_mod ≡ w * d = mod-eq_of_lt (omega arith) in
    let small : ltb max_counters (w * d) ≡ false = ground arith in
    (
      record { width = w; depth = d; counter = replicate (w * d) 0 },
      rw (e, small),
      record {
        width_pos = h;
        full = length-replicate (w * d) 0;
        fits = omega arith;
        cells_fit = λ i. rw (get_or-replicate {A = ℕ} (w * d) i 0) (omega arith);
      },
      refl,
      refl,
    )

-- A history of calls of `IncrBy`.
abbrev pub History : Type 0
History = List (Bytes × ℕ)

abbrev pub total : Bytes → History → ℕ
total item [] = 0
total item ((k, v) ∷ h) = (if beq k item then v else 0) + total item h

module _ (hash : Bytes → ℕ → ℕ) where
  unfoldable pub run : History → Cms → Result Cms
  run [] c = ok c
  run ((k, v) ∷ h) c = do r ← incr_by hash c k v; run h r.0

  -- Each counter of the item is at least `low`, or at the largest word.
  abbrev AtLeast : Cms → Bytes → ℕ → Type 0
  AtLeast c item low = (r : ℕ) → r < c.depth → min max_uint64 low ≤ cell hash c item r

  AtLeast-incremented :
      {c : Cms} (item k : Bytes) (v low : ℕ)
      → IsSketch c
      → AtLeast c item low
      → AtLeast (incremented hash k v c) item (low + (if beq k item then v else 0))
  unfolding bump
  AtLeast-incremented {c} item k v low s h r lt =
      let lt' : r < c.depth = rw (depth-incremented hash k v c) at lt in
      elim (Bool-cases (beq k item)) [
        | inl e ↦
            let p : k ≡ item = (beq_iff k item).0 e in
            rw (e, p, cell-incremented hash item v r s lt') (ground (arith, h r lt'))
        | inr e ↦ rw e (omega (arith, h r lt', cell-le-incremented hash k v item r s))
      ]

  run_ge :
      (h : History) (c : Cms) (item : Bytes) (low : ℕ)
      → IsSketch c
      → AtLeast c item low
      → (c' : Cms) × (run h c ≡ ok c') × IsSketch c' × AtLeast c' item (low + total item h)
  unfolding run
  run_ge [] c item low s b = (c, refl, s, λ r lt. omega (arith, b r lt))
  run_ge ((k, v) ∷ h) c item low s b =
      let (c', e, s', b') =
        run_ge h (incremented hash k v c) item (low + (if beq k item then v else 0))
          (incremented-IsSketch hash k v s) (AtLeast-incremented item k v low s b) in
      (c', rw (incr_by_ok hash k v s) e, s', λ r lt. omega (arith, b' r lt))

  -- Over any history of increments of a well-formed new sketch every call returns, and `Count` gives
  -- an item at least what was added to it, up to the largest word: it never underestimates.
  pub count-run_ge :
      (w d : ℕ) (h : History) (item : Bytes)
      → 0 < w
      → w * d ≤ max_counters
      → (c : Cms) × (n : ℕ) × ((new_cms w d >>= run h) ≡ ok c)
        × (count hash c item ≡ ok n)
        × (min max_uint64 (total item h) ≤ n)
  count-run_ge w d h item pos fits =
      let (c, made, s, dep, zeros) = new_cms_ok w d pos fits in
      let (c', e, s', b) = run_ge h c item 0 s (λ r lt. omega arith) in
      (
        c',
        row_min c'.depth 0 (cell hash c' item) max_uint64,
        rw made e,
        count_ok hash item s',
        row_min_ge c'.depth 0 _ max_uint64 _ (omega arith)
            (λ r a lt. omega (arith, b r (omega arith))),
      )
