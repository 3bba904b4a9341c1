-- ===== src/Probabilistic/Cms/NoWidth.antt =====
-- A sketch of internal/data_structure/probabilistic/cms.go without columns.
use redi_go.Prelude.{Bytes, ℕ, zero, suc, ◌<◌, ◌*◌, ◌%◌, [], ◌≡◌, refl, arith}
use redi_go.Prelude.Int.{word_mod}
use redi_go.Go.Result.{ok, panic}
use redi_go.Probabilistic.Cms.{Cms, new_cms, position, incr_loop, incr_by, count_loop, count}

module _ (hash : Bytes → ℕ → ℕ) where
  incr_loop-panic :
      (n : ℕ) (c : Cms) (item : Bytes) (value low : ℕ)
      → c.width ≡ 0
      → 0 < n
      → incr_loop hash n 0 c item value low ≡ panic
  unfolding incr_loop position
  incr_loop-panic zero c item value low none pos = elim pos [ ]
  incr_loop-panic (suc n) c item value low none pos = rw none refl

  count_loop-panic :
      (n : ℕ) (c : Cms) (item : Bytes) (low : ℕ)
      → c.width ≡ 0
      → 0 < n
      → count_loop hash n 0 c item low ≡ panic
  unfolding count_loop position
  count_loop-panic zero c item low none pos = elim pos [ ]
  count_loop-panic (suc n) c item low none pos = rw none refl

  -- `NewCMS` makes a sketch of width 0 without complaint, and every increment and every query of it
  -- panics, when it has rows.
  pub new_cms_without_width :
      (d : ℕ) (item : Bytes) (value : ℕ)
      → 0 < d
      → (c : Cms) × (new_cms 0 d ≡ ok c)
        × (incr_by hash c item value ≡ panic)
        × (count hash c item ≡ panic)
  unfolding new_cms incr_by count
  new_cms_without_width d item value pos =
      let c : Cms = record { width = 0; depth = d; counter = [] } in
      let none_needed : (0 * d) % word_mod ≡ 0 = omega arith in
      (
        c,
        rw none_needed refl,
        incr_loop-panic d c item value _ refl pos,
        count_loop-panic d c item _ refl pos,
      )
