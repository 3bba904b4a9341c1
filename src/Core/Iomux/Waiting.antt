-- ===== src/Core/Iomux/Waiting.antt =====
-- The loop of `Wait` in internal/core/iomux/epoll_linux.go and internal/core/iomux/kqueue_macos.go.
use redi_go.Prelude.{
  ℕ, zero, suc, ◌+◌, ◌<◌, ◌≤◌, List, [], ◌∷◌, ◌++◌, map, append_assoc, append-nil, ◌≡◌, refl, sym,
  ap, ◌∙◌, some, arith, length, get_elem?, get_elem?_total, set, length-set, take, drop, lt→ltb,
}
use redi_go.Go.Result.{ok}
use redi_go.Core.Iomux.{Event, store_at, convert, first_events, converted}

module _ {A : Type 0} where
  take-set :
      (xs : List A) (i : ℕ) (v : A)
      → i < length xs
      → take (suc i) (set xs i v) ≡ take i xs ++ v ∷ []
  take-set [] i v lt = elim lt [ ]
  take-set (x ∷ xs) zero v lt = refl
  take-set (x ∷ xs) (suc i) v lt = ap (◌∷◌ x) (take-set xs i v (omega arith))

  drop-get_elem? :
      (xs : List A) (i : ℕ) (a : A) → get_elem? xs i ≡ some a → drop i xs ≡ a ∷ drop (suc i) xs
  drop-get_elem? [] i a e = let never : ⊥ = cc in elim never [ ]
  drop-get_elem? (x ∷ xs) zero a e = let same : x ≡ a = cc in rw same refl
  drop-get_elem? (x ∷ xs) (suc i) a e = drop-get_elem? xs i a e

  store_at-set : (xs : List A) (i : ℕ) (v : A) → i < length xs → store_at xs i v ≡ ok (set xs i v)
  unfolding store_at
  store_at-set xs i v lt = rw (lt→ltb i (length xs) lt) refl

first_events-take :
    (n : ℕ) (events : List Event) → n ≤ length events → first_events n events ≡ ok (take n events)
unfolding first_events
first_events-take n events le = ground arith

module _ {A : Type 0} (create_event : A → Event) (natives : List A) where
  convert-take :
      (i k : ℕ) (events : List Event)
      → i + k ≤ length natives
      → i + k ≤ length events
      → (events' : List Event) × (convert create_event natives i k events ≡ ok events')
        × (length events' ≡ length events)
        × (take (i + k) events' ≡ take i events ++ map create_event (take k (drop i natives)))
  unfolding convert
  convert-take i zero events le le' =
      let same : i + 0 ≡ i = omega arith in
      (events, refl, refl, ap (λ n. take n events) same ∙ sym (append-nil (take i events)))
  convert-take i (suc k) events le le' =
      let (a, there) = get_elem?_total natives i (omega arith) in
      let stored = store_at-set events i (create_event a) (omega arith) in
      let size = length-set events i (create_event a) in
      let (events', run, kept, taken) =
        convert-take (suc i) k (set events i (create_event a)) (omega arith)
          (omega (arith, le', size)) in
      let sum : i + suc k ≡ suc i + k = omega arith in
      (
        events',
        rw (there, stored, run) refl,
        kept ∙ size,
        ap (λ n. take n events') sum
            ∙ taken
            ∙ ap (λ l. l ++ map create_event (take k (drop (suc i) natives)))
                (take-set events i (create_event a) (omega arith))
            ∙ append_assoc (take i events) _ _
            ∙ ap (λ l. take i events ++ map create_event (take (suc k) l))
                (sym (drop-get_elem? natives i a there)),
      )

  -- `Wait` returns the events of the system, converted one by one and in their order, and its buffer keeps its
  -- length; the system delivers no more events than either buffer holds.
  pub converted-map :
      (events : List Event) (n : ℕ)
      → n ≤ length natives
      → n ≤ length events
      → (events' : List Event) × (converted create_event natives events n
          ≡ ok (events', map create_event (take n natives)))
        × (length events' ≡ length events)
  unfolding converted
  converted-map events n le le' =
      let (events', run, kept, taken) =
        convert-take 0 n events (omega (arith, le)) (omega (arith, le')) in
      let zero_plus : 0 + n ≡ n = omega arith in
      let all : take n events' ≡ map create_event (take n natives) =
        ap (λ k. take k events') (sym zero_plus) ∙ taken in
      let first = first_events-take n events' (omega (arith, le', kept)) in
      (events', rw (run, first, all) refl, kept)
