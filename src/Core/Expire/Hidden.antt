-- ===== src/Core/Expire/Hidden.antt =====
-- What clients see of the deletions of internal/core/expire.go: nothing.
use redi_go.Prelude.{
  Bytes, ℕ, zero, suc, ◌+◌, ◌≤◌, [], ◌∷◌, ◌≡◌, refl, ◌∙◌, some, arith, leb, beq_iff, Bool-cases,
  Option-cases, inl, inr, All,
}
use redi_go.Prelude.Int.{int_max, to_int64}
use redi_go.Go.Map
use redi_go.Go.Result.{ok}
use redi_go.HashTable.Dict.{Dict, del, get_expiry}
use redi_go.HashTable.Expiry.{visible}
use redi_go.Core.Expire.{
  Visits, active_expire_sample_size, is_over, expire_key, sample, active_delete_expired_keys,
}

-- Every expiry time is an `int64`, as those of a `SET` are that does not wrap around.
abbrev pub InTime : Dict → Type 0
InTime d = (k : Bytes) (exp : ℕ) → get_expiry d k ≡ some exp → exp ≤ int_max

-- The clock shows at most `later` in the visits of a round.
abbrev pub Until : ℕ → Visits → Type 0
Until later = All (λ v. v.1 ≤ later)

del-InTime : (d : Dict) (k : Bytes) → InTime d → InTime (del d k).0
unfolding del get_expiry
del-InTime d k t j exp h = ground (arith, Map.get-delete d.expired_dict_store k j, t j exp)

visible-del :
    (d : Dict) (k j : Bytes) (exp later : ℕ)
    → get_expiry d k ≡ some exp
    → exp ≤ later
    → visible (del d k).0 j later ≡ visible d j later
unfolding del get_expiry visible
visible-del d k j exp later there over =
    ground
      (arith, Map.get-delete d.dict_store k j, Map.get-delete d.expired_dict_store k j, beq_iff k j)

visible-expire_key :
    (ms : ℕ) (k : Bytes) (exp : ℕ) (d : Dict) (j : Bytes) (later : ℕ)
    → InTime d
    → get_expiry d k ≡ some exp
    → ms ≤ later
    → (let r = expire_key ms k exp d in InTime r.0 × (visible r.0 j later ≡ visible d j later))
unfolding expire_key
visible-expire_key ms k exp d j later t there le = elim (Bool-cases (is_over ms (to_int64 exp))) [
  | inl e ↦
      let small : exp ≤ int_max = t k exp there in
      let over : exp ≤ later = ground arith in
      rw e (del-InTime d k t, visible-del d k j exp later there over)
  | inr e ↦ rw e (t, refl)
]

visible-sample :
    (vs : Visits) (remain : ℕ) (d : Dict) (n : ℕ) (j : Bytes) (later : ℕ)
    → InTime d
    → Until later vs
    → (let r = sample remain vs d n in InTime r.0 × (visible r.0 j later ≡ visible d j later))
unfolding sample
visible-sample [] remain d n j later t us = (t, refl)
visible-sample ((k, ms) ∷ vs) zero d n j later t us = (t, refl)
visible-sample ((k, ms) ∷ vs) (suc remain) d n j later t (le, us) =
    elim (Option-cases (get_expiry d k)) [
      | inl gone ↦ rw (sample, gone) (visible-sample vs (suc remain) d n j later t us)
      | inr (exp, there) ↦
          let (w, same) = visible-expire_key ms k exp d j later t there le in
          let r = expire_key ms k exp d in
          let (u, rest) = visible-sample vs remain r.0 (n + r.1) j later w us in
          rw (sample, there) (u, rest ∙ same)
    ]

-- Only keys that have expired are deleted: from the last reading of the clock on, every key has the
-- value that it would have without the deletions, when the expiry times are in an `int64`.
pub visible-active_delete :
    (fuel : ℕ) (visits : ℕ → Visits) (round : ℕ) (d d' : Dict) (j : Bytes) (later : ℕ)
    → InTime d
    → ((n : ℕ) → Until later (visits n))
    → active_delete_expired_keys fuel visits round d ≡ ok d'
    → visible d' j later ≡ visible d j later
unfolding active_delete_expired_keys
visible-active_delete zero visits round d d' j later t us e = cc
visible-active_delete (suc fuel) visits round d d' j later t us e =
    let r = sample active_expire_sample_size (visits round) d 0 in
    let (w, same) =
      visible-sample (visits round) active_expire_sample_size d 0 j later t (us round) in
    elim (Bool-cases (leb r.1 2)) [
      | inl b ↦ let last : ok r.0 ≡ ok d' = rw b at e in cc
      | inr b ↦ visible-active_delete fuel visits (suc round) r.0 d' j later w us (rw b at e) ∙ same
    ]
