-- ===== src/Core/Expire/Ends.antt =====
-- Termination of `ActiveDeleteExpiredKeys` of internal/core/expire.go, and what it keeps.
use redi_go.Prelude.{
  Bytes, ℕ, zero, suc, ◌+◌, ◌<◌, [], ◌∷◌, ◌≡◌, refl, ap, true, some, arith, leb, Bool-cases,
  if_elim, Option-cases, inl, inr,
}
use redi_go.Prelude.Int.{to_int64}
use redi_go.Go.Map
use mathlib.Core.Path.{transport}
use redi_go.Go.Result.{Result, ok, err, panic, hang}
use redi_go.HashTable.Dict.{Dict, del, get_expiry, is_some}
use redi_go.HashTable.Invariant.{IsValid, del-IsValidBut}
use redi_go.Core.Expire.{
  Visits, active_expire_sample_size, is_over, expire_key, sample, active_delete_expired_keys,
}

-- The keys that have an expiry time.
abbrev pub expiring : Dict → ℕ
expiring d = Map.size d.expired_dict_store

expiring-del :
    (d : Dict) (k : Bytes) (exp : ℕ)
    → IsValid d
    → get_expiry d k ≡ some exp
    → expiring (del d k).0 + 1 ≡ expiring d
unfolding del get_expiry
expiring-del d k exp v there =
    let held : is_some (Map.get d.dict_store k) ≡ true = v.expiry_held k refl (rw there refl) in
    rw held (ground (arith, Map.size-delete d.expired_dict_store k v.expiry_map))

expire_key_counts :
    (ms : ℕ) (k : Bytes) (exp : ℕ) (d : Dict)
    → IsValid d
    → get_expiry d k ≡ some exp
    → (let r = expire_key ms k exp d in IsValid r.0 × (expiring r.0 + r.1 ≡ expiring d))
unfolding expire_key
expire_key_counts ms k exp d v there = elim (Bool-cases (is_over ms (to_int64 exp))) [
  | inl e ↦ rw e (del-IsValidBut k v, expiring-del d k exp v there)
  | inr e ↦ rw e (v, omega arith)
]

sample_counts :
    (vs : Visits) (remain : ℕ) (d : Dict) (n : ℕ)
    → IsValid d
    → (let r = sample remain vs d n in IsValid r.0 × (expiring r.0 + r.1 ≡ expiring d + n))
unfolding sample
sample_counts [] remain d n v = (v, refl)
sample_counts ((k, ms) ∷ vs) zero d n v = (v, refl)
sample_counts ((k, ms) ∷ vs) (suc remain) d n v = elim (Option-cases (get_expiry d k)) [
  | inl gone ↦ rw (sample, gone) (sample_counts vs (suc remain) d n v)
  | inr (exp, there) ↦
      let (w, fewer) = expire_key_counts ms k exp d v there in
      let r = expire_key ms k exp d in
      let (u, rest) = sample_counts vs remain r.0 (n + r.1) w in rw (sample, there) (u, omega arith)
]

-- The loop ends: a round after which there is another one has deleted three keys or more, so fuel above
-- the number of expiring keys is enough, whatever keys the ranges visit and whatever the clock says, when no
-- key has an expiry time that is not in the dictionary.
pub active_delete-ends :
    (fuel : ℕ) (visits : ℕ → Visits) (round : ℕ) (d : Dict)
    → IsValid d
    → expiring d < fuel
    → (d' : Dict) × (active_delete_expired_keys fuel visits round d ≡ ok d') × IsValid d'
unfolding active_delete_expired_keys
active_delete-ends zero visits round d v lt = elim lt [ ]
active_delete-ends (suc fuel) visits round d v lt =
    let r = sample active_expire_sample_size (visits round) d 0 in
    let (v', counted) = sample_counts (visits round) active_expire_sample_size d 0 v in
    elim (Bool-cases (leb r.1 2)) [
      | inl e ↦ (r.0, rw e refl, v')
      | inr e ↦
          let more : 2 < r.1 = ground arith in
          let (d', ends, w) = active_delete-ends fuel visits (suc round) r.0 v' (omega arith) in
          (d', rw e ends, w)
    ]

-- The dictionary is well formed if there is a result.
abbrev Valid : Result Dict → Type 0
Valid (ok d) = IsValid d
Valid (err e) = Unit {0}
Valid panic = Unit {0}
Valid hang = Unit {0}

active_delete-Valid :
    (fuel : ℕ) (visits : ℕ → Visits) (round : ℕ) (d : Dict)
    → IsValid d
    → Valid (active_delete_expired_keys fuel visits round d)
unfolding active_delete_expired_keys
active_delete-Valid zero visits round d v = tt
active_delete-Valid (suc fuel) visits round d v =
    let r = sample active_expire_sample_size (visits round) d 0 in
    let (v', counted) = sample_counts (visits round) active_expire_sample_size d 0 v in
    if_elim Valid (leb r.1 2) v' (active_delete-Valid fuel visits (suc round) r.0 v')

pub active_delete-IsValid :
    (fuel : ℕ) (visits : ℕ → Visits) (round : ℕ) (d d' : Dict)
    → IsValid d
    → active_delete_expired_keys fuel visits round d ≡ ok d'
    → IsValid d'
active_delete-IsValid fuel visits round d d' v e =
    transport (ap Valid e) (active_delete-Valid fuel visits round d v)
