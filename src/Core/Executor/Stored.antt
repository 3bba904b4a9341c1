-- ===== src/Core/Executor/Stored.antt =====
-- The stores of internal/core/storage.go after any command of internal/core/executor.go.
use redi_go.Prelude.{
  Bytes, codes, ℕ, List, [], ◌∷◌, ◌≡◌, refl, sym, ap, ◌∙◌, not, none, some, beq, Bool-cases,
  Option-cases, inl, inr, if_elim, length, ◌==◌, ◌+◌, ◌%◌,
}
use mathlib.Core.Path.{transport}
use redi_go.Go.Map
use redi_go.Go.Map.{Map, IsMap}
use redi_go.Go.Float.{Floats}
use redi_go.Go.Result.{Result, ok, err, panic, hang, ◌>>=◌}
use redi_go.Resp.Command.{Command}
use redi_go.SimpleSet.{SimpleSet, new_simple_set}
use redi_go.SimpleSet.Laws.{add-IsMap, rem-IsMap}
use redi_go.SortedSet
use redi_go.SortedSet.{SortedSet}
use redi_go.SortedSet.Interface.{OrderedIndex}
use redi_go.SortedSet.Scores.{HasScores, add-HasScores, new-HasScores}
use redi_go.Probabilistic.Cms.{Cms}
use redi_go.HashTable.Dict.{Dict}
use redi_go.HashTable.Invariant.{IsValid, create_dict-IsValid}
use redi_go.Core.KeyCommands.{Env}
use redi_go.Core.KeyCommands.Valid.{cmd_set-IsValid, cmd_get-IsValid, cmd_ttl-IsValid}
use redi_go.Core.SetCommands.{set_at, cmd_sadd, cmd_srem}
use redi_go.Core.ZsetCommands.{Zsets, zset_at, add_pairs, cmd_zadd}
use redi_go.Core.Executor.{Storage, init, execute, other_command, cms_command}

-- Every value of the map has the property.
abbrev pub Each {ℓ κ} : {V : Type ℓ} → (V → Type κ) → Map V → Type (ℓ ⊔ κ)
Each P m = (k : Bytes) (v : _) → Map.get m k ≡ some v → P v

Each-put :
    {V : Type 0} (P : V → Type 0) (m : Map V) (key : Bytes) (v : V)
    → Each P m
    → P v
    → Each P (Map.put m key v)
Each-put P m key v all new k w e = elim (Bool-cases (beq key k)) [
  | inl same ↦
      let found : some v ≡ some w = sym (Map.get-put m key k v ∙ rw same refl) ∙ e in
      let is_v : v ≡ w = cc in transport (ap P is_v) new
  | inr other ↦
      let found : Map.get m k ≡ some w = sym (Map.get-put m key k v ∙ rw other refl) ∙ e in
      all k w found
]

Each-empty : {V : Type 0} (P : V → Type 0) → Each P (Map.empty {V = V})
Each-empty {V} P k v e = let never : none ≡ some v = sym (Map.get-empty {V = V} k) ∙ e in cc

abbrev IsSimpleSet : SimpleSet → Type 0
IsSimpleSet s = IsMap s.dict

set_at-IsSimpleSet :
    (store : Map SimpleSet) (key : Bytes) → Each IsSimpleSet store → IsSimpleSet (set_at store key)
unfolding new_simple_set set_at
set_at-IsSimpleSet store key all = elim (Option-cases (Map.get store key)) [
  | inl absent ↦ rw (set_at, absent) (Map.empty-IsMap (Unit {0}))
  | inr (s, there) ↦ rw (set_at, there) (all key s there)
]

cmd_sadd-Each :
    (store : Map SimpleSet) (args : List Bytes)
    → Each IsSimpleSet store
    → Each IsSimpleSet (cmd_sadd store args).0
unfolding cmd_sadd
cmd_sadd-Each store [] all = all
cmd_sadd-Each store (key ∷ []) all = all
cmd_sadd-Each store (key ∷ m ∷ ms) all =
    Each-put IsSimpleSet store key _ all
      (add-IsMap (set_at store key) (m ∷ ms) (set_at-IsSimpleSet store key all))

cmd_srem-Each :
    (store : Map SimpleSet) (args : List Bytes)
    → Each IsSimpleSet store
    → Each IsSimpleSet (cmd_srem store args).0
unfolding cmd_srem
cmd_srem-Each store [] all = all
cmd_srem-Each store (key ∷ []) all = all
cmd_srem-Each store (key ∷ m ∷ ms) all =
    Each-put IsSimpleSet store key _ all
      (rem-IsMap (set_at store key) (m ∷ ms) (set_at-IsSimpleSet store key all))

module _ (F : Floats) (I : OrderedIndex F) where
  zset_at-HasScores :
      (store : Zsets F I) (key : Bytes)
      → Each (HasScores F I) store
      → HasScores F I (zset_at F I store key)
  unfolding zset_at
  zset_at-HasScores store key all = elim (Option-cases (Map.get store key)) [
    | inl absent ↦ rw (zset_at, absent) (new-HasScores F I)
    | inr (zset, there) ↦ rw (zset_at, there) (all key zset there)
  ]

  -- If there is a result, no member of the sorted set has two scores.
  abbrev ScoresKept : Result (SortedSet F I × Bytes) → Type 0
  ScoresKept (ok q) = HasScores F I q.0
  ScoresKept (err e) = Unit {0}
  ScoresKept panic = Unit {0}
  ScoresKept hang = Unit {0}

  -- What follows an addition keeps the scores if it does so whenever the addition has a result.
  add-ScoresKept :
      (r : Result (SortedSet F I × ℕ)) (f : SortedSet F I × ℕ → Result (SortedSet F I × Bytes))
      → ((q : SortedSet F I × ℕ) → r ≡ ok q → ScoresKept (f q))
      → ScoresKept (r >>= f)
  add-ScoresKept (ok q) f k = k q refl
  add-ScoresKept (err e) f k = tt
  add-ScoresKept panic f k = tt
  add-ScoresKept hang f k = tt

  add_pairs-ScoresKept :
      (args : List Bytes) (zset : SortedSet F I) (count : ℕ)
      → HasScores F I zset
      → ScoresKept (add_pairs F I args zset count)
  unfolding add_pairs
  add_pairs-ScoresKept [] zset count a = a
  add_pairs-ScoresKept (score ∷ []) zset count a = a
  add_pairs-ScoresKept (score ∷ member ∷ args) zset count a =
      elim (Option-cases (F.parse_float score)) [
        | inl bad ↦ rw (add_pairs, bad) a
        | inr (x, good) ↦
            rw (add_pairs, good)
              (add-ScoresKept (SortedSet.add F I zset x member) _ (λ q e.
                let b = add-HasScores F I zset q.0 x member q.1 a e in
                if_elim ScoresKept (not (q.1 == 1)) b
                  (add_pairs-ScoresKept args q.0 (count + 1) b)))
      ]

  -- If there is a result, no member of a sorted set has two scores.
  abbrev ZsetsKept : Result (Zsets F I × Bytes) → Type 0
  ZsetsKept (ok q) = Each (HasScores F I) q.0
  ZsetsKept (err e) = Unit {0}
  ZsetsKept panic = Unit {0}
  ZsetsKept hang = Unit {0}

  put-ZsetsKept :
      (store : Zsets F I) (key : Bytes) (r : Result (SortedSet F I × Bytes))
      → Each (HasScores F I) store
      → ScoresKept r
      → ZsetsKept (r >>= λ q. ok (Map.put store key q.0, q.1))
  put-ZsetsKept store key (ok q) all a = Each-put (HasScores F I) store key q.0 all a
  put-ZsetsKept store key (err e) all a = tt
  put-ZsetsKept store key panic all a = tt
  put-ZsetsKept store key hang all a = tt

  cmd_zadd-ZsetsKept :
      (store : Zsets F I) (args : List Bytes)
      → Each (HasScores F I) store
      → ZsetsKept (cmd_zadd F I store args)
  unfolding cmd_zadd
  cmd_zadd-ZsetsKept store [] all = all
  cmd_zadd-ZsetsKept store (key ∷ []) all = all
  cmd_zadd-ZsetsKept store (key ∷ score ∷ []) all = all
  cmd_zadd-ZsetsKept store (key ∷ score ∷ member ∷ args) all =
      if_elim ZsetsKept ((length args + 2) % 2 == 1) all (
        put-ZsetsKept store key _ all
          (add_pairs-ScoresKept (score ∷ member ∷ args) _ 0 (zset_at-HasScores store key all)))

  -- The dictionary is well formed, no member of a sorted set has two scores, and no
  -- key stands twice in the map of a set.
  pub record IsStored (d : Dict) (zsets : Zsets F I) (sets : Map SimpleSet) : Type 0 where
    pub dict : IsValid d
    pub zset_scores : Each (HasScores F I) zsets
    pub sets_are : Each IsSimpleSet sets

  module _ (hash : Bytes → ℕ → ℕ) (visit : List Bytes → List Bytes) where
    abbrev pub IsStorage : Storage F I hash visit → Type 0
    IsStorage s = IsStored s.keyspace.dict s.zset_store s.set_store

    pub init-IsStorage : IsStorage (init F I hash visit)
    unfolding init
    init-IsStorage = record {
      dict = create_dict-IsValid;
      zset_scores = Each-empty (HasScores F I);
      sets_are = Each-empty IsSimpleSet;
    }

    -- If there is a result, its stores are well formed.
    abbrev Kept : Result (Storage F I hash visit × Bytes) → Type 0
    Kept (ok r) = IsStorage r.0
    Kept (err e) = Unit {0}
    Kept panic = Unit {0}
    Kept hang = Unit {0}

    cms-Kept :
        (s : Storage F I hash visit) (r : Result (Map Cms × Bytes))
        → IsStorage s
        → Kept (r >>= λ q. ok (record s { cms_store = q.0 }, q.1))
    cms-Kept s (ok q) k = k
    cms-Kept s (err e) k = tt
    cms-Kept s panic k = tt
    cms-Kept s hang k = tt

    reply-Kept :
        (s : Storage F I hash visit) (r : Result Bytes) → IsStorage s → Kept (r >>= λ q. ok (s, q))
    reply-Kept s (ok q) k = k
    reply-Kept s (err e) k = tt
    reply-Kept s panic k = tt
    reply-Kept s hang k = tt

    cms_command-Kept :
        (s : Storage F I hash visit) (c : Command)
        → IsStorage s
        → Kept (cms_command F I hash visit s c)
    unfolding cms_command
    cms_command-Kept s c k = if_elim Kept (beq c.cmd (codes "CMS.INITBYDIM")) (cms-Kept s _ k) (
        if_elim Kept (beq c.cmd (codes "CMS.INITBYPROB")) (cms-Kept s _ k) (
          if_elim Kept (beq c.cmd (codes "CMS.INCRBY")) (cms-Kept s _ k)
            (if_elim Kept (beq c.cmd (codes "CMS.QUERY")) (reply-Kept s _ k) k)))

    sets-Kept :
        (s : Storage F I hash visit) (sets : Map SimpleSet)
        → IsStorage s
        → Each IsSimpleSet sets
        → IsStorage (record s { set_store = sets })
    sets-Kept s sets k all = record { dict = k.dict; zset_scores = k.zset_scores; sets_are = all }

    other_command-Kept :
        (env : Env) (s : Storage F I hash visit) (c : Command)
        → IsStorage s
        → Kept (other_command F I hash visit env s c)
    unfolding other_command
    other_command-Kept env s c k =
        if_elim Kept (beq c.cmd (codes "SADD"))
          (sets-Kept s _ k (cmd_sadd-Each s.set_store c.args k.sets_are))
          (if_elim Kept (beq c.cmd (codes "SREM"))
            (sets-Kept s _ k (cmd_srem-Each s.set_store c.args k.sets_are))
            (if_elim Kept (beq c.cmd (codes "SMEMBERS")) k (
              if_elim Kept (beq c.cmd (codes "SISMEMBER")) k (
                if_elim Kept (beq c.cmd (codes "INFO")) k
                  (if_elim Kept (beq c.cmd (codes "HELP")) k (cms_command-Kept s c k))))))

    dict-Kept :
        (s : Storage F I hash visit) (d : Dict)
        → IsStorage s
        → IsValid d
        → IsStored d s.zset_store s.set_store
    dict-Kept s d k v = record { dict = v; zset_scores = k.zset_scores; sets_are = k.sets_are }

    zsets-Kept :
        (s : Storage F I hash visit) (r : Result (Zsets F I × Bytes))
        → IsStorage s
        → ZsetsKept r
        → Kept (r >>= λ q. ok (record s { zset_store = q.0 }, q.1))
    zsets-Kept s (ok q) k all = record { dict = k.dict; zset_scores = all; sets_are = k.sets_are }
    zsets-Kept s (err e) k all = tt
    zsets-Kept s panic k all = tt
    zsets-Kept s hang k all = tt

    execute-Kept :
        (env : Env) (s : Storage F I hash visit) (c : Command)
        → IsStorage s
        → Kept (execute F I hash visit env s c)
    unfolding execute
    execute-Kept env s c k = if_elim Kept (beq c.cmd (codes "PING")) k (
        if_elim Kept (beq c.cmd (codes "SET"))
          (dict-Kept s _ k (cmd_set-IsValid env s.keyspace c.args k.dict))
          (if_elim Kept (beq c.cmd (codes "GET"))
            (dict-Kept s _ k (cmd_get-IsValid env s.keyspace c.args k.dict))
            (if_elim Kept (beq c.cmd (codes "TTL"))
              (dict-Kept s _ k (cmd_ttl-IsValid env s.keyspace c.args k.dict))
              (if_elim Kept (beq c.cmd (codes "ZADD"))
                (zsets-Kept s _ k (cmd_zadd-ZsetsKept s.zset_store c.args k.zset_scores))
                (if_elim Kept (beq c.cmd (codes "ZSCORE")) k (
                  if_elim Kept (beq c.cmd (codes "ZRANK")) (reply-Kept s _ k)
                    (other_command-Kept env s c k)))))))

    -- Every command that has a result leaves the stores well formed, its errors included: the dictionary is
    -- valid, no member of a sorted set has two scores, and no key stands twice in the map of a set.
    pub execute-IsStorage :
        (env : Env) (s s' : Storage F I hash visit) (c : Command) (res : Bytes)
        → IsStorage s
        → execute F I hash visit env s c ≡ ok (s', res)
        → IsStorage s'
    execute-IsStorage env s s' c res k e = transport (ap Kept e) (execute-Kept env s c k)
