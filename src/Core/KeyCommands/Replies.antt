-- ===== src/Core/KeyCommands/Replies.antt =====
-- What a client sees of `SET`, `GET` and `TTL` of internal/core/executor.go.
use redi_go.Prelude.{
  Bytes, codes, ℕ, ◌+◌, ◌*◌, ◌-◌, ◌/◌, ◌%◌, ◌≤◌, ◌<◌, [], ◌∷◌, ◌≡◌, refl, ap, ◌∙◌, Bool, true,
  false, Option, none, some, arith, beq, beq_refl, leb, if◌then◌else◌, Bool-cases, inl, inr,
}
use redi_go.Prelude.Int.{
  ℤ, pos, negsuc, int_max, word_mod, InInt64, to_int64, to_int64-InInt64, to_word,
}
use redi_go.Go.Decimal.{parse_int}
use redi_go.Go.Map
use redi_go.Resp.Value.{Value, str, int}
use redi_go.Resp.Encode.{encode, resp_nil}
use redi_go.HashTable.Config.{ge_int}
use redi_go.HashTable.Dict.{
  Dict, Obj, get_found, get, get_expiry, has_expired, del, touch, expired_at,
}
use redi_go.HashTable.Expiry.{value_of, visible, lifetime, visible-set_new}
use redi_go.Core.Reply.{resp_ok, ttl_key_not_exist, ttl_key_exist_no_expire}
use redi_go.Core.KeyCommands.{
  Keyspace, Env, get_reply, cmd_get, store_value, store_ttl, times_1000, cmd_set, ttl_left,
  ttl_reply, cmd_ttl,
}

abbrev pub value_reply : Option Value → Bytes
value_reply none = resp_nil
value_reply (some v) = encode v false

-- What `GET` answers, from the object and the test that follows.
get_reply-value :
    (d : Dict) (k : Bytes) (ms : ℕ) (o : Option Obj)
    → get_reply d k ms o ≡ value_reply (if has_expired d k ms then none else value_of o)
unfolding get_reply
get_reply-value d k ms none = ground arith
get_reply-value d k ms (some obj) = ground arith

get_found_rest :
    (d : Dict) (k : Bytes) (o : Option Obj) (secs ms later : ℕ)
    → ms ≤ later
    → (if has_expired (get_found d k o secs ms).0 k later
        then none
        else value_of (get_found d k o secs ms).1)
      ≡ (if has_expired d k later then none else value_of o)
unfolding get_found has_expired del
get_found_rest d k none secs ms later le = refl
get_found_rest d k (some v) secs ms later le = ground (
  arith,
  Map.get-put d.dict_store k k (touch v secs),
  Map.get-delete d.expired_dict_store k k,
  beq_refl k,
)

-- `GET` answers with the value that the key has at the second reading of the clock: the two tests of
-- the expiry are as one, whatever time passes between them, when the clock does not go back.
pub cmd_get-visible :
    (env : Env) (s : Keyspace) (key : Bytes)
    → env.ms0 ≤ env.ms1
    → (cmd_get env s (key ∷ [])).1 ≡ value_reply (visible s.dict key env.ms1)
unfolding cmd_get get visible
cmd_get-visible env s key le =
    get_reply-value _ key env.ms1 _
    ∙ ap value_reply (
        get_found_rest s.dict key (Map.get s.dict.dict_store key) env.secs env.ms0 env.ms1 le
        ∙ unfold has_expired in refl)

get_after_store :
    (env env' : Env) (s : Keyspace) (key j value : Bytes) (ttl_ms : ℤ)
    → ge_int (Map.size s.dict.dict_store) env.config.max_key_number ≡ false
    → env.ms0 ≤ int_max
    → InInt64 ttl_ms
    → env'.ms0 ≤ env'.ms1
    → (cmd_get env' (store_value env s key value ttl_ms).0 (j ∷ [])).1
      ≡ value_reply (
          if beq key j
          then lifetime env.ms0 ttl_ms env'.ms1 (some (str value))
          else visible s.dict j env'.ms1)
get_after_store env env' s key j value ttl_ms room now_fits fits le =
    cmd_get-visible env' (store_value env s key value ttl_ms).0 j le
    ∙ ap value_reply (
        unfold store_value in
        visible-set_new env.sort env.config env.order s.dict s.epool key j (str value) ttl_ms
          env.secs env.ms0 env'.ms1 room now_fits fits)

set_with_ttl :
    (env : Env) (s : Keyspace) (key value ttl : Bytes) (ttl_sec : ℤ)
    → parse_int ttl ≡ some ttl_sec
    → cmd_set env s (key ∷ value ∷ codes "EX" ∷ ttl ∷ [])
      ≡ ((store_value env s key value (times_1000 ttl_sec)).0, resp_ok)
unfolding cmd_set store_ttl store_value beq
set_with_ttl env s key value ttl ttl_sec parsed = rw parsed refl

set_without_ttl :
    (env : Env) (s : Keyspace) (key value : Bytes)
    → cmd_set env s (key ∷ value ∷ []) ≡ ((store_value env s key value (negsuc 0)).0, resp_ok)
unfolding cmd_set store_value
set_without_ttl env s key value = refl

times_1000-InInt64 : (z : ℤ) → InInt64 (times_1000 z)
times_1000-InInt64 z = to_int64-InInt64 ((to_word z * 1000) % word_mod) (omega arith)

-- `SET key value EX seconds` and `SET key value`, below the key limit, are answered OK. After the first, a
-- `GET` of the key answers with the value until the seconds are over and with nil from then on, but with the
-- value for ever if the milliseconds, seconds * 1000 with the wrap-around of an `int64`, are not positive.
-- After the second it answers with the value for ever. After either, a `GET` of another key answers as it would
-- have without it. The seconds are an integer for `ParseInt`, the clock of the `SET` is in an `int64`, the `GET`
-- is the next command, and its clock does not go back.
pub cmd_get-cmd_set :
    (env env' : Env) (s : Keyspace) (key j value ttl : Bytes) (ttl_sec : ℤ)
    → parse_int ttl ≡ some ttl_sec
    → ge_int (Map.size s.dict.dict_store) env.config.max_key_number ≡ false
    → env.ms0 ≤ int_max
    → env'.ms0 ≤ env'.ms1
    → (let r = cmd_set env s (key ∷ value ∷ codes "EX" ∷ ttl ∷ []) in
        (r.1 ≡ resp_ok)
        × ((cmd_get env' r.0 (j ∷ [])).1
            ≡ value_reply (
                if beq key j
                then lifetime env.ms0 (times_1000 ttl_sec) env'.ms1 (some (str value))
                else visible s.dict j env'.ms1)))
      × (let r = cmd_set env s (key ∷ value ∷ []) in
          (r.1 ≡ resp_ok)
          × ((cmd_get env' r.0 (j ∷ [])).1
              ≡ value_reply (if beq key j then some (str value) else visible s.dict j env'.ms1)))
cmd_get-cmd_set env env' s key j value ttl ttl_sec parsed room now_fits le = (
  rw (set_with_ttl env s key value ttl ttl_sec parsed) (
    refl,
    get_after_store env env' s key j value (times_1000 ttl_sec) room now_fits
        (times_1000-InInt64 ttl_sec) le,
  ),
  rw (set_without_ttl env s key value)
      (refl, get_after_store env env' s key j value (negsuc 0) room now_fits (omega arith) le),
)

-- What `TTL` answers about a key: the whole seconds that are left of its time to live.
abbrev pub ttl_answer : Env → Bool → Option ℕ → Bytes
ttl_answer env false exp = ttl_key_not_exist
ttl_answer env true none = ttl_key_exist_no_expire
ttl_answer env true (some exp) =
    if leb exp env.ms2 then ttl_key_not_exist else encode (int (pos ((exp - env.ms1) / 1000))) false

abbrev is_there : Option Obj → Bool
is_there none = false
is_there (some o) = true

ttl_word :
    (exp ms1 ms2 : ℕ)
    → leb exp ms2 ≡ false
    → ms1 ≤ ms2
    → exp < word_mod
    → to_int64 (((exp + word_mod - ms1) % word_mod) / 1000) ≡ pos ((exp - ms1) / 1000)
ttl_word exp ms1 ms2 left le fits =
    let above : ms2 < exp = ground arith in
    let e : (exp + word_mod - ms1) % word_mod ≡ exp - ms1 = omega arith in rw e (ground arith)

expired_answer :
    (env : Env) (exp : Option ℕ)
    → expired_at env.ms0 exp ≡ true
    → env.ms0 ≤ env.ms2
    → ttl_key_not_exist ≡ ttl_answer env true exp
expired_answer env none over le = cc
expired_answer env (some exp) over le = let done : leb exp env.ms2 ≡ true = ground arith in rw done

ttl_left-answer :
    (env : Env) (exp : Option ℕ)
    → env.ms1 ≤ env.ms2
    → ((e : ℕ) → exp ≡ some e → e < word_mod)
    → ttl_left env exp ≡ ttl_answer env true exp
unfolding ttl_left
ttl_left-answer env none le fits = refl
ttl_left-answer env (some exp) le fits = elim (Bool-cases (leb exp env.ms2)) [
  | inl over ↦ rw over
  | inr left ↦
      rw left
        (ap (λ z. encode (int z) false) (ttl_word exp env.ms1 env.ms2 left le (fits exp refl)))
]

ttl_found :
    (env : Env) (d : Dict) (k : Bytes) (o : Option Obj)
    → env.ms0 ≤ env.ms1
    → env.ms1 ≤ env.ms2
    → ((e : ℕ) → Map.get d.expired_dict_store k ≡ some e → e < word_mod)
    → (let r = get_found d k o env.secs env.ms0 in ttl_reply env r.0 k r.1)
      ≡ ttl_answer env (is_there o) (Map.get d.expired_dict_store k)
unfolding get_found ttl_reply get_expiry has_expired
ttl_found env d k none le0 le1 fits = refl
ttl_found env d k (some o) le0 le1 fits =
    elim (Bool-cases (expired_at env.ms0 (Map.get d.expired_dict_store k))) [
      | inl over ↦ rw over (expired_answer env (Map.get d.expired_dict_store k) over (omega arith))
      | inr left ↦ rw left (ttl_left-answer env (Map.get d.expired_dict_store k) le1 fits)
    ]

-- `TTL` answers -2 for a key that is not there or has expired, -1 for one that never expires, and for
-- any other the whole seconds that are left, whatever time passes between its three readings of the
-- clock, when it does not go back and the expiry time is in a word.
pub cmd_ttl-answer :
    (env : Env) (s : Keyspace) (key : Bytes)
    → env.ms0 ≤ env.ms1
    → env.ms1 ≤ env.ms2
    → ((e : ℕ) → Map.get s.dict.expired_dict_store key ≡ some e → e < word_mod)
    → (cmd_ttl env s (key ∷ [])).1
      ≡ ttl_answer env
          (is_there (Map.get s.dict.dict_store key))
          (Map.get s.dict.expired_dict_store key)
unfolding cmd_ttl get
cmd_ttl-answer env s key le0 le1 fits =
    ttl_found env s.dict key (Map.get s.dict.dict_store key) le0 le1 fits
