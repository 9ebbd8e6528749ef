-- ===== src/Redis/MemoryCollections.antt =====
-- The database in memory with hashes and sorted sets: the laws of Redis.Collections can hold
-- together with those of Redis.
use live_collab.Base.{
  ℕ, ◌+◌, ◌*◌, ◌/◌, ◌≡◌, refl, sym, ◌∙◌, ap, inl, inr, not, List, [], Option, none, some, Str,
  str_eq, str_eq_refl, str_eq-cases, contains, leb, if◌then◌else◌, Option-cases,
}
use live_collab.Base.Result.{ok}
use live_collab.Base.Decimal.{format_int}
use live_collab.Reply.{Reply, nil, text}
use live_collab.Redis.{Value, missing, string, stream, hash, zset}
use live_collab.Redis.Memory.{Memory, memory, write}
use live_collab.Redis.Collections.{
  Collections, value_at, field_of, score_of, IsHash, IsZset, HashStep, ZsetStep, with_value, above,
  is_some, one_if, or_value, values_of, Distinct,
}
use live_collab.Redis.Tables.{
  put, remove, keys_of, drop_up_to, put_lem, remove_lem, drop_up_to_lem, contains-keys_of,
  keys_of-Distinct,
}

-- The hash at a key becomes another one; a value of another kind stays.
pub change_hash : Memory → Str → (List (Str × Str) → List (Str × Str)) → Value → Memory
change_hash db k g missing = write db k (hash (g []))
change_hash db k g (hash m) = write db k (hash (g m))
change_hash db k g _ = db

pub change_zset : Memory → Str → (List (Str × ℕ) → List (Str × ℕ)) → Value → Memory
change_zset db k g missing = write db k (zset (g []))
change_zset db k g (zset m) = write db k (zset (g m))
change_zset db k g _ = db

written_lem : (db : Memory) (k : Str) (v : Value) → write db k v k ≡ v
unfolding write
written_lem db k v = rw (str_eq_refl k)

others_lem :
    (db : Memory) (k : Str) (v : Value) (j : Str)
    → write db k v j ≡ (if str_eq k j then write db k v k else db j)
unfolding write
others_lem db k v j = rw (str_eq_refl k)

hash_written :
    (db : Memory) (k : Str) (m : List (Str × Str)) (M : Str → Option Str)
    → ((f : Str) → value_at f m ≡ M f)
    → HashStep db (write db k (hash m)) k M
unfolding field_of
hash_written db k m M h = record {
  kept = inr (m, written_lem db k (hash m));
  fields = λ f. ap (λ v. field_of v f) (written_lem db k (hash m)) ∙ h f;
  others = others_lem db k (hash m);
}

zset_written :
    (db : Memory) (k : Str) (m : List (Str × ℕ)) (M : Str → Option ℕ)
    → ((f : Str) → value_at f m ≡ M f)
    → ZsetStep db (write db k (zset m)) k M
unfolding score_of
zset_written db k m M h = record {
  kept = inr (m, written_lem db k (zset m));
  scores = λ f. ap (λ v. score_of v f) (written_lem db k (zset m)) ∙ h f;
  others = others_lem db k (zset m);
}

pub change_hash_lem :
    (g : List (Str × Str) → List (Str × Str)) (M : (Str → Option Str) → Str → Option Str)
    → ((m : List (Str × Str)) (f : Str) → value_at f (g m) ≡ M (λ j. value_at j m) f)
    → (db : Memory) (k : Str) (v : Value) → IsHash v
    → HashStep db (change_hash db k g v) k (M (field_of v))
unfolding change_hash field_of value_at
change_hash_lem g M h db k missing is = hash_written db k (g []) (M (λ j. none)) (h [])
change_hash_lem g M h db k (hash m) is = hash_written db k (g m) (M (λ j. value_at j m)) (h m)
change_hash_lem g M h db k (string s) (inl e) = cc
change_hash_lem g M h db k (string s) (inr (m, e)) = cc
change_hash_lem g M h db k (stream es) (inl e) = cc
change_hash_lem g M h db k (stream es) (inr (m, e)) = cc
change_hash_lem g M h db k (zset z) (inl e) = cc
change_hash_lem g M h db k (zset z) (inr (m, e)) = cc

pub change_zset_lem :
    (g : List (Str × ℕ) → List (Str × ℕ)) (M : (Str → Option ℕ) → Str → Option ℕ)
    → ((m : List (Str × ℕ)) (f : Str) → value_at f (g m) ≡ M (λ j. value_at j m) f)
    → (db : Memory) (k : Str) (v : Value) → IsZset v
    → ZsetStep db (change_zset db k g v) k (M (score_of v))
unfolding change_zset score_of value_at
change_zset_lem g M h db k missing is = zset_written db k (g []) (M (λ j. none)) (h [])
change_zset_lem g M h db k (zset m) is = zset_written db k (g m) (M (λ j. value_at j m)) (h m)
change_zset_lem g M h db k (string s) (inl e) = cc
change_zset_lem g M h db k (string s) (inr (m, e)) = cc
change_zset_lem g M h db k (stream es) (inl e) = cc
change_zset_lem g M h db k (stream es) (inr (m, e)) = cc
change_zset_lem g M h db k (hash z) (inl e) = cc
change_zset_lem g M h db k (hash z) (inr (m, e)) = cc

-- HSETNX and ZADD with XX on the pairs.
pub put_new : Str → Str → List (Str × Str) → List (Str × Str)
put_new f v m = put f (or_value (value_at f m) v) m

pub put_new_lem :
    (f v : Str) (m : List (Str × Str)) (j : Str)
    → value_at j (put_new f v m)
      ≡ with_value f (some (or_value (value_at f m) v)) (λ i. value_at i m) j
unfolding put_new
put_new_lem f v m j = put_lem f (or_value (value_at f m) v) m j

pub put_there : Str → ℕ → List (Str × ℕ) → List (Str × ℕ)
put_there f s m = if is_some (value_at f m) then put f s m else m

pub put_there_lem :
    (f : Str) (s : ℕ) (m : List (Str × ℕ)) (j : Str)
    → value_at j (put_there f s m)
      ≡ with_value f (if is_some (value_at f m) then some s else none) (λ i. value_at i m) j
unfolding put_there
put_there_lem f s m j = elim (Option-cases (value_at f m)) [
  | inl e ↦ rw e (same_without j e)
  | inr (t, e) ↦ rw e (put_lem f s m j)
]
  where
    same_without :
        (j : Str) → value_at f m ≡ none → value_at j m ≡ (if str_eq f j then none else value_at j m)
    same_without j e = elim (str_eq-cases f j) [
      | inl (t, same) ↦ rw t (ap (λ i. value_at i m) (sym same) ∙ e)
      | inr t ↦ rw t
    ]

pub keys_at : Value → List Str
keys_at (hash m) = keys_of m
keys_at _ = []

pub contains-keys_at : (v : Value) (f : Str) → contains f (keys_at v) ≡ is_some (field_of v f)
unfolding keys_at field_of
contains-keys_at missing f = refl
contains-keys_at (string s) f = refl
contains-keys_at (stream es) f = refl
contains-keys_at (hash m) f = contains-keys_of m f
contains-keys_at (zset z) f = refl

pub keys_at-Distinct : (v : Value) → Distinct (keys_at v)
unfolding keys_at
keys_at-Distinct missing = record {}
keys_at-Distinct (string s) = record {}
keys_at-Distinct (stream es) = record {}
keys_at-Distinct (hash m) = keys_of-Distinct m
keys_at-Distinct (zset z) = record {}

pub score_reply : Option ℕ → Reply
score_reply none = nil
score_reply (some s) = text (format_int s)

pub score_some : (o : Option ℕ) (s : ℕ) → o ≡ some s → ok (score_reply o) ≡ ok (text (format_int s))
unfolding score_reply
score_some o s e = rw e

pub score_none : (o : Option ℕ) → o ≡ none → ok (score_reply o) ≡ ok nil
unfolding score_reply
score_none o e = rw e

abbrev pub collections : Collections memory
collections = record {
  hsetnx = λ db k f v.
      (ok (one_if (not (is_some (field_of (db k) f)))), change_hash db k (put_new f v) (db k));
  hsetnx-reply = λ db k f v _. refl;
  hsetnx-step = λ db k f v h.
      change_hash_lem (put_new f v) (λ o. with_value f (some (or_value (o f) v)) o)
        (put_new_lem f v) db k (db k) h;
  hdel = λ db k f. (ok (one_if (is_some (field_of (db k) f))), change_hash db k (remove f) (db k));
  hdel-reply = λ db k f _. refl;
  hdel-step = λ db k f h.
      change_hash_lem (remove f) (λ o. with_value f none o) (remove_lem f) db k (db k) h;
  hexists = λ db k f. ok (one_if (is_some (field_of (db k) f)));
  hexists-reply = λ db k f _. refl;
  keys = λ db k. keys_at (db k);
  hkeys = λ db k. ok (keys_at (db k));
  hkeys-reply = λ db k _. refl;
  keys-Distinct = λ db k _. keys_at-Distinct (db k);
  contains-keys = λ db k f _. contains-keys_at (db k) f;
  hvals = λ db k. ok (values_of (field_of (db k)) (keys_at (db k)));
  hvals-reply = λ db k _. refl;
  add = λ a b. a + b;
  add-number = λ a b _. refl;
  num_le = leb;
  num_le-number = λ a b _ _. refl;
  times_thousand = λ a. a * 1000;
  times_thousand-number = λ a _. refl;
  floor_thousandth = λ a. a / 1000;
  floor_thousandth-number = λ a _. refl;
  zscore = λ db k f. ok (score_reply (score_of (db k) f));
  zscore-none = λ db k f _ e. score_none (score_of (db k) f) e;
  zscore-some = λ db k f s _ e _. score_some (score_of (db k) f) s e;
  zadd = λ db k s f.
      (ok (one_if (not (is_some (score_of (db k) f)))), change_zset db k (put f s) (db k));
  zadd-reply = λ db k s f _ _. refl;
  zadd-step = λ db k s f h _.
      change_zset_lem (put f s) (λ o. with_value f (some s) o) (put_lem f s) db k (db k) h;
  zadd_xx = λ db k s f. (ok 0, change_zset db k (put_there f s) (db k));
  zadd_xx-reply = λ db k s f _ _. refl;
  zadd_xx-step = λ db k s f h _.
      change_zset_lem (put_there f s) (λ o. with_value f (if is_some (o f) then some s else none) o)
        (put_there_lem f s) db k (db k) h;
  zrem = λ db k f. (ok (one_if (is_some (score_of (db k) f))), change_zset db k (remove f) (db k));
  zrem-reply = λ db k f _. refl;
  zrem-step = λ db k f h.
      change_zset_lem (remove f) (λ o. with_value f none o) (remove_lem f) db k (db k) h;
  zrem_up_to = λ db k n. (ok 0, change_zset db k (drop_up_to n) (db k));
  zrem_up_to-reply = λ db k n _ _. (0, refl);
  zrem_up_to-step = λ db k n h _.
      change_zset_lem (drop_up_to n) (λ o f. above n (o f)) (drop_up_to_lem n) db k (db k) h;
}
