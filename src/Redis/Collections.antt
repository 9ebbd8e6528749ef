-- ===== src/Redis/Collections.antt =====
-- Hashes and sorted sets of Redis, and Lua's arithmetic, as far as the scripts of redis_presence.go
-- rely on them. A hash is seen by the value of each field and a sorted set by the score of each
-- member; the order in which Redis keeps them is left open.
use live_collab.Base.{
  ℕ, ◌+◌, ◌*◌, ◌/◌, ◌<◌, ◌≡◌, ◌⊎◌, Bool, true, false, not, List, [], ◌∷◌, Option, none, some, Str,
  str_eq, contains, leb, if◌then◌else◌,
}
use live_collab.Base.Result.{Result, ok}
use live_collab.Base.Decimal.{format_int}
use live_collab.Reply.{Reply, nil, text}
use live_collab.Redis.{Redis, Value, missing, hash, zset}

-- The value at a key of a list of pairs.
unfoldable pub value_at {ℓ} : {V : Type ℓ} → Str → List (Str × V) → Option V
value_at f [] = none
value_at f ((g, v) ∷ m) = if str_eq g f then some v else value_at f m

-- The field of a hash and the score of a member; a missing key has none.
unfoldable pub field_of : Value → Str → Option Str
unfolding value_at
field_of (hash m) f = value_at f m
field_of _ f = none

unfoldable pub score_of : Value → Str → Option ℕ
unfolding value_at
score_of (zset m) f = value_at f m
score_of _ f = none

abbrev pub IsHash : Value → Type 0
IsHash v = (v ≡ missing) ⊎ ((m : List (Str × Str)) × (v ≡ hash m))

abbrev pub IsZset : Value → Type 0
IsZset v = (v ≡ missing) ⊎ ((m : List (Str × ℕ)) × (v ≡ zset m))

abbrev pub is_some {ℓ} : {A : Type ℓ} → Option A → Bool
is_some none = false
is_some (some a) = true

-- What stands at a key, with another value put in or taken out at one place.
abbrev pub with_value {ℓ} : {V : Type ℓ} → Str → Option V → (Str → Option V) → Str → Option V
with_value f v m g = if str_eq f g then v else m g

-- Only the hash, or only the sorted set, at one key changes, and becomes m.
pub record HashStep (before after : Str → Value) (k : Str) (m : Str → Option Str) : Type 0 where
  pub kept : IsHash (after k)
  pub fields : (f : Str) → field_of (after k) f ≡ m f
  pub others : (j : Str) → after j ≡ (if str_eq k j then after k else before j)

pub record ZsetStep (before after : Str → Value) (k : Str) (m : Str → Option ℕ) : Type 0 where
  pub kept : IsZset (after k)
  pub scores : (f : Str) → score_of (after k) f ≡ m f
  pub others : (j : Str) → after j ≡ (if str_eq k j then after k else before j)

abbrev pub Distinct : List Str → Type 0
Distinct [] = Unit {0}
Distinct (t ∷ ts) = (contains t ts ≡ false) × Distinct ts

-- The values of the fields in a list.
unfoldable pub values_of {ℓ} : {V : Type ℓ} → (Str → Option V) → List Str → List V
values_of m [] = []
values_of m (f ∷ fs) = elim (m f) [ some v ↦ v ∷ values_of m fs | none ↦ values_of m fs ]

-- Doubles are exact for whole numbers below 2 ^ 53.
abbrev pub exact_limit : ℕ
exact_limit = 0x20000000000000

-- Removed or not, as a command counts it.
abbrev pub one_if : Bool → ℕ
one_if true = 1
one_if false = 0

abbrev pub or_value {ℓ} : {V : Type ℓ} → Option V → V → V
or_value none v = v
or_value (some w) v = w

-- The members whose score is above a bound.
abbrev pub above : ℕ → Option ℕ → Option ℕ
above n none = none
above n (some s) = if leb s n then none else some s

-- TIME: the seconds and the microseconds behind them.
pub record Clock : Type 0 where
  pub seconds : ℕ
  pub micros : ℕ

abbrev pub milliseconds : Clock → ℕ
milliseconds c = c.seconds * 1000 + c.micros / 1000

pub record Collections (R : Redis) : Type 1 where
  -- HSETNX, HDEL, HEXISTS: the count in the reply, and the database.
  pub hsetnx : R.Db → Str → Str → Str → Result ℕ × R.Db
  pub hsetnx-reply :
      (db : R.Db) (k f v : Str)
      → IsHash (R.look db k)
      → (hsetnx db k f v).0 ≡ ok (one_if (not (is_some (field_of (R.look db k) f))))
  pub hsetnx-step :
      (db : R.Db) (k f v : Str)
      → IsHash (R.look db k)
      → HashStep
          (R.look db)
          (R.look (hsetnx db k f v).1)
          k
          (with_value f (some (or_value (field_of (R.look db k) f) v)) (field_of (R.look db k)))
  pub hdel : R.Db → Str → Str → Result ℕ × R.Db
  pub hdel-reply :
      (db : R.Db) (k f : Str)
      → IsHash (R.look db k)
      → (hdel db k f).0 ≡ ok (one_if (is_some (field_of (R.look db k) f)))
  pub hdel-step :
      (db : R.Db) (k f : Str)
      → IsHash (R.look db k)
      → HashStep (R.look db) (R.look (hdel db k f).1) k (with_value f none (field_of (R.look db k)))
  pub hexists : R.Db → Str → Str → Result ℕ
  pub hexists-reply :
      (db : R.Db) (k f : Str)
      → IsHash (R.look db k)
      → hexists db k f ≡ ok (one_if (is_some (field_of (R.look db k) f)))
  -- HKEYS and HVALS go through the fields in one order.
  pub keys : R.Db → Str → List Str
  pub hkeys : R.Db → Str → Result (List Str)
  pub hkeys-reply : (db : R.Db) (k : Str) → IsHash (R.look db k) → hkeys db k ≡ ok (keys db k)
  pub keys-Distinct : (db : R.Db) (k : Str) → IsHash (R.look db k) → Distinct (keys db k)
  pub contains-keys :
      (db : R.Db) (k f : Str)
      → IsHash (R.look db k)
      → contains f (keys db k) ≡ is_some (field_of (R.look db k) f)
  pub hvals : R.Db → Str → Result (List Str)
  pub hvals-reply :
      (db : R.Db) (k : Str)
      → IsHash (R.look db k)
      → hvals db k ≡ ok (values_of (field_of (R.look db k)) (keys db k))
  -- Lua's sum, order, product with 1000, and floor of the quotient by 1000.
  pub add : R.Num → R.Num → R.Num
  pub add-number :
      (a b : ℕ) → a + b < exact_limit → add (R.number a) (R.number b) ≡ R.number (a + b)
  pub num_le : R.Num → R.Num → Bool
  pub num_le-number :
      (a b : ℕ) → a < exact_limit → b < exact_limit → num_le (R.number a) (R.number b) ≡ leb a b
  pub times_thousand : R.Num → R.Num
  pub times_thousand-number :
      (a : ℕ) → a * 1000 < exact_limit → times_thousand (R.number a) ≡ R.number (a * 1000)
  pub floor_thousandth : R.Num → R.Num
  pub floor_thousandth-number :
      (a : ℕ) → a < exact_limit → floor_thousandth (R.number a) ≡ R.number (a / 1000)
  -- ZSCORE, ZADD, ZADD with XX, ZREM, ZREMRANGEBYSCORE from -inf.
  pub zscore : R.Db → Str → Str → Result Reply
  pub zscore-none :
      (db : R.Db) (k f : Str)
      → IsZset (R.look db k)
      → score_of (R.look db k) f ≡ none
      → zscore db k f ≡ ok nil
  pub zscore-some :
      (db : R.Db) (k f : Str) (s : ℕ)
      → IsZset (R.look db k)
      → score_of (R.look db k) f ≡ some s
      → s < exact_limit
      → zscore db k f ≡ ok (text (format_int s))
  pub zadd : R.Db → Str → R.Num → Str → Result ℕ × R.Db
  pub zadd-reply :
      (db : R.Db) (k : Str) (s : ℕ) (f : Str)
      → IsZset (R.look db k)
      → s < exact_limit
      → (zadd db k (R.number s) f).0 ≡ ok (one_if (not (is_some (score_of (R.look db k) f))))
  pub zadd-step :
      (db : R.Db) (k : Str) (s : ℕ) (f : Str)
      → IsZset (R.look db k)
      → s < exact_limit
      → ZsetStep
          (R.look db)
          (R.look (zadd db k (R.number s) f).1)
          k
          (with_value f (some s) (score_of (R.look db k)))
  pub zadd_xx : R.Db → Str → R.Num → Str → Result ℕ × R.Db
  pub zadd_xx-reply :
      (db : R.Db) (k : Str) (s : ℕ) (f : Str)
      → IsZset (R.look db k)
      → s < exact_limit
      → (zadd_xx db k (R.number s) f).0 ≡ ok 0
  pub zadd_xx-step :
      (db : R.Db) (k : Str) (s : ℕ) (f : Str)
      → IsZset (R.look db k)
      → s < exact_limit
      → ZsetStep (R.look db) (R.look (zadd_xx db k (R.number s) f).1) k (
          with_value f
            (if is_some (score_of (R.look db k) f) then some s else none)
            (score_of (R.look db k)))
  pub zrem : R.Db → Str → Str → Result ℕ × R.Db
  pub zrem-reply :
      (db : R.Db) (k f : Str)
      → IsZset (R.look db k)
      → (zrem db k f).0 ≡ ok (one_if (is_some (score_of (R.look db k) f)))
  pub zrem-step :
      (db : R.Db) (k f : Str)
      → IsZset (R.look db k)
      → ZsetStep (R.look db) (R.look (zrem db k f).1) k (with_value f none (score_of (R.look db k)))
  -- The count in the reply is not read; the reply is no error.
  pub zrem_up_to : R.Db → Str → R.Num → Result ℕ × R.Db
  pub zrem_up_to-reply :
      (db : R.Db) (k : Str) (n : ℕ)
      → IsZset (R.look db k)
      → n < exact_limit
      → (c : ℕ) × ((zrem_up_to db k (R.number n)).0 ≡ ok c)
  pub zrem_up_to-step :
      (db : R.Db) (k : Str) (n : ℕ)
      → IsZset (R.look db k)
      → n < exact_limit
      → ZsetStep
          (R.look db)
          (R.look (zrem_up_to db k (R.number n)).1)
          k
          (λ f. above n (score_of (R.look db k) f))
