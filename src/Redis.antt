-- ===== src/Redis.antt =====
-- The Redis server and its Lua interpreter, as far as the scripts of redis_store.go and
-- redis_presence.go rely on them. Redis is no part of the repository: it is a parameter, with the
-- documented effect of each command as a law, stated by what a key holds afterwards.
pub mod Memory
pub mod Collections
pub mod Tables
pub mod MemoryCollections
use live_collab.Base.{
  ℕ, ◌+◌, ◌<◌, ◌≡◌, ◌≢◌, ◌⊎◌, Bool, true, false, List, [], ◌∷◌, ◌++◌, Option, none, some, All,
  Int64, int64_limit, Str, lit, str_eq, ◌==◌, if◌then◌else◌,
}
use live_collab.Base.Result.{Result, ok, err}
use live_collab.Base.Decimal.{format_int}
use live_collab.Reply.{Reply, nil, text}

-- An entry of a stream: its ID and its flat list of fields and values.
pub record Entry : Type 0 where
  pub id : Str
  pub fields : List Str

-- What a key holds.
pub data Value : Type 0 where
  missing : Value
  string : Str → Value
  stream : List Entry → Value
  hash : List (Str × Str) → Value
  zset : List (Str × ℕ) → Value

-- A counter, which counts from 0 on a missing key; a text; the entries of a stream.
abbrev pub IsCounter : Value → Int64 → Type 0
IsCounter v n = (v ≡ string (format_int n)) ⊎ ((v ≡ missing) × (n ≡ 0))

abbrev pub IsText : Value → Str → Type 0
IsText v s = (v ≡ string s) ⊎ ((v ≡ missing) × (s ≡ []))

abbrev pub IsStream : Value → List Entry → Type 0
IsStream v es = (v ≡ stream es) ⊎ ((v ≡ missing) × (es ≡ []))

-- The largest version that the script prints without an exponent: Lua's tostring has 14 digits.
abbrev pub lua_limit : ℕ
lua_limit = 100000000000000

pub record Redis : Type 1 where
  pub Db : Type 0
  pub look : Db → Str → Value
  pub get : Db → Str → Result Reply
  pub get-string : (db : Db) (k v : Str) → look db k ≡ string v → get db k ≡ ok (text v)
  pub get-missing : (db : Db) (k : Str) → look db k ≡ missing → get db k ≡ ok nil
  pub set : Db → Str → Str → Db
  pub look-set :
      (db : Db) (k v j : Str) → look (set db k v) j ≡ (if str_eq k j then string v else look db j)
  -- INCR, which fails on a value that is no number or at the largest int64.
  pub incr : Db → Str → Result Int64 × Db
  pub incr-counter :
      (db : Db) (k : Str) (n : Int64)
      → IsCounter (look db k) n
      → n + 1 < int64_limit
      → (incr db k).0 ≡ ok (n + 1)
  pub look-incr :
      (db : Db) (k : Str) (n : Int64)
      → IsCounter (look db k) n
      → n + 1 < int64_limit
      → (j : Str)
      → look (incr db k).1 j ≡ (if str_eq k j then string (format_int (n + 1)) else look db j)
  -- XADD with the ID "*": Redis makes up an ID that no entry has, and puts the entry at the end.
  pub xadd : Db → Str → List Str → Result Str × Db
  pub new_id : Db → Str → Str
  pub xadd-stream :
      (db : Db) (k : Str) (fields : List Str) (es : List Entry)
      → IsStream (look db k) es
      → (xadd db k fields).0 ≡ ok (new_id db k)
  pub look-xadd :
      (db : Db) (k : Str) (fields : List Str) (es : List Entry)
      → IsStream (look db k) es
      → (j : Str)
      → look (xadd db k fields).1 j ≡ (
          if str_eq k j
          then stream (es ++ record { id = new_id db k; fields = fields } ∷ [])
          else look db j)
  pub new_id-fresh :
      (db : Db) (k : Str) (es : List Entry)
      → IsStream (look db k) es
      → All (λ e. e.id ≢ new_id db k) es
  -- Lua's numbers: the number of a decimal text, equality, the successor, tostring, and the
  -- integer that a number becomes in a reply. Doubles are exact here below the limit.
  pub Num : Type 0
  pub number : Int64 → Num
  pub tonumber : Str → Option Num
  pub tostring : Num → Str
  pub num_eq : Num → Num → Bool
  pub successor : Num → Num
  pub to_reply : Num → Int64
  pub tonumber-format_int :
      (x : Int64) → x < 0x10000000000000000 → tonumber (format_int x) ≡ some (number x)
  pub num_eq-number :
      (b n : Int64)
      → b < 0x10000000000000000
      → n < lua_limit
      → num_eq (number b) (number n) ≡ (b == n)
  pub successor-number : (n : Int64) → n + 1 < lua_limit → successor (number n) ≡ number (n + 1)
  pub tostring-number : (n : Int64) → n < lua_limit → tostring (number n) ≡ format_int n
  pub to_reply-number : (n : Int64) → n < lua_limit → to_reply (number n) ≡ n
