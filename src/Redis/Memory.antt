-- ===== src/Redis/Memory.antt =====
-- A database in memory that meets the laws of the Redis interface: they can hold together.
use live_collab.Base.{
  ℕ, ◌+◌, ◌<◌, ◌≡◌, ◌≢◌, refl, subst, append_assoc, ap, inl, inr, List, [], ◌∷◌, ◌++◌, Option, none,
  some, All, arith, Int64, int64_limit, Str, str_eq, length, length-append, if◌then◌else◌, ◌==◌,
  ltb,
}
use live_collab.Base.Result.{Result, ok, err, unexpected_reply}
use live_collab.Base.Decimal.{format_int, parse_int, parse_int-format_int}
use live_collab.Reply.{Reply, nil, text}
use live_collab.Redis.{Redis, Entry, Value, missing, string, stream, IsCounter, IsStream}

abbrev pub Memory : Type 0
Memory = Str → Value

unfoldable pub write : Memory → Str → Value → Memory
write db k v j = if str_eq k j then v else db j

pub get_value : Value → Result Reply
get_value missing = ok nil
get_value (string s) = ok (text s)
get_value _ = err unexpected_reply

counted : Result Int64 → Result Int64
counted (ok n) = if ltb (n + 1) int64_limit then ok (n + 1) else err unexpected_reply
counted (err e) = err e

pub incr_value : Value → Result Int64
unfolding counted
incr_value missing = ok 1
incr_value (string s) = counted (parse_int s)
incr_value _ = err unexpected_reply

pub store_count : Memory → Str → Result Int64 → Result Int64 × Memory
store_count db k (ok n) = (ok n, write db k (string (format_int n)))
store_count db k (err e) = (err e, db)

pub entries_of : Value → Result (List Entry)
entries_of missing = ok []
entries_of (stream es) = ok es
entries_of _ = err unexpected_reply

-- An ID longer than all others.
longer : List Entry → Str
longer [] = b'0' ∷ []
longer (e ∷ es) = e.id ++ longer es

pub fresh_id : Result (List Entry) → Str
fresh_id (ok es) = longer es
fresh_id (err e) = []

pub store_entry : Memory → Str → List Str → Result (List Entry) → Result Str × Memory
unfolding longer
store_entry db k fields (ok es) =
    (ok (longer es), write db k (stream (es ++ record { id = longer es; fields = fields } ∷ [])))
store_entry db k fields (err e) = (err e, db)

pub to_option : Result Int64 → Option Int64
to_option (ok n) = some n
to_option (err e) = none

pub look_set :
    (db : Memory) (k v j : Str) → write db k (string v) j ≡ (if str_eq k j then string v else db j)
unfolding write
look_set db k v j = refl

pub get_string : (db : Memory) (k v : Str) → db k ≡ string v → get_value (db k) ≡ ok (text v)
unfolding get_value
get_string db k v e = rw e

pub get_missing : (db : Memory) (k : Str) → db k ≡ missing → get_value (db k) ≡ ok nil
unfolding get_value
get_missing db k e = rw e

counter_lem :
    (v : Value) (n : Int64) → IsCounter v n → n + 1 < int64_limit → incr_value v ≡ ok (n + 1)
unfolding incr_value
counter_lem v n (inl e) h = rw (e, incr_value, parse_int-format_int n (omega arith)) (ground arith)
counter_lem v n (inr (e, z)) h = rw (e, z)

pub incr_counter :
    (db : Memory) (k : Str) (n : Int64)
    → IsCounter (db k) n
    → n + 1 < int64_limit
    → (store_count db k (incr_value (db k))).0 ≡ ok (n + 1)
unfolding store_count
incr_counter db k n c h = rw (counter_lem (db k) n c h)

pub look_incr :
    (db : Memory) (k : Str) (n : Int64)
    → IsCounter (db k) n
    → n + 1 < int64_limit
    → (j : Str)
    → (store_count db k (incr_value (db k))).1 j
      ≡ (if str_eq k j then string (format_int (n + 1)) else db j)
unfolding store_count write
look_incr db k n c h j = rw (counter_lem (db k) n c h)

stream_lem : (v : Value) (es : List Entry) → IsStream v es → entries_of v ≡ ok es
unfolding entries_of
stream_lem v es (inl e) = rw e
stream_lem v es (inr (e, z)) = rw (e, z)

pub xadd_stream :
    (db : Memory) (k : Str) (fields : List Str) (es : List Entry)
    → IsStream (db k) es
    → (store_entry db k fields (entries_of (db k))).0 ≡ ok (fresh_id (entries_of (db k)))
unfolding store_entry fresh_id
xadd_stream db k fields es h = rw (stream_lem (db k) es h)

pub look_xadd :
    (db : Memory) (k : Str) (fields : List Str) (es : List Entry)
    → IsStream (db k) es
    → (j : Str)
    → (store_entry db k fields (entries_of (db k))).1 j ≡ (
        if str_eq k j
        then stream (es ++ record { id = fresh_id (entries_of (db k)); fields = fields } ∷ [])
        else db j)
unfolding store_entry fresh_id write
look_xadd db k fields es h j = rw (stream_lem (db k) es h)

longer-pos : (es : List Entry) → 0 < length (longer es)
unfolding longer
longer-pos [] = omega arith
longer-pos (e ∷ es) = omega (arith, length-append e.id (longer es), longer-pos es)

longer_lem : (p : Str) (es : List Entry) → All (λ e. e.id ≢ p ++ longer es) es
unfolding longer
longer_lem p [] = tt
longer_lem p (e ∷ es) = (
  λ h. omega (
    arith,
    ap length h,
    length-append p (e.id ++ longer es),
    length-append e.id (longer es),
    longer-pos es,
  ),
  subst (λ x. All (λ (f : Entry). f.id ≢ x) es) (append_assoc p e.id (longer es))
      (longer_lem (p ++ e.id) es),
)

pub new_id_fresh :
    (db : Memory) (k : Str) (es : List Entry)
    → IsStream (db k) es
    → All (λ e. e.id ≢ fresh_id (entries_of (db k))) es
unfolding fresh_id
new_id_fresh db k es h = rw (stream_lem (db k) es h) (longer_lem [] es)

pub tonumber_lem :
    (x : Int64) → x < 0x10000000000000000 → to_option (parse_int (format_int x)) ≡ some x
unfolding to_option
tonumber_lem x h = rw (parse_int-format_int x h)

-- The laws are those of the interface, for the commands above and numbers that are exact.
abbrev pub memory : Redis
memory = record {
  Db = Memory;
  look = λ db k. db k;
  get = λ db k. get_value (db k);
  get-string = get_string;
  get-missing = get_missing;
  set = λ db k v. write db k (string v);
  look-set = look_set;
  incr = λ db k. store_count db k (incr_value (db k));
  incr-counter = incr_counter;
  look-incr = look_incr;
  xadd = λ db k fields. store_entry db k fields (entries_of (db k));
  new_id = λ db k. fresh_id (entries_of (db k));
  xadd-stream = xadd_stream;
  look-xadd = look_xadd;
  new_id-fresh = new_id_fresh;
  Num = ℕ;
  number = λ x. x;
  tonumber = λ s. to_option (parse_int s);
  tostring = format_int;
  num_eq = λ a b. a == b;
  successor = λ n. n + 1;
  to_reply = λ n. n;
  tonumber-format_int = tonumber_lem;
  num_eq-number = λ b n _ _. refl;
  successor-number = λ n _. refl;
  tostring-number = λ n _. refl;
  to_reply-number = λ n _. refl;
}

-- The database with no key.
abbrev pub empty_memory : Str → Value
empty_memory k = missing
