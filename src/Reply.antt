-- ===== src/Reply.antt =====
-- The values of redis_client.go: what readRESP returns, and the two conversions of it.
use live_collab.Base.{[], ◌∷◌, ◌++◌, Int64, Str, lit}
use live_collab.Base.Result.{Result, ok, err, unexpected_reply}
use live_collab.Base.Decimal.{format_int, parse_int}

-- The any of Go as far as readRESP makes it: nil, a string, an int64, or a slice of values.
mutual
  pub data Reply : Type 0 where
    nil : Reply
    text : Str → Reply
    int : Int64 → Reply
    arr : Replies → Reply

  pub data Replies : Type 0 where
    end : Replies
    item : Reply → Replies → Replies

-- fmt.Sprint of a value in a slice, and of the values of a slice with spaces between them.
unfoldable mutual
  unfolding format_int

  pub sprint : Reply → Str
  sprint nil = lit "<nil>"
  sprint (text s) = s
  sprint (int n) = format_int n
  sprint (arr rs) = b'[' ∷ sprint_items rs

  pub sprint_items : Replies → Str
  sprint_items end = b']' ∷ []
  sprint_items (item r rs) = sprint r ++ sprint_more rs

  pub sprint_more : Replies → Str
  sprint_more end = b']' ∷ []
  sprint_more (item r rs) = b' ' ∷ (sprint r ++ sprint_more rs)

-- redisString.
unfoldable pub redis_string : Reply → Str
unfolding sprint
redis_string nil = []
redis_string (text s) = s
redis_string (int n) = format_int n
redis_string (arr rs) = sprint (arr rs)

unfoldable pub text_to_int : Str → Result Int64
text_to_int [] = ok 0
text_to_int (c ∷ s) = parse_int (c ∷ s)

-- redisInt64.
unfoldable pub redis_int64 : Reply → Result Int64
unfolding text_to_int
redis_int64 (int n) = ok n
redis_int64 (text s) = text_to_int s
redis_int64 nil = ok 0
redis_int64 (arr rs) = err unexpected_reply
