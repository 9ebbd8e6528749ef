-- ===== src/Base/Result.antt =====
-- Go's (value, error) results: a value, or an error and no value that the callers read.
use live_collab.Base.Text.{Str}

pub data Error : Type 0 where
  -- what the connection to Redis or Redis itself reports
  redis_error : Str → Error
  -- strconv.ParseInt, json.Unmarshal
  parse_error : Error
  -- a reply that has not the form expected
  unexpected_reply : Error
  -- errReplayGap
  replay_gap : Error
  -- "resume cursor %d exceeds boundary %d"
  cursor_exceeds_boundary : Error
  -- a write to the WebSocket
  write_failed : Error
  -- an argument that the function refuses
  refused : Error
  -- the error of a context that is done
  context_done : Error
  -- a run-time panic, which ends the process
  panic : Error

pub data Result {ℓ} (A : Type ℓ) : Type ℓ where
  ok : A → Result A
  err : Error → Result A

infixl 5 ◌>>=◌
abbrev pub ◌>>=◌ {ℓ κ} : {A : Type ℓ} {B : Type κ} → Result A → (A → Result B) → Result B
ok a >>= f = f a
err e >>= f = err e
