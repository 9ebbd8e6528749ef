-- ===== src/Http.antt =====
-- server.go and originAllowed of config.go: the cross-origin rule in front of every handler, and
-- the endpoint that sets the artificial delay of Redis.
pub mod Origins
pub mod Examples
use live_collab.Base.{
  ℕ, Bool, true, false, not, ◌&&◌, ◌||◌, List, [], ◌∷◌, ◌++◌, Int64, Str, lit, str_eq, lt64,
  if◌then◌else◌,
}
use live_collab.Base.Result.{Result, ok, err}
use live_collab.Base.Decimal.{parse_int}

-- The loop of originAllowed.
unfoldable pub any_candidate : Str → List Str → Bool
any_candidate origin [] = false
any_candidate origin (candidate ∷ rest) =
    if str_eq candidate (lit "*") || str_eq candidate origin
    then true
    else any_candidate origin rest

-- originAllowed.
unfoldable pub origin_allowed : Str → List Str → Bool
unfolding any_candidate
origin_allowed [] allowed = true
origin_allowed (c ∷ origin) allowed = any_candidate (c ∷ origin) allowed

-- What becomes of a request: it is answered with a status, or it goes on to the next handler.
pub data Verdict : Type 0 where
  answer : ℕ → Verdict
  next : Verdict

abbrev pub origin_headers : Str → List (Str × Str)
origin_headers origin =
    (lit "Access-Control-Allow-Origin", origin) ∷ (lit "Vary", lit "Origin") ∷ []

abbrev pub common_headers : List (Str × Str)
common_headers =
    (lit "Access-Control-Allow-Methods", lit "GET, POST, OPTIONS")
    ∷ (lit "Access-Control-Allow-Headers", lit "Content-Type")
    ∷ []

-- enableCORS on the Origin header and the method: the headers set, and the verdict.
unfoldable pub enable_cors : List Str → Str → Str → List (Str × Str) × Verdict
enable_cors allowed origin method = (
  (if origin_allowed origin allowed && not (str_eq origin []) then origin_headers origin else [])
      ++ common_headers,
  if str_eq method (lit "OPTIONS")
      then (if not (origin_allowed origin allowed) then answer 403 else answer 204)
      else next,
)

-- SetArtificialDelay.
unfoldable pub set_artificial_delay : Int64 → Int64
set_artificial_delay ms = if lt64 ms 0 then 0 else ms

check_delay : Int64 → Result Int64 → ℕ × Int64
unfolding set_artificial_delay
check_delay delay (err e) = (400, delay)
check_delay delay (ok ms) =
    if lt64 ms 0 || lt64 5000 ms then (400, delay) else (200, set_artificial_delay ms)

-- POST /debug/faults/redis-delay: the status, and the delay of the store after it.
unfoldable pub set_redis_delay : Bool → Bool → Str → Int64 → ℕ × Int64
unfolding check_delay
set_redis_delay enable_debug_faults has_store ms delay =
    if not enable_debug_faults || not has_store
    then (404, delay)
    else check_delay delay (parse_int ms)
