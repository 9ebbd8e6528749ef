-- ===== src/Http/Examples.antt =====
-- A preflight from an origin that is not listed, a request for a delay, and the theorems at them.
use live_collab.Base.{
  ◌≤◌, ◌≡◌, ◌⊎◌, some, true, List, [], ◌∷◌, arith, Str, lit, str_eq, if◌then◌else◌,
}
use live_collab.Base.Decimal.{format_int}
use live_collab.Http.{enable_cors, answer, next, set_redis_delay}
use live_collab.Http.Origins.{listed, header, if_named, enable_cors_lem, set_redis_delay-bounds}

abbrev origins : List Str
origins = lit "http://localhost:5173" ∷ []

enable_cors_lem_example :
    let stranger = lit "http://example.org" in
    let (headers, verdict) = enable_cors origins stranger (lit "OPTIONS") in
    (header (lit "Access-Control-Allow-Origin") headers ≡ if_named stranger origins stranger)
    × (header (lit "Vary") headers ≡ if_named stranger origins (lit "Origin"))
    × (header (lit "Access-Control-Allow-Methods") headers ≡ some (lit "GET, POST, OPTIONS"))
    × (header (lit "Access-Control-Allow-Headers") headers ≡ some (lit "Content-Type"))
    × (verdict ≡ (
        if str_eq (lit "OPTIONS") (lit "OPTIONS")
        then (if listed stranger origins then answer 204 else answer 403)
        else next))
enable_cors_lem_example = enable_cors_lem origins (lit "http://example.org") (lit "OPTIONS")

set_redis_delay-bounds_example :
    ((set_redis_delay true true (lit "250") 0).1 ≤ 5000)
    × (((set_redis_delay true true (lit "250") 0).0 ≡ 200)
        ⊎ ((set_redis_delay true true (lit "250") 0).1 ≡ 0))
    × (set_redis_delay true true (format_int 40) 0 ≡ (200, 40))
set_redis_delay-bounds_example =
    set_redis_delay-bounds true true (lit "250") 40 0 (omega arith) (omega arith)
