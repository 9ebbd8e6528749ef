-- ===== src/Http/Origins.antt =====
-- originAllowed, enableCORS and the delay endpoint: which origins are let in, and which delays.
use live_collab.Base.{
  ℕ, ◌≤◌, ◌≡◌, refl, inl, inr, ◌⊎◌, Option, none, some, Bool, true, not, ◌&&◌, ◌||◌, List, [], ◌∷◌,
  arith, Int64, subst, Str, lit, str_eq, contains, rank64, lt64, if◌then◌else◌, Bool-cases,
}
use live_collab.Base.Result.{Result, ok, err}
use live_collab.Base.Decimal.{
  parse_int, format_int, parse_int-format_int, IsBounded, parse_int-IsBounded,
}
use live_collab.Http.{
  any_candidate, origin_allowed, enable_cors, answer, next, set_redis_delay, check_delay,
  set_artificial_delay,
}

any_candidate_lem :
    (origin : Str) (allowed : List Str)
    → any_candidate origin allowed ≡ (contains (lit "*") allowed || contains origin allowed)
unfolding any_candidate
any_candidate_lem origin [] = refl
any_candidate_lem origin (c ∷ rest) = ground (arith, any_candidate_lem origin rest)

-- The origins that are let in: none at all, or a listed one, or any where "*" is listed.
abbrev pub listed : Str → List Str → Bool
listed origin allowed = str_eq origin [] || contains (lit "*") allowed || contains origin allowed

origin_allowed_lem :
    (origin : Str) (allowed : List Str) → origin_allowed origin allowed ≡ listed origin allowed
unfolding origin_allowed str_eq
origin_allowed_lem [] allowed = refl
origin_allowed_lem (c ∷ origin) allowed = any_candidate_lem (c ∷ origin) allowed

-- The value of a header in an answer.
abbrev pub header : Str → List (Str × Str) → Option Str
header name [] = none
header name ((n, v) ∷ headers) = if str_eq n name then some v else header name headers

-- A text where the request's origin is given and let in.
abbrev pub if_named : Str → List Str → Str → Option Str
if_named origin allowed value =
    if not (str_eq origin []) && (contains (lit "*") allowed || contains origin allowed)
    then some value
    else none

named_lem :
    (origin : Str) (allowed : List Str) (value : Str)
    → (if origin_allowed origin allowed && not (str_eq origin []) then some value else none)
      ≡ if_named origin allowed value
named_lem origin allowed value = rw (origin_allowed_lem origin allowed) (ground arith)

-- The cross-origin rule. The answer's Access-Control-Allow-Origin is the request's origin, and it has
-- Vary: Origin, exactly if an origin is given and it is listed or "*" is; the methods and the
-- request headers are named in every answer. A preflight is answered, with 403 exactly for an
-- origin that is given and neither listed nor covered by "*", and with 204 otherwise; every other
-- request goes on to its handler.
pub enable_cors_lem :
    (allowed : List Str) (origin method : Str)
    → let (headers, verdict) = enable_cors allowed origin method in
      (header (lit "Access-Control-Allow-Origin") headers ≡ if_named origin allowed origin)
      × (header (lit "Vary") headers ≡ if_named origin allowed (lit "Origin"))
      × (header (lit "Access-Control-Allow-Methods") headers ≡ some (lit "GET, POST, OPTIONS"))
      × (header (lit "Access-Control-Allow-Headers") headers ≡ some (lit "Content-Type"))
      × (verdict ≡ (
          if str_eq method (lit "OPTIONS")
          then (if listed origin allowed then answer 204 else answer 403)
          else next))
unfolding enable_cors str_eq
enable_cors_lem allowed origin method =
    let go = origin_allowed origin allowed && not (str_eq origin []) in
    let Named : Str → Bool → Type 0 =
      λ value b. (if b then some value else none) ≡ if_named origin allowed value in
    (
      elim (Bool-cases go) [
        | inl e ↦ rw e (subst (Named origin) e (named_lem origin allowed origin))
        | inr e ↦ rw e (subst (Named origin) e (named_lem origin allowed origin))
      ],
      elim (Bool-cases go) [
        | inl e ↦ rw e (subst (Named (lit "Origin")) e (named_lem origin allowed (lit "Origin")))
        | inr e ↦ rw e (subst (Named (lit "Origin")) e (named_lem origin allowed (lit "Origin")))
      ],
      elim (Bool-cases go) [ inl e ↦ rw e | inr e ↦ rw e ],
      elim (Bool-cases go) [ inl e ↦ rw e | inr e ↦ rw e ],
      rw (origin_allowed_lem origin allowed)
          (elim (Bool-cases (listed origin allowed)) [ inl e ↦ rw e | inr e ↦ rw e ]),
    )

check_delay-bounds :
    (delay : Int64) (r : Result Int64)
    → delay ≤ 5000
    → IsBounded r
    → ((check_delay delay r).1 ≤ 5000)
      × (((check_delay delay r).0 ≡ 200) ⊎ ((check_delay delay r).1 ≡ delay))
unfolding check_delay set_artificial_delay rank64
check_delay-bounds delay (err e) h w = (h, inr refl)
check_delay-bounds delay (ok ms) h w = elim (Bool-cases (lt64 ms 0 || lt64 5000 ms)) [
  | inl e ↦ rw e (h, inr refl)
  | inr e ↦ rw e (ground arith, inl refl)
]

check_delay_fits : (delay : Int64) (ms : ℕ) → ms ≤ 5000 → check_delay delay (ok ms) ≡ (200, ms)
unfolding check_delay set_artificial_delay rank64
check_delay_fits delay ms h = ground arith

-- A request to set the delay leaves it between 0 and 5000 ms, and as it was unless the status is
-- 200. Where the endpoint is enabled, the decimal text of any such number sets that number. The
-- delay was at most 5000 ms.
pub set_redis_delay-bounds :
    (enabled stored : Bool) (text : Str) (ms delay : ℕ)
    → delay ≤ 5000
    → ms ≤ 5000
    → ((set_redis_delay enabled stored text delay).1 ≤ 5000)
      × (((set_redis_delay enabled stored text delay).0 ≡ 200)
          ⊎ ((set_redis_delay enabled stored text delay).1 ≡ delay))
      × (set_redis_delay true true (format_int ms) delay ≡ (200, ms))
unfolding set_redis_delay
set_redis_delay-bounds enabled stored text ms delay h k =
    let (b, s) = check_delay-bounds delay (parse_int text) h (parse_int-IsBounded text) in
    let fits : check_delay delay (parse_int (format_int ms)) ≡ (200, ms) =
      rw (parse_int-format_int ms (omega arith)) (check_delay_fits delay ms k) in
    elim (Bool-cases (not enabled || not stored)) [
      | inl e ↦ rw e (h, inr refl, fits)
      | inr e ↦ rw e (b, s, fits)
    ]
