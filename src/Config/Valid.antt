-- ===== src/Config/Valid.antt =====
-- LoadConfig of config.go: what a configuration is, whatever the environment.
use live_collab.Base.{
  ◌≡◌, ◌≢◌, ◌⊎◌, refl, ◌∙◌, ap, inl, inr, false, ◌&&◌, List, [], ◌∷◌, ◌++◌, arith, All, Str, lit,
  str_eq, str_eq-cases, Bool-cases, both_branches,
}
use live_collab.Message.{StaleWritePolicy}
use live_collab.Presence.{with_defaults}
use live_collab.Presence.Timing.{IsPositive, with_defaults-IsPositive}
use live_collab.Store.{stale_write_reject}
use live_collab.Config.{
  Config, stale_write_accept, is_space, trim_left, trim_right, trim_space, trimmed_parts,
  split_and_trim, or_origins, or_reject, or_text, load_config,
}

-- No space in front.
abbrev IsFlush : Str → Type 0
IsFlush [] = Unit {0}
IsFlush (c ∷ s) = is_space c ≡ false

trim_left-IsFlush : (s : Str) → IsFlush (trim_left s)
unfolding trim_left
trim_left-IsFlush [] = tt
trim_left-IsFlush (c ∷ s) = elim (Bool-cases (is_space c)) [
  | inl e ↦ rw e (trim_left-IsFlush s)
  | inr e ↦ rw e e
]

trim_right-IsFlush : (s : Str) → IsFlush s → IsFlush (trim_right s)
unfolding trim_right
trim_right-IsFlush [] h = tt
trim_right-IsFlush (c ∷ s) h = both_branches IsFlush (is_space c && str_eq (trim_right s) []) tt h

trim_left-flush : (s : Str) → IsFlush s → trim_left s ≡ s
unfolding trim_left
trim_left-flush [] h = refl
trim_left-flush (c ∷ s) h = rw h

trim_right-twice : (s : Str) → trim_right (trim_right s) ≡ trim_right s
unfolding trim_right
trim_right-twice [] = refl
trim_right-twice (c ∷ s) = elim (Bool-cases (is_space c && str_eq (trim_right s) [])) [
  | inl e ↦ rw e
  | inr e ↦ rw (e, trim_right-twice s, e)
]

-- A text without spaces around it.
abbrev pub IsTrimmed : Str → Type 0
IsTrimmed s = trim_space s ≡ s

trim_space-IsTrimmed : (s : Str) → IsTrimmed (trim_space s)
unfolding trim_space
trim_space-IsTrimmed s =
    ap trim_right (
      trim_left-flush (trim_right (trim_left s))
        (trim_right-IsFlush (trim_left s) (trim_left-IsFlush s)))
    ∙ trim_right-twice (trim_left s)

abbrev pub IsOrigin : Str → Type 0
IsOrigin s = (s ≢ []) × IsTrimmed s

filled : (s : Str) → str_eq s [] ≡ false → s ≢ []
unfolding str_eq
filled [] e h = cc
filled (c ∷ s) e h = cc

trimmed_parts-IsOrigin : (parts : List Str) → All IsOrigin (trimmed_parts parts)
unfolding trimmed_parts
trimmed_parts-IsOrigin [] = tt
trimmed_parts-IsOrigin (part ∷ parts) = elim (str_eq-cases (trim_space part) []) [
  | inl (e, same) ↦ rw e (trimmed_parts-IsOrigin parts)
  | inr e ↦
      rw e ((filled (trim_space part) e, trim_space-IsTrimmed part), trimmed_parts-IsOrigin parts)
]

or_origins-IsOrigin :
    (origins : List Str)
    → All IsOrigin origins
    → All IsOrigin (or_origins origins) × (or_origins origins ≢ [])
unfolding trim_space trim_left trim_right str_eq
or_origins-IsOrigin [] h = (((λ e. cc, refl), ((λ e. cc, refl), tt)), λ e. cc)
or_origins-IsOrigin (origin ∷ origins) h = (h, λ e. cc)

or_text-filled : (s d : Str) → d ≢ [] → or_text s d ≢ []
or_text-filled s d h = elim (Bool-cases (str_eq s [])) [
  | inl e ↦ rw e h
  | inr e ↦ rw e (filled s e)
]

or_reject-known :
    (p : StaleWritePolicy) → (or_reject p ≡ stale_write_reject) ⊎ (or_reject p ≡ stale_write_accept)
or_reject-known p = elim (str_eq-cases p stale_write_accept) [
  | inl (e, same) ↦ inr (rw e same)
  | inr e ↦ elim (str_eq-cases p stale_write_reject) [
    | inl (f, same) ↦ inl (rw (e, f) same)
    | inr f ↦ inl (rw (e, f))
  ]
]

after_colon : (s t : Str) → s ++ b':' ∷ t ≢ []
after_colon [] t h = cc
after_colon (c ∷ s) t h = cc

-- The values of the switches and names that the backend relies on.
abbrev pub IsValid : Config → Type 0
IsValid c =
    ((c.stale_write_policy ≡ stale_write_reject) ⊎ (c.stale_write_policy ≡ stale_write_accept))
    × (All IsOrigin c.allowed_origins × (c.allowed_origins ≢ []))
    × ((c.port ≢ []) × (c.instance_id ≢ []) × (c.service_name ≢ []))
    × (IsPositive c.presence.heartbeat_interval
        × IsPositive c.presence.lease_duration
        × IsPositive c.presence.sweep_interval)
    × (with_defaults c.presence ≡ c.presence)

-- Whatever the ASCII environment and the host name: the policy is one of the two; there is an allowed
-- origin, and each one is a text without spaces around it; the port, the instance and the
-- service have names; and the intervals of presence are positive and as withDefaults leaves them,
-- also where the milliseconds overflow.
pub load_config-IsValid :
    (getenv : Str → Str) (hostname : Str) → IsValid (load_config getenv hostname)
unfolding load_config split_and_trim
load_config-IsValid getenv hostname =
    let (h, l, s, twice) = with_defaults-IsPositive _ (omega arith, omega arith, omega arith) in
    let id = or_text hostname (lit "local") in
    (
      or_reject-known _,
      or_origins-IsOrigin _ (trimmed_parts-IsOrigin _),
      (
        or_text-filled _ (lit "8080") (λ e. cc),
        or_text-filled _ _ (after_colon id _),
        or_text-filled _ (lit "livecollab-backend") (λ e. cc),
      ),
      (h, l, s),
      twice,
    )
