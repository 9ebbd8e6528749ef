-- ===== src/Presence/Heartbeat/Renewals.antt =====
-- When startPresenceHeartbeat renews a lease.
use live_collab.Base.{
  ℕ, ◌+◌, ◌-◌, ◌<◌, ◌≤◌, ◌≡◌, ◌⊎◌, refl, sym, ◌∙◌, ap, subst, inl, inr, Bool, true, false, List, [],
  ◌∷◌, ◌++◌, Option, none, some, arith, All, int64_limit, le64, lt64, rank64_nonneg, if◌then◌else◌,
  Bool-cases, both_branches,
}
use live_collab.Base.Result.{Result, ok, err}
use live_collab.Presence.{PresenceTiming}
use live_collab.Presence.Heartbeat.{
  Heartbeat, Event, noted, ticked, taken, stopped, Renewal, start_heartbeat, heartbeat,
  heartbeat_step, note_activity, select_activity, take_activity, after_renewal, offer_activity,
}

-- The events come in the order of their times, below 2 ^ 63.
abbrev pub InOrder : ℕ → List Event → Type 0
InOrder n [] = Unit {0}
InOrder n (noted now fine ∷ es) = (n ≤ now) × InOrder now es
InOrder n (ticked fine ∷ es) = InOrder n es
InOrder n (taken now checked ended result ∷ es) =
    (n ≤ now) × (now ≤ checked) × (checked ≤ ended) × (ended < int64_limit) × InOrder ended es
InOrder n (stopped ∷ es) = InOrder n es

-- The times of the pongs and reads with a fresh read deadline.
abbrev pub activities : List Event → List ℕ
activities [] = []
activities (noted now true ∷ es) = now ∷ activities es
activities (noted now false ∷ es) = activities es
activities (ticked fine ∷ es) = activities es
activities (taken now checked ended result ∷ es) = activities es
activities (stopped ∷ es) = activities es

abbrev pub OneOf : ℕ → List ℕ → Type 0
OneOf t [] = ⊥
OneOf t (u ∷ us) = (t ≡ u) ⊎ OneOf t us

-- Each renewal starts a heartbeat behind the last one's end at the least.
abbrev pub AreSpaced : ℕ → ℕ → List Renewal → Type 0
AreSpaced interval last [] = Unit {0}
AreSpaced interval last (c ∷ cs) = (last + interval ≤ c.checked) × AreSpaced interval c.ended cs

-- A renewal rests on one of some activities, less than a lease before.
abbrev pub RestsOn : ℕ → (ℕ → Type 0) → Renewal → Type 0
RestsOn lease P c = (t : ℕ) × P t × (t ≤ c.now) × (c.now < t + lease)

abbrev pub IsPending : (ℕ → Type 0) → ℕ → Option ℕ → Type 0
IsPending P n none = Unit {0}
IsPending P n (some t) = P t × (t ≤ n)

later : (P : ℕ → Type 0) {n m : ℕ} (o : Option ℕ) → IsPending P n o → n ≤ m → IsPending P m o
later P none p h = record {}
later P (some t) (p, le) h = (p, omega arith)

All-map : {P Q : ℕ → Type 0} (ts : List ℕ) → ((t : ℕ) → P t → Q t) → All P ts → All Q ts
All-map [] f ps = record {}
All-map (t ∷ ts) f (p, ps) = (f t p, All-map ts f ps)

All-of : (ts : List ℕ) → All (λ t. OneOf t ts) ts
All-of [] = record {}
All-of (t ∷ ts) = (inl refl, All-map ts (λ u h. inr h) (All-of ts))

le64-less : (a b : ℕ) → a < int64_limit → b < int64_limit → le64 a b ≡ false → b < a
le64-less a b ha hb e = ground (arith, rank64_nonneg a ha, rank64_nonneg b hb)

lt64-least : (a b : ℕ) → a < int64_limit → b < int64_limit → lt64 a b ≡ false → b ≤ a
lt64-least a b ha hb e = ground (arith, rank64_nonneg a ha, rank64_nonneg b hb)

module _ (timing : PresenceTiming) where
  calls : Heartbeat → List Event → List Renewal
  calls h es = (heartbeat timing h es).1

  -- What follows on a step.
  abbrev on : List Event → Heartbeat × List Renewal → List Renewal
  on es x = x.1 ++ calls x.0 es

  not_run :
      (es : List Event) (b : Bool) (x y : Heartbeat × List Renewal)
      → b ≡ false
      → on es (if b then x else y) ≡ on es y
  not_run es b x y e = ap (λ (c : Bool). on es (if c then x else y)) e

  calls_stopped : (es : List Event) (h : Heartbeat) → h.running ≡ false → calls h es ≡ []
  unfolding calls heartbeat heartbeat_step note_activity
  calls_stopped [] h e = refl
  calls_stopped (noted now true ∷ es) h e = calls_stopped es _ e
  calls_stopped (noted now false ∷ es) h e = calls_stopped es h e
  calls_stopped (ticked fine ∷ es) h e = not_run es h.running _ (h, []) e ∙ calls_stopped es h e
  calls_stopped (taken now checked ended result ∷ es) h e =
      not_run es h.running _ (h, []) e ∙ calls_stopped es h e
  calls_stopped (stopped ∷ es) h e = calls_stopped es _ refl

  module _ (P : ℕ → Type 0) (lease_ok : timing.lease_duration < int64_limit)
      (interval_ok : timing.heartbeat_interval < int64_limit) where
    abbrev AreGood : ℕ → List Renewal → Type 0
    AreGood last cs =
        AreSpaced timing.heartbeat_interval last cs × All (RestsOn timing.lease_duration P) cs

    stopped-AreGood :
        (last : ℕ) (h : Heartbeat) (es : List Event) → h.running ≡ false → AreGood last (calls h es)
    stopped-AreGood last h es e =
        subst (AreGood last) (sym (calls_stopped es h e)) (record {}, record {})

    -- The rest of a run is good from any state.
    abbrev RestGood : List Event → Type 0
    RestGood es =
        (n : ℕ) (h : Heartbeat)
        → InOrder n es
        → IsPending P n h.pending
        → h.last_renewal ≤ n
        → AreGood h.last_renewal (calls h es)

    renewal-AreGood :
        (es : List Event) (h : Heartbeat) (t now checked ended : ℕ) (result : Result Bool)
        → RestGood es
        → InOrder ended es
        → P t
        → (t ≤ now) × (now < t + timing.lease_duration)
        → h.last_renewal + timing.heartbeat_interval ≤ checked
        → AreGood h.last_renewal (
            on es (
              after_renewal (record h { pending = none }) ended result,
              record { now = now; checked = checked; ended = ended } ∷ [],
            ))
    unfolding after_renewal
    renewal-AreGood es h t now checked ended (ok true) rest order p (le, less) spaced =
        let (s, a) =
          rest ended (record h { pending = none; last_renewal = ended }) order (record {})
            (omega arith) in
        ((spaced, s), ((t, p, le, less), a))
    renewal-AreGood es h t now checked ended (ok false) rest order p (le, less) spaced =
        let (s, a) =
          stopped-AreGood ended (record h { pending = none; running = false; closed = true }) es
            refl in
        ((spaced, s), ((t, p, le, less), a))
    renewal-AreGood es h t now checked ended (err e) rest order p (le, less) spaced =
        let (s, a) =
          stopped-AreGood ended (record h { pending = none; running = false; closed = true }) es
            refl in
        ((spaced, s), ((t, p, le, less), a))

    select-AreGood :
        (es : List Event) (n : ℕ) (h : Heartbeat) (o : Option ℕ) (now checked ended : ℕ)
        (result : Result Bool)
        → RestGood es
        → InOrder n (taken now checked ended result ∷ es)
        → IsPending P n h.pending
        → IsPending P n o
        → h.last_renewal ≤ n
        → AreGood h.last_renewal (on es (select_activity timing h o now checked ended result))
    unfolding select_activity take_activity
    select-AreGood es n h none now checked ended result rest (le₁, le₂, le₃, small, order) pending o
          late =
        rest ended h order (later P h.pending pending (omega arith)) (omega arith)
    select-AreGood es n h (some t) now checked ended result rest (le₁, le₂, le₃, small, order)
          pending (p, le) late =
        elim (Bool-cases (le64 timing.lease_duration (now - t))) [
          | inl e ↦ rw e (stopped-AreGood h.last_renewal _ es refl)
          | inr e ↦ elim (Bool-cases (lt64 (checked - h.last_renewal) timing.heartbeat_interval)) [
            | inl f ↦
                rw (e, f) (rest ended (record h { pending = none }) order (record {}) (omega arith))
            | inr f ↦
                let near = le64-less timing.lease_duration (now - t) lease_ok (omega arith) e in
                let far =
                  lt64-least (checked - h.last_renewal) timing.heartbeat_interval (omega arith)
                    interval_ok f in
                rw (e, f)
                  (renewal-AreGood es h t now checked ended result rest order p
                    (omega arith, omega (arith, near)) (omega (arith, far)))
          ]
        ]

    calls-AreGood : (es : List Event) → All P (activities es) → RestGood es
    unfolding calls heartbeat heartbeat_step note_activity
    calls-AreGood [] ps n h order pending late = (record {}, record {})
    calls-AreGood (noted now true ∷ es) (p, ps) n h (le, order) pending late =
        calls-AreGood es ps now _ order (offered h.pending pending) (omega arith)
      where
        offered : (o : Option ℕ) → IsPending P n o → IsPending P now (offer_activity o now)
        offered none q = (p, omega arith)
        offered (some t) (q, l) = (q, omega arith)
    calls-AreGood (noted now false ∷ es) ps n h (le, order) pending late =
        calls-AreGood es ps now h order (later P h.pending pending le) (omega arith)
    calls-AreGood (ticked fine ∷ es) ps n h order pending late =
        let Q : Heartbeat × List Renewal → Type 0 = λ x. AreGood h.last_renewal (on es x) in
        let same : Q (h, []) = calls-AreGood es ps n h order pending late in
        both_branches Q h.running
          (both_branches Q fine same (stopped-AreGood h.last_renewal _ es refl)) same
    calls-AreGood (taken now checked ended result ∷ es) ps n h order pending late =
        let Q : Heartbeat × List Renewal → Type 0 = λ x. AreGood h.last_renewal (on es x) in
        let rest = calls-AreGood es ps in
        both_branches Q h.running
          (select-AreGood es n h h.pending now checked ended result rest order pending pending late)
          (select-AreGood es n h none now checked ended result rest order pending (record {}) late)
    calls-AreGood (stopped ∷ es) ps n h order pending late =
        stopped-AreGood h.last_renewal _ es refl

  -- With a heartbeat and a lease that are not negative, whatever happens on a connection, in the
  -- order of a clock that stays below 2 ^ 63: a renewal of its lease rests on a pong or a read
  -- less than a lease before, and starts at least one heartbeat after the last one, or the start
  -- of the goroutine, has ended. A tick is no such activity.
  pub heartbeat-AreSpaced :
      (now started : ℕ) (es : List Event)
      → timing.lease_duration < int64_limit
      → timing.heartbeat_interval < int64_limit
      → InOrder started es
      → let cs = (heartbeat timing (start_heartbeat timing now started) es).1 in
        AreSpaced timing.heartbeat_interval started cs
        × All (RestsOn timing.lease_duration (λ t. OneOf t (activities es))) cs
  unfolding calls
  heartbeat-AreSpaced now started es lease_ok interval_ok order =
      calls-AreGood (λ t. OneOf t (activities es)) lease_ok interval_ok es (All-of (activities es))
        started (start_heartbeat timing now started) order (record {}) (omega arith)
