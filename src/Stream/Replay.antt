-- ===== src/Stream/Replay.antt =====
-- EventsAfterSequence of redis_store.go: what a replay that ends without an error has visited,
-- whatever Redis replied.
use live_collab.Base.{
  ℕ, zero, suc, ◌+◌, ◌<◌, ◌≤◌, ◌≡◌, ◌∙◌, subst, true, false, List, [], ◌∷◌, ◌++◌, Option, none,
  some, arith, Int64, int64_limit, Str, lit, length, le64, lt64, rank64, rank64_nonneg, inc64,
  inc64_lem, ◌==◌, Bool-cases, inl, inr,
}
use live_collab.Base.Result.{Result, ok, err, ◌>>=◌}
use live_collab.Message.{DistributedEvent}
use live_collab.Reply.{Reply}
use live_collab.Stream.{
  Visitor, continue, read_page, page_loop, pages, events_after_sequence, parse_stream_entries,
  last_event, range_of,
}

-- The sequences a + 1, a + 2, ... along the list.
abbrev pub Numbered : ℕ → List DistributedEvent → Type 0
Numbered a [] = Unit {0}
Numbered a (e ∷ es) = (e.sequence ≡ a + 1) × Numbered (a + 1) es

Numbered-snoc :
    (a : ℕ) (es : List DistributedEvent) (e : DistributedEvent)
    → Numbered a es
    → e.sequence ≡ a + length es + 1
    → Numbered a (es ++ e ∷ [])
Numbered-snoc a [] e h k = (omega arith, tt)
Numbered-snoc a (f ∷ es) e h k = (h.0, Numbered-snoc (a + 1) es e h.1 (omega arith))

length-snoc :
    (es : List DistributedEvent) (e : DistributedEvent) → length (es ++ e ∷ []) ≡ length es + 1
length-snoc [] e = omega arith
length-snoc (f ∷ es) e = omega (arith, length-snoc es e)

-- The visitor that writes down the events.
abbrev pub record_visit : Visitor (List DistributedEvent)
record_visit seen e = (seen ++ e ∷ [], none)

module _ (last : Int64) (boundary : DistributedEvent)
    (small : boundary.sequence < int64_limit) where
  -- What has been visited when `expected` comes next.
  abbrev Progress : Int64 → List DistributedEvent → Type 0
  Progress expected seen =
      Numbered last seen
      × (expected ≡ last + length seen + 1)
      × (last + length seen ≤ boundary.sequence)

  abbrev Kept : List DistributedEvent × Result Int64 → Type 0
  Kept (out, ok next) = Progress next out
  Kept (out, err e) = Unit {0}

  -- The event that is expected and passes both tests.
  step-Progress :
      (e : DistributedEvent) (expected : Int64) (seen : List DistributedEvent)
      → Progress expected seen
      → le64 e.sequence last ≡ false
      → (e.sequence == expected) ≡ true
      → lt64 boundary.sequence e.sequence ≡ false
      → Progress (inc64 expected) (seen ++ e ∷ [])
  unfolding rank64
  step-Progress e expected seen (numbered, next, within) old hit above =
      let e-next : e.sequence ≡ last + length seen + 1 = ground arith in
      let small' : e.sequence < int64_limit = ground arith in
      (
        Numbered-snoc last seen e numbered e-next,
        ground (arith, inc64_lem expected, length-snoc seen e),
        ground (arith, length-snoc seen e),
      )

  -- A page that is read to its end keeps the events visited in step.
  page_loop-Kept :
      (events : List DistributedEvent) (expected : Int64) (seen : List DistributedEvent)
      → Progress expected seen
      → Kept (page_loop record_visit last boundary events expected seen)
  unfolding page_loop
  page_loop-Kept [] expected seen p = p
  page_loop-Kept (e ∷ events) expected seen p = elim (Bool-cases (le64 e.sequence last)) [
    | inl old ↦ rw old (page_loop-Kept events expected seen p)
    | inr new ↦ elim (Bool-cases (e.sequence == expected)) [
      | inr miss ↦ rw (new, miss) tt
      | inl hit ↦ elim (Bool-cases (lt64 boundary.sequence e.sequence)) [
        | inl above ↦ rw (new, hit, above) tt
        | inr within ↦
            rw (new, hit, within)
              (page_loop-Kept events (inc64 expected) (seen ++ e ∷ [])
                (step-Progress e expected seen p new hit within))
      ]
    ]
  ]

  -- A replay that is complete: the sequences from last + 1 to the boundary, each once, in order.
  abbrev pub Complete : List DistributedEvent → Type 0
  Complete out = Numbered last out × (last + length out ≡ boundary.sequence)

  abbrev pub Finished : Option (List DistributedEvent × Result (Unit {0})) → Type 0
  Finished none = Unit {0}
  Finished (some (out, ok u)) = Complete out
  Finished (some (out, err e)) = Unit {0}

  continue-Finished :
      (r : List DistributedEvent × Result Int64)
      (more : List DistributedEvent → Int64 → Option (List DistributedEvent × Result (Unit {0})))
      → Kept r
      → ((s : List DistributedEvent) (expected : Int64)
          → Progress expected s
          → Finished (more s expected))
      → Finished (continue record_visit last boundary r more)
  continue-Finished (s, ok expected) more k h = h s expected k
  continue-Finished (s, err e) more k h = tt

  read_page-Finished :
      (page : Result (List DistributedEvent)) (expected : Int64) (seen : List DistributedEvent)
      (more : DistributedEvent
        → List DistributedEvent
        → Int64
        → Option (List DistributedEvent × Result (Unit {0})))
      → Progress expected seen
      → ((l : DistributedEvent) (s : List DistributedEvent) (expected : Int64)
          → Progress expected s
          → Finished (more l s expected))
      → Finished (read_page record_visit last boundary page expected seen more)
  unfolding read_page
  read_page-Finished (err e) expected seen more p h = tt
  read_page-Finished (ok []) expected seen more p h = tt
  read_page-Finished (ok (f ∷ fs)) expected seen more p h =
      continue-Finished (page_loop record_visit last boundary (f ∷ fs) expected seen)
        (more (last_event f fs)) (page_loop-Kept (f ∷ fs) expected seen p) (h (last_event f fs))

  -- The outer loop stops above the boundary, so everything up to it has been visited.
  stop-Complete :
      (expected : Int64) (seen : List DistributedEvent)
      → Progress expected seen
      → le64 expected boundary.sequence ≡ false
      → last + length seen ≡ boundary.sequence
  unfolding rank64
  stop-Complete expected seen p stop = ground arith

  module _ (room : Str) (fetch : ℕ → List Str → Result Reply) where
    pages-Finished :
        (fuel round : ℕ) (start : Str) (expected : Int64) (seen : List DistributedEvent)
        → Progress expected seen
        → Finished (pages record_visit last boundary room fetch fuel round start expected seen)
    unfolding pages
    pages-Finished zero round start expected seen p = tt
    pages-Finished (suc fuel) round start expected seen p =
        elim (Bool-cases (le64 expected boundary.sequence)) [
          | inr stop ↦ rw stop (p.0, stop-Complete expected seen p stop)
          | inl more ↦ rw more (
              read_page-Finished (range_of room boundary fetch round start >>= parse_stream_entries)
                expected seen _ p
                λ l s e q. pages-Finished fuel (suc round) (b'(' ∷ l.stream_id) e s q)
        ]

    -- Whatever Redis replies to the reads, page by page, a replay that ends without an error has
    -- visited exactly the sequences after the cursor up to the boundary, each once and in order:
    -- no gap, no repetition, nothing beyond. The cursor and the boundary are not negative.
    pub replay_sound :
        (fuel : ℕ) (out : List DistributedEvent)
        → last < int64_limit
        → events_after_sequence record_visit last boundary room fetch fuel [] ≡ some (out, ok tt)
        → Numbered last out × (last + length out ≡ boundary.sequence)
    unfolding events_after_sequence
    replay_sound fuel out nonneg h = elim (Bool-cases (lt64 boundary.sequence last)) [
      | inl beyond ↦ absurd (ground arith)
      | inr within ↦
          let start : Progress (inc64 last) [] = (
            tt,
            inc64_lem last nonneg ∙ omega arith,
            ground (arith, rank64_nonneg last nonneg, rank64_nonneg boundary.sequence small),
          ) in
          subst Finished (rw within at h) (pages-Finished fuel 0 (lit "-") (inc64 last) [] start)
    ]
