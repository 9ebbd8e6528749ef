-- ===== src/Stream/Paging.antt =====
-- EventsAfterSequence of redis_store.go against a stream that Redis serves page by page: it ends,
-- and it visits the rest of the log.
use Prim.Native.Nat.{max}
use live_collab.Base.{
  ℕ, zero, suc, ◌+◌, ◌-◌, ◌<◌, ◌≤◌, ◌≡◌, refl, sym, ◌∙◌, ap, subst, true, false, List, [], ◌∷◌,
  ◌++◌, map, append_assoc, Option, none, some, arith, Int64, int64_limit, Str, lit, length, take,
  drop, All, le64, lt64, rank64, rank64_nonneg, inc64, inc64_lem, ◌==◌, Bool-cases, inl, inr,
  length-append,
}
use live_collab.Base.Result.{Result, ok, err, Error}
use live_collab.Message.{DistributedEvent}
use live_collab.Reply.{Reply, arr}
use live_collab.Stream.{
  Visitor, proceed, continue, read_page, page_loop, pages, events_after_sequence, last_event,
  range_of,
}
use live_collab.Stream.Parse.{replies, entry_reply, IsWord, parse-entry_reply}
use live_collab.Stream.Replay.{Numbered}

-- XRANGE as Redis documents it, on a stream that holds the events at least up to the boundary:
-- from "-" the first entries of the range, from "(id" those that follow the entry with that ID,
-- and no more than k + 1 of them, where k + 1 is the COUNT. `fetch` is the read from an ID on.
pub record Serves (k : ℕ) (fetch : ℕ → Str → Result Reply) (es : List DistributedEvent)
    : Type 0 where
  pub from_start :
      (round : ℕ) → fetch round (lit "-") ≡ ok (arr (replies (map entry_reply (take (suc k) es))))
  pub from_id :
      (round : ℕ) (pre : List DistributedEvent) (e : DistributedEvent)
      (post : List DistributedEvent)
      → es ≡ pre ++ e ∷ post
      → fetch round (b'(' ∷ e.stream_id) ≡ ok (arr (replies (map entry_reply (take (suc k) post))))

module _ {S : Type 0} (visit : Visitor S) where
  -- The visitor on a list of events, up to its first error.
  abbrev pub visit_all : S → List DistributedEvent → S × Result (Unit {0})
  visit_all s [] = (s, ok tt)
  visit_all s (e ∷ es) = proceed (visit s e) (λ s'. visit_all s' es)

  abbrev and_then {ℓ} : {B : Type ℓ} → S × Result B → (S → S × Result B) → S × Result B
  and_then (s, ok u) f = f s
  and_then (s, err e) f = (s, err e)

  proceed-and_then :
      (r : S × Option Error) (f g h : S → S × Result (Unit {0}))
      → ((s : S) → g s ≡ and_then (f s) h)
      → proceed r g ≡ and_then (proceed r f) h
  proceed-and_then (s, none) f g h e = e s
  proceed-and_then (s, some x) f g h e = refl

  visit_all-append :
      (s : S) (xs ys : List DistributedEvent)
      → visit_all s (xs ++ ys) ≡ and_then (visit_all s xs) (λ s'. visit_all s' ys)
  visit_all-append s [] ys = refl
  visit_all-append s (e ∷ xs) ys =
      proceed-and_then (visit s e) _ _ _ (λ s'. visit_all-append s' xs ys)

zero_minus : (n : ℕ) → 0 ≡ 0 - suc n
zero_minus n = omega arith

minus_zero : (n : ℕ) → suc n ≡ suc n - 0
minus_zero n = omega arith

suc_minus : (n m : ℕ) → n - m ≡ suc n - suc m
suc_minus n m = omega arith

drop_all {ℓ} : {A : Type ℓ} (n : ℕ) (xs : List A) → length xs ≤ n → drop n xs ≡ []
drop_all zero [] h = refl
drop_all zero (x ∷ xs) h = absurd (omega arith)
drop_all (suc n) [] h = refl
drop_all (suc n) (x ∷ xs) h = drop_all n xs (omega arith)

drop-append {ℓ} :
    {A : Type ℓ} (n : ℕ) (xs ys : List A) → drop n (xs ++ ys) ≡ drop n xs ++ drop (n - length xs) ys
drop-append zero [] ys = refl
drop-append zero (x ∷ xs) ys = ap (λ n. (x ∷ xs) ++ drop n ys) (zero_minus (length xs))
drop-append (suc n) [] ys = ap (λ m. drop m ys) (minus_zero n)
drop-append (suc n) (x ∷ xs) ys =
    drop-append n xs ys ∙ ap (λ m. drop n xs ++ drop m ys) (suc_minus n (length xs))

take-drop {ℓ} : {A : Type ℓ} (n : ℕ) (xs : List A) → take n xs ++ drop n xs ≡ xs
take-drop zero xs = refl
take-drop (suc n) [] = refl
take-drop (suc n) (x ∷ xs) = ap (◌∷◌ x) (take-drop n xs)

Numbered-append_left :
    (a : ℕ) (xs ys : List DistributedEvent) → Numbered a (xs ++ ys) → Numbered a xs
Numbered-append_left a [] ys h = tt
Numbered-append_left a (x ∷ xs) ys h = (h.0, Numbered-append_left (a + 1) xs ys h.1)

Numbered-append_right :
    (a : ℕ) (xs ys : List DistributedEvent) → Numbered a (xs ++ ys) → Numbered (a + length xs) ys
Numbered-append_right a [] ys h = subst (λ n. Numbered n ys) (omega arith) h
Numbered-append_right a (x ∷ xs) ys h =
    subst (λ n. Numbered n ys) (omega arith) (Numbered-append_right (a + 1) xs ys h.1)

-- All but the last event of a page.
init_events : DistributedEvent → List DistributedEvent → List DistributedEvent
init_events e [] = []
init_events e (f ∷ fs) = e ∷ init_events f fs

init-last :
    (e : DistributedEvent) (fs : List DistributedEvent)
    → init_events e fs ++ last_event e fs ∷ [] ≡ e ∷ fs
unfolding init_events last_event
init-last e [] = refl
init-last e (f ∷ fs) = ap (◌∷◌ e) (init-last f fs)

minus_sum : (l a n : ℕ) → l - a - n ≡ l - (a + n)
minus_sum l a n = omega arith

-- The log split at the last event of a page.
cut_page :
    (pre : List DistributedEvent) (e : DistributedEvent) (k : ℕ) (r : List DistributedEvent)
    → pre ++ e ∷ r ≡ (pre ++ init_events e (take k r)) ++ last_event e (take k r) ∷ drop k r
cut_page pre e k r =
    ap (λ x. pre ++ e ∷ x) (sym (take-drop k r))
    ∙ (ap (λ x. pre ++ (x ++ drop k r)) (sym (init-last e (take k r))) ∙ simp append_assoc)

All-take : (n : ℕ) (es : List DistributedEvent) → All IsWord es → All IsWord (take n es)
All-take zero es h = tt
All-take (suc n) [] h = tt
All-take (suc n) (e ∷ es) h = (h.0, All-take n es h.1)

All-take_page :
    (pre : List DistributedEvent) (e : DistributedEvent) (k : ℕ) (r : List DistributedEvent)
    → All IsWord (pre ++ e ∷ r)
    → All IsWord (e ∷ take k r)
All-take_page [] e k r h = (h.0, All-take k r h.1)
All-take_page (p ∷ pre) e k r h = All-take_page pre e k r h.1

module _ {S : Type 0} (visit : Visitor S) (last : Int64) (boundary : DistributedEvent) where
  -- The end of a page that reaches the sequence n.
  abbrev moved : ℕ → S × Result (Unit {0}) → S × Result Int64
  moved n (s, ok u) = (s, ok (max last n + 1))
  moved n (s, err e) = (s, err e)

  proceed-moved :
      (n : ℕ) (r : S × Option Error) (g : S → S × Result Int64) (f : S → S × Result (Unit {0}))
      → ((s : S) → g s ≡ moved n (f s))
      → proceed r g ≡ moved n (proceed r f)
  proceed-moved n (s, none) g f e = e s
  proceed-moved n (s, some x) g f e = refl

  module _ (small : boundary.sequence + 1 < int64_limit) (within : last ≤ boundary.sequence) where
    -- The three tests of the page loop at the event after a.
    old_event :
        (a : ℕ) (e : DistributedEvent)
        → e.sequence ≡ a + 1
        → a + 1 ≤ last
        → le64 e.sequence last ≡ true
    unfolding rank64
    old_event a e h k = ground arith

    new_event :
        (a expected : ℕ) (e : DistributedEvent)
        → e.sequence ≡ a + 1
        → expected ≡ max last a + 1
        → last ≤ a
        → a + 1 ≤ boundary.sequence
        → (le64 e.sequence last ≡ false)
          × ((e.sequence == expected) ≡ true)
          × (lt64 boundary.sequence e.sequence ≡ false)
    unfolding rank64
    new_event a expected e h x k b = (ground arith, ground arith, ground arith)

    -- A page of the log after a, whose first k events are at or below the cursor.
    page_lem :
        (page : List DistributedEvent) (a k n expected : ℕ) (s : S)
        → Numbered a page
        → k ≡ last - a
        → n ≡ a + length page
        → expected ≡ max last a + 1
        → n ≤ boundary.sequence
        → page_loop visit last boundary page expected s ≡ moved n (visit_all visit s (drop k page))
    unfolding page_loop
    page_lem [] a zero n expected s h ek en ex b = ap (λ x. (s, ok x)) (omega arith)
    page_lem [] a (suc k) n expected s h ek en ex b = ap (λ x. (s, ok x)) (omega arith)
    page_lem (e ∷ page) a (suc k) n expected s h ek en ex b =
        rw (old_event a e h.0 (omega arith))
          (page_lem page (a + 1) k n expected s h.1 (omega arith) (omega arith) (omega arith) b)
    page_lem (e ∷ page) a zero n expected s h ek en ex b =
        let (t0, t1, t2) = new_event a expected e h.0 ex (omega arith) (omega arith) in
        rw (t0, t1, t2)
          (proceed-moved n (visit s e) _ _ λ s'.
            page_lem page (a + 1) zero n (inc64 expected) s' h.1 (omega arith) (omega arith)
              (inc64_lem expected (omega arith) ∙ omega arith) b)

    continue-moved :
        (n : ℕ) (r : S × Result (Unit {0})) (more : S → Int64 → Option (S × Result (Unit {0})))
        (f : S → S × Result (Unit {0}))
        → ((s : S) → more s (max last n + 1) ≡ some (f s))
        → continue visit last boundary (moved n r) more ≡ some (and_then visit r f)
    continue-moved n (s, ok u) more f h = h s
    continue-moved n (s, err e) more f h = refl

    -- Above the boundary there is nothing left to visit.
    stopped :
        (rest : List DistributedEvent) (a expected : ℕ)
        → a + length rest ≡ boundary.sequence
        → expected ≡ max last a + 1
        → le64 expected boundary.sequence ≡ false
        → drop (last - a) rest ≡ []
    unfolding rank64
    stopped rest a expected e x t = drop_all (last - a) rest (ground arith)

    not_stopped :
        (a expected : ℕ)
        → a ≡ boundary.sequence
        → expected ≡ max last a + 1
        → le64 expected boundary.sequence ≡ true
        → ⊥
    unfolding rank64
    not_stopped a expected e x t = ground arith

    -- The events behind the cursor, in the page and behind it.
    visit_rest :
        (s : S) (a : ℕ) (page left all : List DistributedEvent)
        → page ++ left ≡ all
        → visit_all visit s (drop (last - a) all)
          ≡ and_then visit
              (visit_all visit s (drop (last - a) page))
              (λ s'. visit_all visit s' (drop (last - (a + length page)) left))
    visit_rest s a page left all e =
        rw (← e, drop-append (last - a) page left, minus_sum last a (length page))
          (visit_all-append visit s (drop (last - a) page) (drop (last - (a + length page)) left))

    module _ (k : ℕ) (room : Str) (fetch : ℕ → List Str → Result Reply) (es : List DistributedEvent)
        (server : Serves k (range_of room boundary fetch) es) (words : All IsWord es) where
      pages_lem :
          (fuel round a : ℕ) (start : Str) (expected : ℕ) (s : S) (pre rest : List DistributedEvent)
          → es ≡ pre ++ rest
          → range_of room boundary fetch round start
            ≡ ok (arr (replies (map entry_reply (take (suc k) rest))))
          → Numbered a rest
          → a + length rest ≡ boundary.sequence
          → expected ≡ max last a + 1
          → length rest < fuel
          → pages visit last boundary room fetch fuel round start expected s
            ≡ some (visit_all visit s (drop (last - a) rest))
      unfolding pages read_page
      pages_lem zero round a start expected s pre rest split reply num total next enough =
          absurd (omega arith)
      pages_lem (suc fuel) round a start expected s pre [] split reply num total next enough =
          elim (Bool-cases (le64 expected boundary.sequence)) [
            | inl go ↦ absurd (not_stopped a expected (omega arith) next go)
            | inr stop ↦ rw (stop, stopped [] a expected total next stop)
          ]
      pages_lem (suc fuel) round a start expected s pre (e ∷ r) split reply num total next enough =
          elim (Bool-cases (le64 expected boundary.sequence)) [
            | inl go ↦
                let page = e ∷ take k r in
                let left = drop k r in
                let final = last_event e (take k r) in
                let n = a + length page in
                let whole : page ++ left ≡ e ∷ r = ap (◌∷◌ e) (take-drop k r) in
                let num' : Numbered a (page ++ left) = subst (Numbered a) (sym whole) num in
                let parts = length-append page left in
                let sum : length page + length left ≡ suc (length r) =
                  sym parts ∙ ap length whole in
                let before = (pre ++ init_events e (take k r)) in
                let split' : es ≡ before ++ final ∷ left = split ∙ cut_page pre e k r in
                let words' : All IsWord page =
                  All-take_page pre e k r (subst (All IsWord) split words) in
                rw
                  (
                    go,
                    reply,
                    parse-entry_reply page words',
                    page_lem page a (last - a) n expected s (Numbered-append_left a page left num')
                        refl refl next (omega arith),
                  )
                  (continue-moved n (visit_all visit s (drop (last - a) page)) _
                      (λ s'. visit_all visit s' (drop (last - n) left))
                      (λ s'.
                        pages_lem fuel (suc round) n (b'(' ∷ final.stream_id) (max last n + 1) s'
                          (before ++ final ∷ []) left
                          (split' ∙ sym (append_assoc before (final ∷ []) left))
                          (server.from_id (suc round) before final left split')
                          (Numbered-append_right a page left num') (omega arith) refl (omega arith))
                    ∙ ap some (sym (visit_rest s a page left (e ∷ r) whole)))
            | inr stop ↦ rw (stop, stopped (e ∷ r) a expected total next stop)
          ]

      -- On a stream whose log holds the sequences from some a + 1, at or below the cursor, to the
      -- boundary, a replay ends with fuel for each event and one more round. Its result is the
      -- visitor's on the events after the cursor in order, up to the visitor's first error.
      pub replay_complete :
          (fuel a : ℕ) (s : S)
          → Numbered a es
          → a ≤ last
          → a + length es ≡ boundary.sequence
          → length es < fuel
          → events_after_sequence visit last boundary room fetch fuel s
            ≡ some (visit_all visit s (drop (last - a) es))
      unfolding events_after_sequence
      replay_complete fuel a s num below total enough =
          let inside : lt64 boundary.sequence last ≡ false = ground (
            arith,
            rank64_nonneg last (omega arith),
            rank64_nonneg boundary.sequence (omega arith),
          ) in
          rw inside (
            pages_lem fuel 0 a (lit "-") (inc64 last) s [] es refl (server.from_start 0) num total
              (inc64_lem last (omega arith) ∙ omega arith) enough)
