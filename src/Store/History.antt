-- ===== src/Store/History.antt =====
-- Any number of backends that apply operations to one room through redis_store.go. Redis runs the
-- scripts one after another, so a history is the list of the commands in that order.
use live_collab.Base.{
  ℕ, ◌+◌, ◌<◌, ◌≤◌, ◌≡◌, refl, sym, ◌∙◌, subst, ◌⊎◌, inl, inr, List, [], ◌∷◌, ◌++◌, append-nil,
  append_assoc, arith, Int64, Str, length, length-append, Bool-cases,
}
use live_collab.Base.Result.{Result}
use live_collab.Message.{DistributedEvent, ApplyContentResult, StaleWritePolicy}
use live_collab.Redis.{Redis, lua_limit}
use live_collab.Store.{Wire, answered, not_sent, answer_lost, apply_content_update}
use live_collab.Store.Commands.{Document, Holds}
use live_collab.Store.Apply.{accepts, event, next_document, apply-refines, apply_unanswered}

-- A call of ApplyContentUpdate by some backend, and what becomes of its command.
pub record Operation : Type 0 where
  pub wire : Wire
  pub content : Str
  pub base : Int64
  pub policy : StaleWritePolicy
  pub operation_id : Str
  pub client_id : Str
  pub username : Str

abbrev pub AreWords : List Operation → Type 0
AreWords [] = Unit {0}
AreWords (o ∷ os) = (o.base < 0x10000000000000000) × AreWords os

-- The content after a log.
abbrev pub content_after : Str → List DistributedEvent → Str
content_after c [] = c
content_after c (e ∷ es) = content_after e.content es

-- Sequence and version count the events from a + 1 on.
abbrev pub Counted : ℕ → List DistributedEvent → Type 0
Counted a [] = Unit {0}
Counted a (e ∷ es) = (e.sequence ≡ a + 1) × (e.version ≡ a + 1) × Counted (a + 1) es

-- A document in order: the log is counted from 1, and the content is that of the last event.
pub record IsInOrder (d : Document) : Type 0 where
  pub counted : Counted 0 d.log
  pub latest : d.content ≡ content_after [] d.log

Counted-snoc :
    (a : ℕ) (es : List DistributedEvent) (e : DistributedEvent)
    → Counted a es
    → e.sequence ≡ a + length es + 1
    → e.version ≡ a + length es + 1
    → Counted a (es ++ e ∷ [])
Counted-snoc a [] e h k l = (omega arith, omega arith, tt)
Counted-snoc a (f ∷ es) e h k l =
    (h.0, h.1, Counted-snoc (a + 1) es e h.2 (omega arith) (omega arith))

content_after-snoc :
    (c : Str) (es : List DistributedEvent) (e : DistributedEvent)
    → content_after c (es ++ e ∷ []) ≡ e.content
content_after-snoc c [] e = refl
content_after-snoc c (f ∷ es) e = content_after-snoc f.content es e

-- One document comes after another: its log begins with the other's.
abbrev pub Extends : Document → Document → Type 0
Extends d d' = (new : List DistributedEvent) × (d'.log ≡ d.log ++ new)

module _ (R : Redis) (room : Str) where
  open R use {Db}

  unfoldable pub run_operation : Db → Operation → Result ApplyContentResult × Db
  run_operation db o =
      apply_content_update R o.wire room o.content o.base o.policy o.operation_id o.client_id
        o.username db

  unfoldable pub run_operations : Db → List Operation → Db
  run_operations db [] = db
  run_operations db (o ∷ os) = run_operations (run_operation db o).1 os

  -- What one command leaves: the same document, or the document with one more event.
  abbrev Stepped : Document → Db → Type 0
  Stepped d db =
      Holds R db room d
      ⊎ ((e : DistributedEvent) × (e.sequence ≡ length d.log + 1)
          × (e.version ≡ length d.log + 1)
          × Holds R db room (record { content = e.content; log = d.log ++ e ∷ [] }))

  module _ (d : Document) (db : Db) (held : Holds R db room d)
      (small : length d.log + 1 < lua_limit) where
    step_of :
        (o : Operation) (db' : Db) (word : o.base < 0x10000000000000000)
        → Holds R db' room (
            next_document R room d db held small o.content o.base word o.policy o.operation_id
              o.client_id o.username)
        → Stepped d db'
    step_of o db' word h = elim (Bool-cases (accepts d o.base o.policy)) [
      | inl go ↦ inr (
        event R room d db held small o.content o.base word o.policy o.operation_id o.client_id
            o.username,
        refl,
        refl,
        rw go at h,
      )
      | inr stop ↦ inl (rw stop at h)
    ]

    operation_step :
        (wire : Wire) (o : Operation)
        → o.wire ≡ wire
        → o.base < 0x10000000000000000
        → Stepped d (run_operation db o).1
    unfolding run_operation
    operation_step answered o w word = rw w (
        step_of o _ word
          (apply-refines R room d db held small o.content o.base word o.policy o.operation_id
            o.client_id o.username).1)
    operation_step not_sent o w word = rw w (
        inl (
          subst (λ x. Holds R x room d)
            (sym
              (apply_unanswered R room d db held small o.content o.base word o.policy o.operation_id
                o.client_id o.username).1)
            held))
    operation_step answer_lost o w word = rw w (
        step_of o _ word
          (apply_unanswered R room d db held small o.content o.base word o.policy o.operation_id
            o.client_id o.username).3)

  -- The document one event longer is still in order.
  longer-IsInOrder :
      (d : Document) (e : DistributedEvent)
      → IsInOrder d
      → e.sequence ≡ length d.log + 1
      → e.version ≡ length d.log + 1
      → IsInOrder (record { content = e.content; log = d.log ++ e ∷ [] })
  longer-IsInOrder d e v hs hv = record {
    counted = Counted-snoc 0 d.log e v.counted (omega arith) (omega arith);
    latest = sym (content_after-snoc [] d.log e);
  }

  -- From a room in order, any operations of any backends, accepted, rejected, lost on the way or
  -- lost on the way back, leave a room in order: sequence and version count the events from 1
  -- without a gap, the content is that of the last event, and the log only grows at its end, by at
  -- most one event for each operation. The log stays below 10 ^ 14 events.
  pub run_operations-IsInOrder :
      (os : List Operation) (d : Document) (db : Db)
      → Holds R db room d
      → IsInOrder d
      → length d.log + length os < lua_limit
      → AreWords os
      → (d' : Document) × Holds R (run_operations db os) room d'
        × IsInOrder d'
        × Extends d d'
        × (length d'.log ≤ length d.log + length os)
  unfolding run_operations
  run_operations-IsInOrder [] d db h v fits words =
      (d, h, v, ([], sym (append-nil d.log)), omega arith)
  run_operations-IsInOrder (o ∷ os) d db h v fits words =
      elim (operation_step d db h (omega arith) o.wire o refl words.0) [
        | inl kept ↦
            let (d', h', v', x, n) =
              run_operations-IsInOrder os d (run_operation db o).1 kept v (omega arith) words.1 in
            (d', h', v', x, omega arith)
        | inr (e, hs, hv, kept) ↦
            let d₁ : Document = record { content = e.content; log = d.log ++ e ∷ [] } in
            let size = length-append d.log (e ∷ []) in
            let (d', h', v', (new, x), n) =
              run_operations-IsInOrder os d₁ (run_operation db o).1 kept
                (longer-IsInOrder d e v hs hv) (omega arith) words.1 in
            (d', h', v', (e ∷ new, x ∙ append_assoc d.log (e ∷ []) new), omega arith)
      ]
