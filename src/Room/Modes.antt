-- ===== src/Room/Modes.antt =====
-- ApplyOperation of room.go with and without Redis.
use live_collab.Base.{
  ◌+◌, ◌<◌, ◌≤◌, ◌≡◌, refl, ap, true, false, [], ◌∷◌, arith, Int64, inc64_lem, length-append,
  rank64, rank64_nonneg, Str, length, if◌then◌else◌, Bool-cases, inl, inr,
}
use live_collab.Base.Result.{ok}
use live_collab.Message.{ApplyContentResult, StaleWritePolicy}
use live_collab.Redis.{Redis, lua_limit}
use live_collab.Store.{answered}
use live_collab.Store.Commands.{Document, Holds}
use live_collab.Store.Apply.{
  accepts, accepted_result, rejected_result, event, next_document, apply-refines,
}
use live_collab.Room.{
  Room, apply_local_content_update, apply_operation, after_store, apply_snapshot, snapshot_of,
}

-- The room's cache holds the document.
abbrev pub Mirrors : Room → Document → Type 0
Mirrors r d = (r.content ≡ d.content) × (r.version ≡ length d.log) × (r.sequence ≡ length d.log)

-- The cache is no newer than the document.
abbrev pub Behind : Room → Document → Type 0
Behind r d = rank64 r.sequence ≤ rank64 (length d.log)

-- The outcome of an operation without the ID of its stream entry.
abbrev pub without_id : ApplyContentResult → ApplyContentResult
without_id x = record x { stream_id = [] }

module _ (R : Redis) (r : Room) (d : Document) (db : R.Db) (held : Holds R db r.id d)
    (small : length d.log + 1 < lua_limit) (content : Str) (base : Int64)
    (word : base < 0x10000000000000000) (policy : StaleWritePolicy)
    (operation_id client_id username : Str) where
  -- What Redis answers to the operation.
  abbrev pub answer : ApplyContentResult
  answer =
      if accepts d base policy
      then accepted_result d base
          (event R r.id d db held small content base word policy operation_id client_id username)
      else rejected_result d base

  local_answer :
      Mirrors r d
      → let (result, r') = apply_local_content_update r content base policy in
        (result ≡ without_id answer)
        × Mirrors r' (
            next_document R r.id d db held small content base word policy operation_id client_id
              username)
  unfolding apply_local_content_update
  local_answer (c, v, s) =
      let next = inc64_lem (length d.log) (omega arith) in
      let longer = length-append d.log (
        event R r.id d db held small content base word policy operation_id client_id username
        ∷ []) in
      (
        ground (arith, next),
        (ground arith, ground (arith, next, longer), ground (arith, next, longer)),
      )

  -- The snapshot in the answer is at least as new as the cache.
  snapshot-Mirrors :
      Behind r d
      → Mirrors
          (apply_snapshot r (record {
            content = answer.content;
            version = answer.server_version;
            sequence = answer.sequence;
          }))
          (next_document R r.id d db held small content base word policy operation_id client_id
            username)
  unfolding apply_snapshot
  snapshot-Mirrors behind =
      let longer = length-append d.log (
        event R r.id d db held small content base word policy operation_id client_id username
        ∷ []) in
      let rank_n = rank64_nonneg (length d.log) (omega arith) in
      let rank_next = rank64_nonneg (length d.log + 1) (omega arith) in
      elim (Bool-cases (accepts d base policy)) [
        | inl go ↦ rw go (
          ground (arith, longer, rank_n, rank_next),
          ground (arith, longer, rank_n, rank_next),
          ground (arith, longer, rank_n, rank_next),
        )
        | inr stop ↦ rw stop (ground arith, ground arith, ground arith)
      ]

  -- With Redis and an answer, ApplyOperation returns the outcome on the document, and a cache that
  -- was no newer than the document holds the document as it is after the operation.
  pub apply_operation-Mirrors :
      r.has_store ≡ true
      → Behind r d
      → let (result, r', db') =
          apply_operation R answered r content base policy operation_id client_id username db in
        let d' =
          next_document R r.id d db held small content base word policy operation_id client_id
            username in
        (result ≡ ok answer) × Mirrors r' d' × Holds R db' r.id d'
  unfolding apply_operation after_store apply_snapshot
  apply_operation-Mirrors on behind =
      let (e, h) =
        apply-refines R r.id d db held small content base word policy operation_id client_id
          username in
      rw (on, after_store, e) (refl, snapshot-Mirrors behind, h)

module _ (R : Redis) (r : Room) (d : Document) (db : R.Db) (held : Holds R db r.id d)
    (small : length d.log + 1 < lua_limit) (content : Str) (base : Int64)
    (word : base < 0x10000000000000000) (policy : StaleWritePolicy)
    (operation_id client_id username : Str) where
  -- A room is operated on by a backend without Redis and by one with Redis, where both caches and
  -- Redis hold the same document of fewer than 10 ^ 14 - 1 events. Both calls succeed, with the
  -- same result but for the ID of the stream entry; both caches hold the same content, version and
  -- sequence after them, and Redis holds the document of that content and that many events. The
  -- backend without Redis leaves the database alone.
  pub local-eq-redis :
      Mirrors r d
      → let (own, r', db') =
          apply_operation R answered
            (record r { has_store = false })
            content
            base
            policy
            operation_id
            client_id
            username
            db in
        let (shared, r'', db'') =
          apply_operation R answered
            (record r { has_store = true })
            content
            base
            policy
            operation_id
            client_id
            username
            db in
        (result : ApplyContentResult) × (shared ≡ ok result)
        × (own ≡ ok (without_id result))
        × (snapshot_of r' ≡ snapshot_of r'')
        × (db' ≡ db)
        × (d' : Document) × Holds R db'' r.id d'
        × Mirrors r' d'
  unfolding apply_operation
  local-eq-redis same =
      let (c, v, s) = same in
      let on : Room = record r { has_store = true } in
      let after : Document =
        next_document R r.id d db held small content base word policy operation_id client_id
          username in
      let off : Room = record r { has_store = false } in
      let (x, m, h) =
        apply_operation-Mirrors R on d db held small content base word policy operation_id client_id
          username refl (rw s (omega arith)) in
      let (y, n) =
        local_answer R off d db held small content base word policy operation_id client_id username
          same in
      (
        answer R on d db held small content base word policy operation_id client_id username,
        x,
        ap ok y,
        snapshot_lem (apply_local_content_update off content base policy).1
            (apply_operation R answered on content base policy operation_id client_id username db).1
            after n m,
        refl,
        after,
        h,
        n,
      )
    where
      snapshot_lem :
          (r' r'' : Room) (d' : Document)
          → Mirrors r' d'
          → Mirrors r'' d'
          → snapshot_of r' ≡ snapshot_of r''
      snapshot_lem r' r'' d' (c, v, s) (c', v', s') = rw (c, v, s, c', v', s')
