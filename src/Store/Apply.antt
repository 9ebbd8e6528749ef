-- ===== src/Store/Apply.antt =====
-- ApplyContentUpdate of redis_store.go refines an abstract document under optimistic concurrency
-- control, on every branch and for every fate of the command.
use live_collab.Base.{
  ◌+◌, ◌<◌, ◌≡◌, refl, sym, ◌∙◌, ap, subst, inl, inr, Bool, true, false, not, [], ◌∷◌, ◌++◌, arith,
  Int64, Str, lit, str_eq, length, if◌then◌else◌, ◌==◌, Bool-cases,
}
use live_collab.Base.Result.{Result, ok, err, redis_error}
use live_collab.Message.{DistributedEvent, ApplyContentResult, StaleWritePolicy}
use live_collab.Reply.{Reply, text, int, arr, end, item}
use live_collab.Redis.{Redis, lua_limit}
use live_collab.Keys.{room_content_key, room_version_key, room_sequence_key}
use live_collab.Store.{
  Wire, answered, not_sent, answer_lost, apply_operation_script, apply_content_update, apply_result,
  and_then,
}
use live_collab.Store.Commands.{
  Document, Holds, number_at_lem, text_at_lem, next_event, after_commit, commit-Holds, commit-other,
  commit_script_lem,
}

-- The write goes through: the base is the document's version, or the policy is not "reject".
abbrev pub accepts : Document → Int64 → StaleWritePolicy → Bool
accepts d base policy = if base == length d.log then true else not (str_eq policy (lit "reject"))

-- What the caller of an accepted and of a rejected operation is told.
abbrev pub accepted_result : Document → Int64 → DistributedEvent → ApplyContentResult
accepted_result d base event = record {
  accepted = true;
  reason = [];
  content = event.content;
  base_version = base;
  previous_version = length d.log;
  server_version = length d.log + 1;
  sequence = length d.log + 1;
  stream_id = event.stream_id;
  stale = not (base == length d.log);
}

abbrev pub rejected_result : Document → Int64 → ApplyContentResult
rejected_result d base = record {
  accepted = false;
  reason = lit "stale_base_version";
  content = d.content;
  base_version = base;
  previous_version = length d.log;
  server_version = length d.log;
  sequence = length d.log;
  stream_id = [];
  stale = true;
}

not-true : (b : Bool) → not b ≡ true → b ≡ false
not-true b h = ground arith

module _ (R : Redis) where
  open R use {Db, number, num_eq, num_eq-number, tonumber-format_int, to_reply-number}

  module _ (room : Str) (d : Document) (db : Db) (held : Holds R db room d)
      (small : length d.log + 1 < lua_limit) (content : Str) (base : Int64)
      (word : base < 0x10000000000000000) (policy : StaleWritePolicy)
      (operation_id client_id username : Str) where
    -- The event that an accepted operation appends, with the ID that Redis makes up.
    abbrev pub event : DistributedEvent
    event = next_event R room d db held small content operation_id client_id username

    abbrev pub next_document : Document
    next_document =
        if accepts d base policy then record { content = content; log = d.log ++ event ∷ [] } else d

    abbrev next_db : Db
    next_db = after_commit R room d db held small content operation_id client_id username

    abbrev script : Result Reply × Db
    script = apply_operation_script R room content base policy operation_id client_id username db

    numbers : num_eq (number base) (number (length d.log)) ≡ (base == length d.log)
    numbers = num_eq-number base (length d.log) word (omega arith)

    script_rejected :
        (base == length d.log) ≡ false
        → str_eq policy (lit "reject") ≡ true
        → script ≡ (
          ok (
              arr (
                item (int 0) (
                  item (int (length d.log)) (
                    item (int (length d.log)) (
                      item (text d.content) (
                        item (int (length d.log)) (
                          item
                            (text [])
                            (item (int 1) (item (text (lit "stale_base_version")) end))))))))),
          db,
        )
    unfolding apply_operation_script
    script_rejected s p = rw (
      and_then,
      number_at_lem R (room_version_key room) (length d.log) db (omega arith) held.version,
      text_at_lem R (room_content_key room) d.content db held.content,
      number_at_lem R (room_sequence_key room) (length d.log) db (omega arith) held.sequence,
      tonumber-format_int base word,
      numbers,
      s,
      p,
      to_reply-number (length d.log) (omega arith),
    )

    committed_reply : Reply → Reply
    committed_reply stale = arr (
        item (int 1) (
          item (int (length d.log)) (
            item (int (length d.log + 1)) (
              item (text content) (
                item (int (length d.log + 1))
                  (item (text event.stream_id) (item stale (item (text []) end))))))))

    script_accepted :
        (b : Bool)
        → (base == length d.log) ≡ b
        → accepts d base policy ≡ true
        → script ≡ (ok (committed_reply (int (if b then 0 else 1))), next_db)
    unfolding apply_operation_script committed_reply
    script_accepted true s p =
        rw
          (
            and_then,
            number_at_lem R (room_version_key room) (length d.log) db (omega arith) held.version,
            text_at_lem R (room_content_key room) d.content db held.content,
            number_at_lem R (room_sequence_key room) (length d.log) db (omega arith) held.sequence,
            tonumber-format_int base word,
            numbers,
            s,
          )
          (commit_script_lem R room d db held small content operation_id client_id username (int 0))
    script_accepted false s p =
        rw
          (
            and_then,
            number_at_lem R (room_version_key room) (length d.log) db (omega arith) held.version,
            text_at_lem R (room_content_key room) d.content db held.content,
            number_at_lem R (room_sequence_key room) (length d.log) db (omega arith) held.sequence,
            tonumber-format_int base word,
            numbers,
            s,
            not-true (str_eq policy (lit "reject")) (rw s at p),
          )
          (commit_script_lem R room d db held small content operation_id client_id username (int 1))

    script_db : script.1 ≡ (if accepts d base policy then next_db else db)
    script_db = elim (Bool-cases (accepts d base policy)) [
      | inl go ↦ ap (λ r. r.1) (script_accepted (base == length d.log) refl go) ∙ rw go
      | inr stop ↦ ap (λ r. r.1) (script_rejected (ground arith) (ground arith)) ∙ rw stop
    ]

    script-other :
        (other : Str) (d' : Document)
        → str_eq room other ≡ false
        → Holds R db other d'
        → Holds R script.1 other d'
    script-other other d' ne h =
        subst (λ x. Holds R x other d') (sym script_db)
          (elim (Bool-cases (accepts d base policy)) [
            | inl e ↦ rw e (
                commit-other R room d db held small content operation_id client_id username other d'
                  ne h)
            | inr e ↦ rw e h
          ])

    -- Decoding the reply leaves the database as the script did.
    decoded :
        (r : Result Reply × Db) → (and_then r (λ raw db'. (apply_result base raw, db'))).1 ≡ r.1
    decoded (ok raw, db') = refl
    decoded (err e, db') = refl

    -- The call of the method on this room.
    abbrev pub apply_call : Wire → Result ApplyContentResult × Db
    apply_call wire =
        apply_content_update R wire room content base policy operation_id client_id username db

    -- An operation that is answered behaves as on the abstract document: it is accepted exactly if
    -- its base is the current version or the policy is not "reject". Accepted, it is appended to
    -- the log as the next sequence and version, replaces the content, and the result says so.
    -- Rejected, it changes nothing, and the result carries the current content and version. The
    -- document has fewer than 10 ^ 14 events.
    pub apply-refines :
        ((apply_call answered).0
          ≡ ok (
              if accepts d base policy
              then accepted_result d base event
              else rejected_result d base))
        × Holds R (apply_call answered).1 room next_document
    unfolding apply_content_update apply_result committed_reply
    apply-refines = elim (Bool-cases (base == length d.log)) [
      | inl e ↦
          rw (and_then, script_accepted true e (rw e), e)
            (refl, commit-Holds R room d db held small content operation_id client_id username)
      | inr e ↦ elim (Bool-cases (str_eq policy (lit "reject"))) [
        | inl p ↦ rw (and_then, script_rejected e p, e, p) (refl, held)
        | inr p ↦
            rw (and_then, script_accepted false e (rw (e, p)), e, p)
              (refl, commit-Holds R room d db held small content operation_id client_id username)
      ]
    ]

    -- A command that is not answered gives an error, and leaves Redis as it was if it was never
    -- sent. If only the answer was lost, the operation has taken its effect all the same.
    pub apply_unanswered :
        ((apply_call not_sent).0 ≡ err (redis_error (lit "dial")))
        × ((apply_call not_sent).1 ≡ db)
        × ((apply_call answer_lost).0 ≡ err (redis_error (lit "read")))
        × Holds R (apply_call answer_lost).1 room next_document
    unfolding apply_content_update
    apply_unanswered =
        (refl, refl, refl, subst (λ x. Holds R x room next_document) (sym script_db) kept)
      where
        kept : Holds R (if accepts d base policy then next_db else db) room next_document
        kept = elim (Bool-cases (accepts d base policy)) [
          | inl e ↦
              rw e (commit-Holds R room d db held small content operation_id client_id username)
          | inr e ↦ rw e held
        ]

    -- Whatever becomes of the command, a room of another ID keeps its document.
    pub apply-other :
        (wire : Wire) (other : Str) (d' : Document)
        → str_eq room other ≡ false
        → Holds R db other d'
        → Holds R (apply_call wire).1 other d'
    unfolding apply_content_update
    apply-other answered other d' ne h =
        subst (λ x. Holds R x other d') (sym (decoded script)) (script-other other d' ne h)
    apply-other not_sent other d' ne h = h
    apply-other answer_lost other d' ne h = script-other other d' ne h
