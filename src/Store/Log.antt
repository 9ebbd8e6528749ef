-- ===== src/Store/Log.antt =====
-- The entries that applyOperationScript of redis_store.go leaves in a room's stream, read back by
-- parseStreamEntries.
use live_collab.Base.{
  ◌+◌, ◌<◌, ◌≡◌, refl, ◌∙◌, ap, List, [], ◌∷◌, ◌++◌, map, All, All-append, arith, Int64, Str,
  length, if◌then◌else◌, Bool-cases, inl, inr,
}
use live_collab.Base.Result.{ok}
use live_collab.Message.{DistributedEvent, StaleWritePolicy}
use live_collab.Reply.{Reply, text, arr, end, item}
use live_collab.Redis.{Redis, Entry, IsStream, lua_limit}
use live_collab.Keys.{room_stream_key}
use live_collab.Stream.{parse_stream_entries}
use live_collab.Stream.Parse.{texts, replies, entry_reply, IsWord, parse-entry_reply}
use live_collab.Store.{answered, apply_content_update}
use live_collab.Store.Commands.{Document, Holds, entry_of}
use live_collab.Store.Apply.{accepts, event, next_document, apply-refines}

-- The reply of an XRANGE over all entries of a stream: each is its ID and the flat list of its
-- fields, whatever they are.
abbrev pub stream_reply : List Entry → Reply
stream_reply es =
    arr (replies (map (λ e. arr (item (text e.id) (item (arr (texts e.fields)) end))) es))

stream_reply_lem :
    (es : List DistributedEvent)
    → stream_reply (map entry_of es) ≡ arr (replies (map entry_reply es))
unfolding entry_reply
stream_reply_lem es = ap arr (same es)
  where
    same :
        (es : List DistributedEvent)
        → replies
            (map (λ e. arr (item (text e.id) (item (arr (texts e.fields)) end))) (map entry_of es))
          ≡ replies (map entry_reply es)
    same [] = refl
    same (e ∷ es) = ap (item (entry_reply e)) (same es)

module _ (R : Redis) (room : Str) (d : Document) (db : R.Db) (held : Holds R db room d)
    (small : length d.log + 1 < lua_limit) (content : Str) (base : Int64)
    (word : base < 0x10000000000000000) (policy : StaleWritePolicy)
    (operation_id client_id username : Str) where
  -- The document after the operation.
  abbrev after : Document
  after =
      next_document R room d db held small content base word policy operation_id client_id username

  after-IsWord : All IsWord d.log → All IsWord after.log
  after-IsWord words = elim (Bool-cases (accepts d base policy)) [
    | inl go ↦ rw go (All-append IsWord d.log _ words ((omega arith, omega arith), record {}))
    | inr stop ↦ rw stop words
  ]

  -- The stream that an answered operation leaves is read back as the events so far, and then, if
  -- the operation was accepted, the event with its own texts and the next sequence and version,
  -- under the ID that Redis made up. The numbers of the events so far are 64-bit words, and there
  -- are fewer than 10 ^ 14 - 1 of them, so that the script prints the new number in full.
  pub parse_stream_entries-apply :
      All IsWord d.log
      → let db' =
          (apply_content_update R answered room content base policy operation_id client_id username
            db).1 in
        let new : DistributedEvent = record {
          stream_id =
              (event R room d db held small content base word policy operation_id client_id
                username).stream_id;
          sequence = length d.log + 1;
          version = length d.log + 1;
          operation_id = operation_id;
          client_id = client_id;
          username = username;
          content = content;
        } in
        (es : List Entry) × IsStream (R.look db' (room_stream_key room)) es
        × (parse_stream_entries (stream_reply es)
            ≡ ok (if accepts d base policy then d.log ++ new ∷ [] else d.log))
  parse_stream_entries-apply words =
      let (e, h) =
        apply-refines R room d db held small content base word policy operation_id client_id
          username in
      (
        map entry_of after.log,
        h.stream,
        ap parse_stream_entries (stream_reply_lem after.log)
            ∙ parse-entry_reply after.log (after-IsWord words)
            ∙ log_lem,
      )
    where
      log_lem :
          ok after.log
          ≡ ok (
              if accepts d base policy
              then d.log
                ++ event R room d db held small content base word policy operation_id client_id
                    username
                  ∷ []
              else d.log)
      log_lem = elim (Bool-cases (accepts d base policy)) [ inl go ↦ rw go | inr stop ↦ rw stop ]
