-- ===== src/Store/Commands.antt =====
-- The parts of applyOperationScript of redis_store.go on a database that holds a room.
use live_collab.Base.{
  ◌+◌, ◌<◌, ◌≡◌, refl, sym, ◌∙◌, ap, inl, inr, false, List, [], ◌∷◌, ◌++◌, map, map-append, arith,
  Int64, Str, lit, str_eq, str_eq_refl, length, length-append, if◌then◌else◌,
}
use live_collab.Base.Result.{ok}
use live_collab.Base.Decimal.{format_int, digits, format_nat}
use live_collab.Message.{DistributedEvent}
use live_collab.Reply.{Reply, text, int, arr, end, item}
use live_collab.Redis.{Redis, string, stream, Entry, IsCounter, IsText, IsStream, lua_limit}
use live_collab.Keys.{room_content_key, room_version_key, room_sequence_key, room_stream_key}
use live_collab.Keys.Disjoint.{keys_disjoint, Kind, content, version, sequence, events, key_of}
use live_collab.Stream.Parse.{event_fields}
use live_collab.Store.{and_then, number_at, text_at, commit_script, to_number}

-- The abstract document: its content and the events applied so far, oldest first. The version and
-- the sequence are the number of events.
pub record Document : Type 0 where
  pub content : Str
  pub log : List DistributedEvent

-- The stream entry of an event.
abbrev pub entry_of : DistributedEvent → Entry
entry_of e = record { id = e.stream_id; fields = event_fields e }

pub zero_text : lit "0" ≡ format_int 0
unfolding format_int format_nat digits
zero_text = refl

module _ (R : Redis) where
  open R use {
    Db, look, get, set, incr, xadd, new_id, number, tonumber, tostring, successor, to_reply,
    get-string, get-missing, look-set, incr-counter, look-incr, xadd-stream, look-xadd,
    tonumber-format_int, successor-number, tostring-number, to_reply-number,
  }

  -- A room's four keys hold the document.
  pub record Holds (db : Db) (room : Str) (d : Document) : Type 0 where
    pub version : IsCounter (look db (room_version_key room)) (length d.log)
    pub content : IsText (look db (room_content_key room)) d.content
    pub sequence : IsCounter (look db (room_sequence_key room)) (length d.log)
    pub stream : IsStream (look db (room_stream_key room)) (map entry_of d.log)

  pub to_number_lem :
      (s : Str) (x : Int64) (db : Db)
      → x < 0x10000000000000000
      → s ≡ format_int x
      → to_number R s db ≡ (ok (number x), db)
  to_number_lem s x db w e = rw (e, tonumber-format_int x w)

  pub number_at_lem :
      (k : Str) (n : Int64) (db : Db)
      → n < lua_limit
      → IsCounter (look db k) n
      → number_at R k db ≡ (ok (number n), db)
  unfolding number_at
  number_at_lem k n db small (inl e) =
      rw (get-string db k (format_int n) e) (to_number_lem _ n db (omega arith) refl)
  number_at_lem k n db small (inr (e, z)) =
      rw (get-missing db k e)
        (to_number_lem _ n db (omega arith) (zero_text ∙ ap format_int (sym z)))

  pub text_at_lem : (k s : Str) (db : Db) → IsText (look db k) s → text_at R k db ≡ (ok s, db)
  unfolding text_at
  text_at_lem k s db (inl e) = rw (get-string db k s e)
  text_at_lem k s db (inr (e, z)) = rw (get-missing db k e, z)

  module _ (room : Str) (d : Document) (db : Db) (held : Holds db room d)
      (small : length d.log + 1 < lua_limit)
      (new_content operation_id client_id username : Str) where
    -- The database before the XADD, and the ID of the new entry.
    abbrev pub before_xadd : Db
    before_xadd =
        set
          (set (incr db (room_sequence_key room)).1 (room_version_key room)
            (format_int (length d.log + 1)))
          (room_content_key room) new_content

    abbrev pub next_event : DistributedEvent
    next_event = record {
      stream_id = new_id before_xadd (room_stream_key room);
      sequence = length d.log + 1;
      version = length d.log + 1;
      operation_id = operation_id;
      client_id = client_id;
      username = username;
      content = new_content;
    }

    abbrev pub after_commit : Db
    after_commit = (xadd before_xadd (room_stream_key room) (event_fields next_event)).1

    -- What any key holds before the XADD.
    look-before :
        (j : Str)
        → look before_xadd j ≡ (
            if str_eq (room_content_key room) j
            then string new_content
            else if str_eq (room_version_key room) j
            then string (format_int (length d.log + 1))
            else if str_eq (room_sequence_key room) j
            then string (format_int (length d.log + 1))
            else look db j)
    look-before j = rw (
      look-set,
      look-set,
      look-incr db (room_sequence_key room) (length d.log) held.sequence (omega arith) j,
    )

    IsStream-before : IsStream (look before_xadd (room_stream_key room)) (map entry_of d.log)
    IsStream-before =
        rw
          (
            look-before (room_stream_key room),
            keys_disjoint content events room room,
            keys_disjoint version events room room,
            keys_disjoint sequence events room room,
          )
          held.stream

    -- What any key holds after the commit.
    pub look-commit :
        (j : Str)
        → look after_commit j ≡ (
            if str_eq (room_stream_key room) j
            then stream (map entry_of d.log ++ entry_of next_event ∷ [])
            else if str_eq (room_content_key room) j
            then string new_content
            else if str_eq (room_version_key room) j
            then string (format_int (length d.log + 1))
            else if str_eq (room_sequence_key room) j
            then string (format_int (length d.log + 1))
            else look db j)
    look-commit j = rw (
      look-xadd before_xadd (room_stream_key room) (event_fields next_event) (map entry_of d.log)
          IsStream-before j,
      look-before j,
    )

    abbrev pub committed : Document
    committed = record { content = new_content; log = d.log ++ next_event ∷ [] }

    -- The commit stores the document with the new event at its end.
    pub commit-Holds : Holds after_commit room committed
    commit-Holds = record {
      version = inl (
          look-commit (room_version_key room)
          ∙ rw (
            keys_disjoint events version room room,
            keys_disjoint content version room room,
            keys_disjoint version version room room,
            str_eq_refl room,
            length-append d.log (next_event ∷ []),
          ));
      content = inl (
          look-commit (room_content_key room)
          ∙ rw (
            keys_disjoint events content room room,
            keys_disjoint content content room room,
            str_eq_refl room,
          ));
      sequence = inl (
          look-commit (room_sequence_key room)
          ∙ rw (
            keys_disjoint events sequence room room,
            keys_disjoint content sequence room room,
            keys_disjoint version sequence room room,
            keys_disjoint sequence sequence room room,
            str_eq_refl room,
            length-append d.log (next_event ∷ []),
          ));
      stream = inl (
          look-commit (room_stream_key room)
          ∙ rw (
            keys_disjoint events events room room,
            str_eq_refl room,
            map-append entry_of d.log (next_event ∷ []),
          ));
    }

    -- It leaves what another room holds alone.
    pub commit-other :
        (other : Str) (d' : Document)
        → str_eq room other ≡ false
        → Holds db other d'
        → Holds after_commit other d'
    commit-other other d' ne h = record {
      version = rw (untouched version) h.version;
      content = rw (untouched content) h.content;
      sequence = rw (untouched sequence) h.sequence;
      stream = rw (untouched events) h.stream;
    }
      where
        untouched : (i : Kind) → look after_commit (key_of i other) ≡ look db (key_of i other)
        untouched i =
            look-commit (key_of i other)
            ∙ rw
                (
                  keys_disjoint events i room other,
                  keys_disjoint content i room other,
                  keys_disjoint version i room other,
                  keys_disjoint sequence i room other,
                  ne,
                )
                (ground arith)

    -- The branch of the script that writes: its reply, and the database that it leaves.
    pub commit_script_lem :
        (stale : Reply)
        → commit_script R room new_content operation_id client_id username
            (number (length d.log))
            stale
            db
          ≡ (
            ok (
                arr (
                  item (int 1) (
                    item (int (length d.log)) (
                      item (int (length d.log + 1)) (
                        item (text new_content) (
                          item (int (length d.log + 1)) (
                            item
                              (text (new_id before_xadd (room_stream_key room)))
                              (item stale (item (text []) end))))))))),
            after_commit,
          )
    unfolding commit_script event_fields
    commit_script_lem stale = rw (
      successor-number (length d.log) small,
      to_reply-number (length d.log) (omega arith),
      and_then,
      incr-counter db (room_sequence_key room) (length d.log) held.sequence (omega arith),
      tostring-number (length d.log + 1) small,
      to_reply-number (length d.log + 1) small,
      xadd-stream before_xadd (room_stream_key room) (event_fields next_event) (map entry_of d.log)
          IsStream-before,
    )
