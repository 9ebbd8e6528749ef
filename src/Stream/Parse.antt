-- ===== src/Stream/Parse.antt =====
-- parseStreamEntries against the entries that the XADD of applyOperationScript writes.
use live_collab.Base.{◌≡◌, refl, List, [], ◌∷◌, map, ◌<◌, All, Str, lit, str_eq}
use live_collab.Base.Result.{ok}
use live_collab.Base.Decimal.{format_int, parse_int-format_int}
use live_collab.Message.{DistributedEvent}
use live_collab.Reply.{Reply, text, arr, Replies, end, item, redis_string}
use live_collab.Stream.{field, field_pairs, parse_entry, parse_entries, parse_stream_entries}

-- A flat reply of texts, and a reply of replies.
abbrev pub texts : List Str → Replies
texts [] = end
texts (s ∷ ss) = item (text s) (texts ss)

abbrev pub replies : List Reply → Replies
replies [] = end
replies (r ∷ rs) = item r (replies rs)

-- The fields of the XADD command, in the order of the script, for an event.
unfoldable pub event_fields : DistributedEvent → List Str
event_fields e =
    lit "sequence"
    ∷ format_int e.sequence
    ∷ lit "version"
    ∷ format_int e.version
    ∷ lit "operationId"
    ∷ e.operation_id
    ∷ lit "clientId"
    ∷ e.client_id
    ∷ lit "username"
    ∷ e.username
    ∷ lit "content"
    ∷ e.content
    ∷ []

-- Redis returns an entry as its stream ID and its fields. The fields of an entry of the document
-- stream are these as long as its numbers are below 10 ^ 14 (Store/Log.antt has them from the
-- script itself); Lua prints a larger number with an exponent.
unfoldable pub entry_reply : DistributedEvent → Reply
unfolding event_fields
entry_reply e = arr (item (text e.stream_id) (item (arr (texts (event_fields e))) end))

-- The numbers of the event are int64 values.
abbrev pub IsWord : DistributedEvent → Type 0
IsWord e = (e.sequence < 0x10000000000000000) × (e.version < 0x10000000000000000)

parse_entry_lem : (e : DistributedEvent) → IsWord e → parse_entry (entry_reply e) ≡ ok e
unfolding parse_entry entry_reply field_pairs redis_string field str_eq
parse_entry_lem e (hs, hv) =
    rw (parse_int-format_int e.sequence hs, parse_int-format_int e.version hv)

parse_entries_lem :
    (es : List DistributedEvent)
    → All IsWord es
    → parse_entries (replies (map entry_reply es)) ≡ ok es
unfolding parse_entries
parse_entries_lem [] h = refl
parse_entries_lem (e ∷ es) h = rw (parse_entry_lem e h.0, parse_entries_lem es h.1)

-- Entries of this form are read back as the events they were written for.
pub parse-entry_reply :
    (es : List DistributedEvent)
    → All IsWord es
    → parse_stream_entries (arr (replies (map entry_reply es))) ≡ ok es
unfolding parse_stream_entries
parse-entry_reply es h = parse_entries_lem es h
