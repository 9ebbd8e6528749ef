-- ===== src/Store/Snapshot.antt =====
-- CreateRoom and GetSnapshot of redis_store.go on the abstract document of a room.
use live_collab.Base.{
  ℕ, ◌⊎◌, ◌<◌, ◌≡◌, refl, sym, ◌∙◌, ap, inl, inr, not, [], ◌∷◌, Option, none, some, arith, Int64,
  Str, lit, str_eq, str_eq_refl, length, if◌then◌else◌, Bool-cases,
}
use live_collab.Base.Result.{Result, ok, err, Error}
use live_collab.Base.Decimal.{parse_int, format_int, parse_int-format_int}
use live_collab.Message.{RoomSnapshot}
use live_collab.Reply.{Reply, nil, text, redis_string, redis_int64, text_to_int}
use live_collab.Redis.{Redis, missing, string, IsCounter, IsText, lua_limit}
use live_collab.Keys.{
  room_exists_key, room_content_key, room_version_key, room_sequence_key, room_stream_key,
}
use live_collab.Keys.Disjoint.{
  keys_disjoint, Kind, existence, content, version, sequence, events, key_of,
}
use live_collab.Store.{
  Wire, answered, not_sent, answer_lost, Action, and_then, send, call_get, create_room,
  create_room_script, get_snapshot, get_snapshot_amid,
}
use live_collab.Store.Commands.{Document, Holds, zero_text}

-- What GetSnapshot is to return for a document.
abbrev pub reading : Document → RoomSnapshot
reading d = record { content = d.content; version = length d.log; sequence = length d.log }

-- A result that is an error, or no room, or the document.
abbrev pub IsReading : Document → Result (Option RoomSnapshot) → Type 0
IsReading d (ok (some s)) = s ≡ reading d
IsReading d (ok none) = Unit {0}
IsReading d (err e) = Unit {0}

abbrev pub blank : Document
blank = record { content = []; log = [] }

pub text_to_int_lem : (s : Str) (n : Int64) → parse_int s ≡ ok n → text_to_int s ≡ ok n
unfolding text_to_int parse_int
text_to_int_lem [] n h = cc
text_to_int_lem (c ∷ s) n h = h

Result-cases : {A : Type 0} (r : Result A) → ((a : A) × (r ≡ ok a)) ⊎ ((e : Error) × (r ≡ err e))
Result-cases (ok a) = inl (a, refl)
Result-cases (err e) = inr (e, refl)

module _ (R : Redis) where
  open R use {Db, look, get, set, get-string, get-missing, look-set}

  -- What a GET of a counter and of a text returns.
  pub get_counter :
      (db : Db) (k : Str) (n : ℕ)
      → n < lua_limit
      → IsCounter (look db k) n
      → (v : Reply) × (get db k ≡ ok v) × (redis_int64 v ≡ ok n)
  unfolding redis_int64
  get_counter db k n small (inl e) = (
    text (format_int n),
    get-string db k (format_int n) e,
    text_to_int_lem (format_int n) n (parse_int-format_int n (omega arith)),
  )
  get_counter db k n small (inr (e, z)) = (nil, get-missing db k e, ap ok (sym z))

  pub get_text :
      (db : Db) (k s : Str)
      → IsText (look db k) s
      → (v : Reply) × (get db k ≡ ok v) × (redis_string v ≡ s)
  unfolding redis_string
  get_text db k s (inl e) = (text s, get-string db k s e, refl)
  get_text db k s (inr (e, z)) = (nil, get-missing db k e, sym z)

  same_reply : {v w : Reply} → ok v ≡ ok w → v ≡ w
  same_reply h = cc

  read_counter :
      (db : Db) (k : Str) (n : ℕ) (v : Reply)
      → n < lua_limit
      → get db k ≡ ok v
      → IsCounter (look db k) n
      → redis_int64 v ≡ ok n
  read_counter db k n v small h c =
      let (w, e, i) = get_counter db k n small c in ap redis_int64 (same_reply (sym h ∙ e)) ∙ i

  read_text :
      (db : Db) (k s : Str) (v : Reply)
      → get db k ≡ ok v
      → IsText (look db k) s
      → redis_string v ≡ s
  read_text db k s v h c =
      let (w, e, i) = get_text db k s c in ap redis_string (same_reply (sym h ∙ e)) ∙ i

  module _ (room : Str) (d : Document) (db : Db) (held : Holds R db room d)
      (small : length d.log < lua_limit) where
    -- With all four commands answered, GetSnapshot of a room that exists returns the document.
    pub get_snapshot_found :
        look db (room_exists_key room) ≡ string (lit "1")
        → get_snapshot R (answered, answered, answered, answered) room db
          ≡ (ok (some (reading d)), db)
    unfolding get_snapshot_amid redis_string str_eq
    get_snapshot_found e =
        let (c, hc, sc) = get_text db (room_content_key room) d.content held.content in
        let (v, hv, sv) =
          get_counter db (room_version_key room) (length d.log) small held.version in
        let (s, hs, ss) =
          get_counter db (room_sequence_key room) (length d.log) small held.sequence in
        rw (get-string db (room_exists_key room) (lit "1") e, hc, hv, hs, sv, ss, sc)

    bind_Reading :
        (w : Wire) (k : Str) (f : Reply → Action Db (Option RoomSnapshot))
        → ((v : Reply) → get db k ≡ ok v → IsReading d (f v db).0 × ((f v db).1 ≡ db))
        → let r = and_then (send w (call_get R k) db) f in IsReading d r.0 × (r.1 ≡ db)
    bind_Reading answered k f h = elim (Result-cases (get db k)) [
      | inl (v, e) ↦ rw e (h v e)
      | inr (x, e) ↦ rw e (tt, refl)
    ]
    bind_Reading not_sent k f h = (tt, refl)
    bind_Reading answer_lost k f h = (tt, refl)

    -- Whatever becomes of its commands, GetSnapshot gives an error, or no room, or the document,
    -- and writes nothing.
    pub get_snapshot-IsReading :
        (wires : Wire × Wire × Wire × Wire)
        → let r = get_snapshot R wires room db in IsReading d r.0 × (r.1 ≡ db)
    unfolding get_snapshot_amid
    get_snapshot-IsReading (w0, w1, w2, w3) = bind_Reading w0 (room_exists_key room) _ λ e he.
        elim (Bool-cases (not (str_eq (redis_string e) (lit "1")))) [
          | inl absent ↦ rw absent (tt, refl)
          | inr there ↦ rw there (
              bind_Reading w1 (room_content_key room) _ λ c hc.
                bind_Reading w2 (room_version_key room) _ λ v hv.
                  bind_Reading w3 (room_sequence_key room) _ λ s hs.
                    rw
                      (
                        read_counter db (room_version_key room) (length d.log) v small hv
                            held.version,
                        read_counter db (room_sequence_key room) (length d.log) s small hs
                            held.sequence,
                        read_text db (room_content_key room) d.content c hc held.content,
                      )
                      (refl, refl))
        ]

  module _ (room : Str) (db : Db) (fresh : look db (room_stream_key room) ≡ missing) where
    abbrev created : Db
    created =
        set
          (set (set (set db (room_exists_key room) (lit "1")) (room_content_key room) [])
            (room_version_key room) (lit "0"))
          (room_sequence_key room) (lit "0")

    look-created :
        (j : Str)
        → look created j ≡ (
            if str_eq (room_sequence_key room) j
            then string (lit "0")
            else if str_eq (room_version_key room) j
            then string (lit "0")
            else if str_eq (room_content_key room) j
            then string []
            else if str_eq (room_exists_key room) j
            then string (lit "1")
            else look db j)
    look-created j = rw (look-set, look-set, look-set, look-set)

    created-Holds : Holds R created room blank
    created-Holds = record {
      version = inl (
          look-created (room_version_key room)
          ∙ rw
              (
                keys_disjoint sequence version room room,
                keys_disjoint version version room room,
                str_eq_refl room,
              )
              (ap string zero_text));
      content = inl (
          look-created (room_content_key room)
          ∙ rw (
            keys_disjoint sequence content room room,
            keys_disjoint version content room room,
            keys_disjoint content content room room,
            str_eq_refl room,
          ));
      sequence = inl (
          look-created (room_sequence_key room)
          ∙ rw (keys_disjoint sequence sequence room room, str_eq_refl room) (ap string zero_text));
      stream = inr (
        look-created (room_stream_key room)
            ∙ rw
                (
                  keys_disjoint sequence events room room,
                  keys_disjoint version events room room,
                  keys_disjoint content events room room,
                  keys_disjoint existence events room room,
                )
                fresh,
        refl,
      );
    }

    created_exists : look created (room_exists_key room) ≡ string (lit "1")
    created_exists =
        look-created (room_exists_key room)
        ∙ rw (
          keys_disjoint sequence existence room room,
          keys_disjoint version existence room room,
          keys_disjoint content existence room room,
          keys_disjoint existence existence room room,
          str_eq_refl room,
        )

    -- A room that is created under an ID without a stream holds the empty document, GetSnapshot
    -- returns that, and the keys of every other room are as before.
    pub create_room-opens :
        let r = create_room R answered room db in
        (r.0 ≡ ok tt)
        × Holds R r.1 room blank
        × (get_snapshot R (answered, answered, answered, answered) room r.1
            ≡ (ok (some (reading blank)), r.1))
        × ((i : Kind) (other : Str)
            → look r.1 (key_of i other)
              ≡ (if str_eq room other then look r.1 (key_of i other) else look db (key_of i other)))
    unfolding create_room create_room_script
    create_room-opens = (
      refl,
      created-Holds,
      get_snapshot_found room blank created created-Holds (omega arith) created_exists,
      λ i other. elim (Bool-cases (str_eq room other)) [
        | inl e ↦ rw e
        | inr e ↦ rw e (
            look-created (key_of i other)
            ∙ rw
                (
                  keys_disjoint sequence i room other,
                  keys_disjoint version i room other,
                  keys_disjoint content i room other,
                  keys_disjoint existence i room other,
                  e,
                )
                (ground arith))
      ],
    )
