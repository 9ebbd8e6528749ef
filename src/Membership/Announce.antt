-- ===== src/Membership/Announce.antt =====
-- The end of the scripts of redis_presence.go that change the membership: INCR of the revision and
-- its notice in the stream.
use live_collab.Base.{
  ℕ, suc, ◌+◌, ◌<◌, ◌≡◌, refl, ◌∙◌, subst, inl, List, [], ◌∷◌, ◌++◌, map-append, arith, Str, lit,
  str_eq, str_eq_refl, if◌then◌else◌,
}
use live_collab.Base.Result.{ok}
use live_collab.Base.Decimal.{format_int}
use live_collab.Redis.{Redis, Entry, string, stream, IsStream, lua_limit}
use live_collab.Redis.Collections.{Collections}
use live_collab.Keys.{
  room_presence_key, room_presence_revision_key, room_presence_stream_key, room_presence_expiry_key,
}
use live_collab.Keys.Disjoint.{keys_disjoint, presence, revision, notices, expiry}
use live_collab.Store.{and_then}
use live_collab.Membership.{Json, announce}
use live_collab.Membership.Steps.{keep_leases, keep_members}
use live_collab.Membership.Spec
use live_collab.Membership.Spec.{
  Presence, member, is_member, text_of, IsExact, HasMembers, HasLeases, HasRevision, HoldsPresence,
}

next_notice :
    (n : ℕ)
    → Spec.notices n ++ (lit "revision" ∷ format_int (n + 1) ∷ []) ∷ [] ≡ Spec.notices (n + 1)
next_notice n =
    let e : suc n ≡ n + 1 = omega arith in
    subst (λ m. Spec.notices n ++ (lit "revision" ∷ format_int m ∷ []) ∷ [] ≡ Spec.notices m) e refl

module _ (R : Redis) (C : Collections R) (J : Json) (room : Str) (p : Presence) (db : R.Db)
    (held : HoldsPresence J (R.look db) room p) where
  module _ (small : p.revision + 1 < lua_limit) where
    abbrev counted : R.Db
    counted = (R.incr db (room_presence_revision_key room)).1

    abbrev notice : List Str
    notice = lit "revision" ∷ R.tostring (R.number (p.revision + 1)) ∷ []

    abbrev pub announced : R.Db
    announced = (R.xadd counted (room_presence_stream_key room) notice).1

    look-counted :
        (j : Str)
        → R.look counted j ≡ (
            if str_eq (room_presence_revision_key room) j
            then string (format_int (p.revision + 1))
            else R.look db j)
    look-counted j =
        R.look-incr db (room_presence_revision_key room) p.revision held.revised.counter
          (omega arith) j

    IsStream-counted :
        IsStream (R.look counted (room_presence_stream_key room)) held.revised.entries
    IsStream-counted =
        rw (look-counted (room_presence_stream_key room), keys_disjoint revision notices room room)
          held.revised.entries-IsStream

    look-announced :
        (j : Str)
        → R.look announced j ≡ (
            if str_eq (room_presence_stream_key room) j
            then stream (
                held.revised.entries
                ++ record { id = R.new_id counted (room_presence_stream_key room); fields = notice }
                  ∷ [])
            else if str_eq (room_presence_revision_key room) j
            then string (format_int (p.revision + 1))
            else R.look db j)
    look-announced j = rw (
      R.look-xadd counted (room_presence_stream_key room) notice held.revised.entries
          IsStream-counted j,
      look-counted j,
    )

    pub announce_lem :
        (announce R C room db ≡ (ok (p.revision + 1), announced))
        × HoldsPresence J (R.look announced) room (record p { revision = p.revision + 1 })
    unfolding announce
    announce_lem = (
      rw (
        and_then,
        R.incr-counter db (room_presence_revision_key room) p.revision held.revised.counter
            (omega arith),
        R.xadd-stream counted (room_presence_stream_key room) notice held.revised.entries
            IsStream-counted,
      ),
      record {
        members =
            keep_members J (R.look db) (R.look announced) room p.roster
              (look-announced (room_presence_key room)
                ∙ rw (
                  keys_disjoint notices presence room room,
                  keys_disjoint revision presence room room,
                ))
              held.members;
        leased =
            keep_leases (R.look db) (R.look announced) room p.leases
              (look-announced (room_presence_expiry_key room)
                ∙ rw (
                  keys_disjoint notices expiry room room,
                  keys_disjoint revision expiry room room,
                ))
              held.leased;
        revised = record {
          counter = inl (
              look-announced (room_presence_revision_key room)
              ∙ rw (
                keys_disjoint notices revision room room,
                keys_disjoint revision revision room room,
                str_eq_refl room,
              ));
          entries =
              held.revised.entries
              ++ record { id = R.new_id counted (room_presence_stream_key room); fields = notice }
                ∷ [];
          entries-IsStream = inl (
              look-announced (room_presence_stream_key room)
              ∙ rw (keys_disjoint notices notices room room, str_eq_refl room));
          numbered =
              map-append (λ (e : Entry). e.fields) held.revised.entries _
              ∙ rw (held.revised.numbered, R.tostring-number (p.revision + 1) small)
                  (next_notice p.revision);
        };
      },
    )
