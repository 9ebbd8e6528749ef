-- ===== src/Membership/Snapshot.antt =====
-- presenceSnapshotScript of redis_presence.go on the abstract presence: its reply.
use live_collab.Base.{◌+◌, ◌<◌, ◌≡◌, refl, sym, ◌∙◌, ap, inl, inr, List, Str, contains}
use live_collab.Base.Result.{ok}
use live_collab.Base.Decimal.{format_int}
use live_collab.Reply.{Reply, nil, text, arr, end, item}
use live_collab.Redis.{Redis, lua_limit}
use live_collab.Redis.Collections.{Collections, Clock, milliseconds, values_of, Distinct}
use live_collab.Keys.{room_presence_key, room_presence_revision_key}
use live_collab.Store.{and_then}
use live_collab.Store.Commands.{zero_text}
use mathlib.Core.Path.{fun_ext}
use live_collab.Membership.{Json, texts, or_zero, snapshot_script}
use live_collab.Membership.Spec.{Presence, member, is_member, pruned, text_of}
use live_collab.Membership.Prune.{IsReading, prune_body_lem, keys_lem}
use live_collab.Membership.Refine.{Held}

module _ (R : Redis) (C : Collections R) (J : Json) (room : Str) where
  -- The records of the participants with some connection IDs.
  abbrev pub records : List Str → Presence → List Str
  records ids p = values_of (λ id. text_of J.marshal (member id p.roster)) ids

  -- The reply of presenceSnapshotScript.
  abbrev pub reply_of : List Str → Presence → Reply
  reply_of ids p =
      arr (item (text (format_int p.revision)) (item (arr (texts (records ids p))) end))

  revision_lem :
      (p : Presence) (db : R.Db)
      → Held R C J room db p
      → (r : Reply) × (R.get db (room_presence_revision_key room) ≡ ok r)
        × (or_zero r ≡ text (format_int p.revision))
  unfolding or_zero
  revision_lem p db held = elim held.revised.counter [
    | inl e ↦ (text (format_int p.revision), R.get-string db _ _ e, refl)
    | inr (e, z) ↦
        (nil, R.get-missing db _ e, ap text zero_text ∙ ap (λ n. text (format_int n)) (sym z))
  ]

  pub snapshot_script_lem :
      (clock : Clock) (p : Presence) (db : R.Db)
      → IsReading clock
      → Held R C J room db p
      → p.revision + 1 < lua_limit
      → let q = pruned (milliseconds clock) p in
        (ids : List Str) × (db' : R.Db) × (snapshot_script R C clock room db
          ≡ (ok (reply_of ids q), db'))
        × Held R C J room db' q
        × Distinct ids
        × ((id : Str) → contains id ids ≡ is_member id q)
  unfolding snapshot_script
  snapshot_script_lem clock p db reading held small =
      let (n, db', e, h, _) = prune_body_lem R C J room clock p db reading held small in
      let q = pruned (milliseconds clock) p in
      let (r, got, zero) = revision_lem q db' h in
      let ids = C.keys db' (room_presence_key room) in
      let vals : C.hvals db' (room_presence_key room) ≡ ok (records ids q) =
        C.hvals-reply db' _ h.members.kind
        ∙ ap (λ m. ok (values_of m ids)) (fun_ext h.members.fields) in
      (
        ids,
        db',
        rw (and_then, e, got, vals, zero),
        h,
        C.keys-Distinct db' _ h.members.kind,
        keys_lem R C J room q db' h,
      )
