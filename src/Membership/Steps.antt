-- ===== src/Membership/Steps.antt =====
-- The commands on the members of a room whose presence is held, and what a step carries over.
use live_collab.Base.{
  ℕ, ◌≡◌, refl, sym, ◌∙◌, ap, subst, inl, inr, not, List, [], ◌∷◌, ◌++◌, Option, none, some, Str,
  str_eq, keep, if◌then◌else◌, Bool-cases,
}
use live_collab.Base.Result.{ok}
use live_collab.Message.{Participant}
use live_collab.Redis.{Redis, Value}
use live_collab.Redis.Collections.{
  Collections, HashStep, ZsetStep, field_of, score_of, is_some, with_value, one_if,
}
use live_collab.Keys.{
  room_presence_key, room_presence_revision_key, room_presence_stream_key, room_presence_expiry_key,
}
use live_collab.Keys.Disjoint.{keys_disjoint, presence, revision, notices, expiry}
use live_collab.Membership.Members.{put_new, put_old, member-without}
use live_collab.Membership.{Json}
use live_collab.Membership.Spec.{
  Presence, member, is_member, text_of, IsExact, HasMembers, HasLeases, HasRevision, HoldsPresence,
}

-- The parts carry over where the keys that they read are the same.
pub keep_leases :
    (l l' : Str → Value) (room : Str) (leases : Str → Option ℕ)
    → l' (room_presence_expiry_key room) ≡ l (room_presence_expiry_key room)
    → HasLeases l room leases
    → HasLeases l' room leases
keep_leases l l' room leases e h = record {
  kind = rw e h.kind;
  scores = λ id. ap (λ v. score_of v id) e ∙ h.scores id;
  exact = h.exact;
}

keep_revision :
    (l l' : Str → Value) (room : Str) (n : ℕ)
    → l' (room_presence_revision_key room) ≡ l (room_presence_revision_key room)
    → l' (room_presence_stream_key room) ≡ l (room_presence_stream_key room)
    → HasRevision l room n
    → HasRevision l' room n
keep_revision l l' room n e s h = record {
  counter = rw e h.counter;
  entries = h.entries;
  entries-IsStream = rw s h.entries-IsStream;
  numbered = h.numbered;
}

pub keep_members :
    (J : Json) (l l' : Str → Value) (room : Str) (roster : List Participant)
    → l' (room_presence_key room) ≡ l (room_presence_key room)
    → HasMembers J l room roster
    → HasMembers J l' room roster
keep_members J l l' room roster e h = record {
  kind = rw e h.kind;
  fields = λ id. ap (λ v. field_of v id) e ∙ h.fields id;
}

module _ (J : Json) (room : Str) (p : Presence) (l l' : Str → Value)
    (held : HoldsPresence J l room p) where
  -- A step on the hash of members, and one on the leases.
  hash_step :
      (m : Str → Option Str) (roster : List Participant)
      → HashStep l l' (room_presence_key room) m
      → ((id : Str) → m id ≡ text_of J.marshal (member id roster))
      → HoldsPresence J l' room (record p { roster = roster })
  hash_step m roster s e = record {
    members = record { kind = s.kept; fields = λ id. s.fields id ∙ e id };
    leased =
        keep_leases l l' room p.leases
          (s.others (room_presence_expiry_key room) ∙ rw (keys_disjoint presence expiry room room))
          held.leased;
    revised =
        keep_revision l l' room p.revision
          (s.others (room_presence_revision_key room)
            ∙ rw (keys_disjoint presence revision room room))
          (s.others (room_presence_stream_key room) ∙ rw (keys_disjoint presence notices room room))
          held.revised;
  }

  pub zset_step :
      (m leases : Str → Option ℕ)
      → ZsetStep l l' (room_presence_expiry_key room) m
      → ((id : Str) → m id ≡ leases id)
      → ((id : Str) → IsExact (leases id))
      → HoldsPresence J l' room (record p { leases = leases })
  zset_step m leases s e x = record {
    members =
        keep_members J l l' room p.roster
          (s.others (room_presence_key room) ∙ rw (keys_disjoint expiry presence room room))
          held.members;
    leased = record { kind = s.kept; scores = λ id. s.scores id ∙ e id; exact = x };
    revised =
        keep_revision l l' room p.revision
          (s.others (room_presence_revision_key room)
            ∙ rw (keys_disjoint expiry revision room room))
          (s.others (room_presence_stream_key room) ∙ rw (keys_disjoint expiry notices room room))
          held.revised;
  }

module _ (R : Redis) (C : Collections R) (J : Json) (room : Str) (p : Presence) (db : R.Db)
    (held : HoldsPresence J (R.look db) room p) where
  -- HSETNX of a participant that is no member, and of one that is.
  pub hsetnx-new :
      (q : Participant)
      → member q.connection_id p.roster ≡ none
      → let x = C.hsetnx db (room_presence_key room) q.connection_id (J.marshal q) in
        (x.0 ≡ ok 1) × HoldsPresence J (R.look x.1) room (record p { roster = p.roster ++ q ∷ [] })
  hsetnx-new q absent = (
    C.hsetnx-reply db (room_presence_key room) q.connection_id (J.marshal q) held.members.kind
        ∙ rw (held.members.fields q.connection_id, absent),
    hash_step J room p (R.look db) _ held _ (p.roster ++ q ∷ [])
        (C.hsetnx-step db (room_presence_key room) q.connection_id (J.marshal q) held.members.kind)
        (λ f.
          put_new J.marshal q (field_of (R.look db (room_presence_key room))) p.roster f
            held.members.fields absent),
  )

  pub hsetnx-old :
      (q r : Participant)
      → member q.connection_id p.roster ≡ some r
      → let x = C.hsetnx db (room_presence_key room) q.connection_id (J.marshal q) in
        (x.0 ≡ ok 0) × HoldsPresence J (R.look x.1) room p
  hsetnx-old q r there = (
    C.hsetnx-reply db (room_presence_key room) q.connection_id (J.marshal q) held.members.kind
        ∙ rw (held.members.fields q.connection_id, there),
    hash_step J room p (R.look db) _ held _ p.roster
        (C.hsetnx-step db (room_presence_key room) q.connection_id (J.marshal q) held.members.kind)
        (λ f.
          put_old J.marshal q r (field_of (R.look db (room_presence_key room))) p.roster f
            held.members.fields there),
  )

  text-some : (o : Option Participant) → is_some (text_of J.marshal o) ≡ is_some o
  text-some none = refl
  text-some (some q) = refl

  text-without :
      (id f : Str)
      → with_value id none (field_of (R.look db (room_presence_key room))) f
        ≡ text_of J.marshal (if str_eq id f then none else member f p.roster)
  text-without id f = elim (Bool-cases (str_eq id f)) [
    | inl e ↦ rw e
    | inr e ↦ rw e (held.members.fields f)
  ]

  -- HDEL, HEXISTS, ZREM.
  pub hdel_lem :
      (id : Str)
      → let x = C.hdel db (room_presence_key room) id in
        (x.0 ≡ ok (one_if (is_member id p)))
        × HoldsPresence J
            (R.look x.1)
            room
            (record p { roster = keep (λ q. not (str_eq q.connection_id id)) p.roster })
  hdel_lem id = (
    C.hdel-reply db (room_presence_key room) id held.members.kind
        ∙ ap (λ b. ok (one_if b))
            (ap is_some (held.members.fields id) ∙ text-some (member id p.roster)),
    hash_step J room p (R.look db) _ held _ _
        (C.hdel-step db (room_presence_key room) id held.members.kind)
        (λ f. text-without id f ∙ ap (text_of J.marshal) (sym (member-without id f p.roster))),
  )

  pub hexists_lem :
      (id : Str) → C.hexists db (room_presence_key room) id ≡ ok (one_if (is_member id p))
  hexists_lem id =
      C.hexists-reply db (room_presence_key room) id held.members.kind
      ∙ ap (λ b. ok (one_if b))
          (ap is_some (held.members.fields id) ∙ text-some (member id p.roster))

-- Presences that agree on every connection are held alike.
pub same_presence :
    (J : Json) (l : Str → Value) (room : Str) (p q : Presence)
    → ((id : Str) → member id p.roster ≡ member id q.roster)
    → ((id : Str) → p.leases id ≡ q.leases id)
    → p.revision ≡ q.revision
    → HoldsPresence J l room p
    → HoldsPresence J l room q
same_presence J l room p q m s r h = record {
  members = record {
    kind = h.members.kind;
    fields = λ id. h.members.fields id ∙ ap (text_of J.marshal) (m id);
  };
  leased = record {
    kind = h.leased.kind;
    scores = λ id. h.leased.scores id ∙ s id;
    exact = λ id. subst IsExact (s id) (h.leased.exact id);
  };
  revised = subst (HasRevision l room) r h.revised;
}
