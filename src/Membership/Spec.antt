-- ===== src/Membership/Spec.antt =====
-- The abstract presence of a room, which the scripts of redis_presence.go are to keep: the
-- participants, the expiry of each lease in milliseconds, and the revision of the membership.
use live_collab.Base.{
  ℕ, zero, suc, ◌+◌, ◌<◌, ◌≡◌, Bool, false, not, ◌||◌, List, [], ◌∷◌, ◌++◌, map, Option, none, some,
  Str, lit, str_eq, leb, keep, if◌then◌else◌,
}
use live_collab.Base.Decimal.{format_int}
use live_collab.Message.{Participant}
use live_collab.Redis.{Entry, Value, IsCounter, IsStream}
use live_collab.Redis.Collections.{
  IsHash, IsZset, field_of, score_of, is_some, with_value, above, one_if, exact_limit,
}
use live_collab.Keys.{
  room_presence_key, room_presence_revision_key, room_presence_stream_key, room_presence_expiry_key,
}
use live_collab.Membership.{Json}

pub record Presence : Type 0 where
  pub roster : List Participant
  pub leases : Str → Option ℕ
  pub revision : ℕ

-- The participant of a connection.
abbrev pub member : Str → List Participant → Option Participant
member id [] = none
member id (q ∷ qs) = if str_eq q.connection_id id then some q else member id qs

abbrev pub is_member : Str → Presence → Bool
is_member id p = is_some (member id p.roster)

-- A lease that runs beyond now.
abbrev pub unexpired : ℕ → Option ℕ → Bool
unexpired now none = false
unexpired now (some s) = not (leb s now)

-- A member has no lease that runs beyond now.
abbrev pub any_expired : ℕ → (Str → Option ℕ) → List Participant → Bool
any_expired now leases [] = false
any_expired now leases (q ∷ qs) =
    not (unexpired now (leases q.connection_id)) || any_expired now leases qs

-- The five operations. A join of a connection that is a member changes nothing.
abbrev pub joined : ℕ → ℕ → Participant → Presence → Presence
joined now lease q p = if is_member q.connection_id p then p else record {
  roster = p.roster ++ q ∷ [];
  leases = with_value q.connection_id (some (now + lease)) p.leases;
  revision = p.revision + 1;
}

abbrev pub left : Str → Presence → Presence
left id p = record {
  roster = keep (λ q. not (str_eq q.connection_id id)) p.roster;
  leases = with_value id none p.leases;
  revision = p.revision + one_if (is_member id p);
}

-- A lease is never shortened.
abbrev pub longer : ℕ → Option ℕ → Option ℕ
longer next none = some next
longer next (some s) = if leb next s then some s else some next

abbrev pub renews : ℕ → Str → Presence → Bool
renews now id p = if is_member id p then unexpired now (p.leases id) else false

abbrev pub renewed : ℕ → ℕ → Str → Presence → Presence
renewed now lease id p =
    if renews now id p
    then record p { leases = with_value id (longer (now + lease) (p.leases id)) p.leases }
    else p

abbrev pub pruned : ℕ → Presence → Presence
pruned now p = record {
  roster = keep (λ q. unexpired now (p.leases q.connection_id)) p.roster;
  leases = λ id. above now (p.leases id);
  revision = p.revision + one_if (any_expired now p.leases p.roster);
}

-- The notices in the stream: one for each revision.
abbrev pub notices : ℕ → List (List Str)
notices zero = []
notices (suc n) = notices n ++ (lit "revision" ∷ format_int (suc n) ∷ []) ∷ []

abbrev pub IsExact : Option ℕ → Type 0
IsExact none = Unit {0}
IsExact (some s) = s < exact_limit

abbrev pub text_of : (Participant → Str) → Option Participant → Option Str
text_of f none = none
text_of f (some q) = some (f q)

-- What the four keys of a room hold.
pub record HasMembers (J : Json) (look : Str → Value) (room : Str) (roster : List Participant)
    : Type 0 where
  pub kind : IsHash (look (room_presence_key room))
  pub fields :
      (id : Str)
      → field_of (look (room_presence_key room)) id ≡ text_of J.marshal (member id roster)

pub record HasLeases (look : Str → Value) (room : Str) (leases : Str → Option ℕ) : Type 0 where
  pub kind : IsZset (look (room_presence_expiry_key room))
  pub scores : (id : Str) → score_of (look (room_presence_expiry_key room)) id ≡ leases id
  pub exact : (id : Str) → IsExact (leases id)

pub record HasRevision (look : Str → Value) (room : Str) (n : ℕ) : Type 0 where
  pub counter : IsCounter (look (room_presence_revision_key room)) n
  pub entries : List Entry
  pub entries-IsStream : IsStream (look (room_presence_stream_key room)) entries
  pub numbered : map (λ (e : Entry). e.fields) entries ≡ notices n

pub record HoldsPresence (J : Json) (look : Str → Value) (room : Str) (p : Presence) : Type 0 where
  pub members : HasMembers J look room p.roster
  pub leased : HasLeases look room p.leases
  pub revised : HasRevision look room p.revision
