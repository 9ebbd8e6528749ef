-- ===== src/Membership/Members.antt =====
-- The roster of a room: looking up a connection after each operation.
use live_collab.Base.{
  ℕ, ◌≡◌, refl, ◌∙◌, ap, inl, inr, false, not, List, [], ◌∷◌, ◌++◌, Option, none, some, arith, Str,
  str_eq, str_eq_refl, str_eq_iff, str_eq-cases, keep, if◌then◌else◌, Bool-cases,
}
use live_collab.Message.{Participant}
use live_collab.Redis.Collections.{with_value, or_value}
use live_collab.Membership.Spec.{member, text_of, unexpired}

-- A roster with another participant at its end.
abbrev or_new : Participant → Str → Option Participant → Option Participant
or_new q f none = if str_eq q.connection_id f then some q else none
or_new q f (some r) = some r

member-snoc :
    (q : Participant) (f : Str) (qs : List Participant)
    → member f (qs ++ q ∷ []) ≡ or_new q f (member f qs)
member-snoc q f [] = refl
member-snoc q f (r ∷ qs) = elim (Bool-cases (str_eq r.connection_id f)) [
  | inl e ↦ rw e
  | inr e ↦ rw e (member-snoc q f qs)
]

-- HSETNX on a connection that is no member, and on one that is.
pub put_new :
    (g : Participant → Str) (q : Participant) (m : Str → Option Str) (qs : List Participant)
    (f : Str)
    → ((id : Str) → m id ≡ text_of g (member id qs))
    → member q.connection_id qs ≡ none
    → with_value q.connection_id (some (or_value (m q.connection_id) (g q))) m f
      ≡ text_of g (member f (qs ++ q ∷ []))
put_new g q m qs f h absent = elim (str_eq-cases q.connection_id f) [
  | inl (e, same) ↦ rw (
    member-snoc q f qs,
    e,
    h q.connection_id,
    absent,
    ← same,
    absent,
    str_eq_refl q.connection_id,
  )
  | inr other ↦ rw (other, member-snoc q f qs, h f) (unchanged (member f qs) other)
]
  where
    unchanged :
        (o : Option Participant)
        → str_eq q.connection_id f ≡ false
        → text_of g o ≡ text_of g (or_new q f o)
    unchanged none e = rw e
    unchanged (some r) e = refl

pub put_old :
    (g : Participant → Str) (q r : Participant) (m : Str → Option Str) (qs : List Participant)
    (f : Str)
    → ((id : Str) → m id ≡ text_of g (member id qs))
    → member q.connection_id qs ≡ some r
    → with_value q.connection_id (some (or_value (m q.connection_id) (g q))) m f
      ≡ text_of g (member f qs)
put_old g q r m qs f h there = elim (str_eq-cases q.connection_id f) [
  | inl (e, same) ↦ rw (e, h q.connection_id, there, ← same, there)
  | inr other ↦ rw other (h f)
]

pub member-without :
    (id f : Str) (qs : List Participant)
    → member f (keep (λ q. not (str_eq q.connection_id id)) qs)
      ≡ (if str_eq id f then none else member f qs)
member-without id f [] = ground arith
member-without id f (q ∷ qs) = ground (
  arith,
  member-without id f qs,
  str_eq_iff q.connection_id id,
  str_eq_iff q.connection_id f,
  str_eq_iff id f,
)

pub member-unexpired :
    (now : ℕ) (leases : Str → Option ℕ) (f : Str) (qs : List Participant)
    → member f (keep (λ q. unexpired now (leases q.connection_id)) qs)
      ≡ (if unexpired now (leases f) then member f qs else none)
member-unexpired now leases f [] = ground arith
member-unexpired now leases f (q ∷ qs) = elim (str_eq-cases q.connection_id f) [
  | inl (e, same) ↦
      let l : unexpired now (leases q.connection_id) ≡ unexpired now (leases f) =
        ap (λ id. unexpired now (leases id)) same in
      elim (Bool-cases (unexpired now (leases f))) [
        | inl on ↦ rw (l ∙ on, on, e)
        | inr off ↦ rw (l ∙ off, off) (member-unexpired now leases f qs ∙ rw off)
      ]
  | inr other ↦ rw other (elim (Bool-cases (unexpired now (leases q.connection_id))) [
    | inl on ↦ rw (on, other) (member-unexpired now leases f qs)
    | inr off ↦ rw off (member-unexpired now leases f qs)
  ])
]
