-- ===== src/Membership/Sorted.antt =====
-- sortParticipants of presence.go: the order by connection ID, and what stands in the sorted list.
use live_collab.Base.{
  ◌≡◌, ◌≢◌, refl, sym, ◌∙◌, ap, ap₂, subst, inl, inr, true, false, List, [], ◌∷◌, Option, none,
  some, arith, Str, str_eq, str_eq_refl, str_eq-cases, contains, ltb, ◌==◌, Bool-cases,
  both_branches, Option-cases, if◌then◌else◌,
}
use live_collab.Message.{Participant}
use live_collab.Redis.Collections.{values_of, Distinct}
use live_collab.Membership.Calls.{str_lt, sort_participants, insert_participant}
use live_collab.Membership.Spec.{member}

-- Two texts that are not in one order are in the other, or the same.
str_lt-total : (s t : Str) → str_lt s t ≡ false → s ≢ t → str_lt t s ≡ true
unfolding str_lt
str_lt-total [] [] e ne = elim (ne refl) [ ]
str_lt-total [] (b ∷ t) e ne = cc
str_lt-total (a ∷ s) [] e ne = refl
str_lt-total (a ∷ s) (b ∷ t) e ne = elim (Bool-cases (a == b)) [
  | inl f ↦
      let same : a ≡ b = ground arith in
      let back : (b == a) ≡ true = ground arith in
      rw back (str_lt-total s t (rw f at e) (λ h. ne (ap₂ (◌∷◌) same h)))
  | inr f ↦
      let back : (b == a) ≡ false = ground arith in
      let less : ltb a b ≡ false = rw f at e in
      let more : ltb b a ≡ true = ground arith in rw (back, more)
]

-- Before the first of the rest, and so the whole in strictly ascending order.
abbrev Leads : Participant → List Participant → Type 0
Leads p [] = Unit {0}
Leads p (q ∷ qs) = str_lt p.connection_id q.connection_id ≡ true

abbrev pub IsAscending : List Participant → Type 0
IsAscending [] = Unit {0}
IsAscending (p ∷ ps) = Leads p ps × IsAscending ps

insert-Leads :
    (p q : Participant) (qs : List Participant)
    → str_lt q.connection_id p.connection_id ≡ true
    → Leads q qs
    → Leads q (insert_participant p qs)
unfolding insert_participant
insert-Leads p q [] e h = e
insert-Leads p q (r ∷ rs) e h = elim (Bool-cases (str_lt r.connection_id p.connection_id)) [
  | inl f ↦ rw f h
  | inr f ↦ rw f e
]

-- A participant that is not in a list has another connection ID than its first.
apart :
    (p q : Participant) (qs : List Participant)
    → member p.connection_id (q ∷ qs) ≡ none
    → (q.connection_id ≢ p.connection_id) × (member p.connection_id qs ≡ none)
apart p q qs absent = elim (str_eq-cases q.connection_id p.connection_id) [
  | inl (e, same) ↦ let no_member : some q ≡ none = rw e at absent in cc
  | inr e ↦ ((λ h. different h e), rw e at absent)
]
  where
    different : {s t : Str} → s ≡ t → str_eq s t ≢ false
    different {s} h e =
        let yes_same : str_eq s s ≡ false = subst (λ x. str_eq s x ≡ false) (sym h) e in
        let is_same = str_eq_refl s in cc

insert-IsAscending :
    (p : Participant) (qs : List Participant)
    → member p.connection_id qs ≡ none
    → IsAscending qs
    → IsAscending (insert_participant p qs)
unfolding insert_participant
insert-IsAscending p [] absent h = (h, h)
insert-IsAscending p (q ∷ qs) absent (leads, h) =
    elim (Bool-cases (str_lt q.connection_id p.connection_id)) [
      | inl f ↦
          rw f (insert-Leads p q qs f leads, insert-IsAscending p qs (apart p q qs absent).1 h)
      | inr f ↦
          rw f (str_lt-total q.connection_id p.connection_id f (apart p q qs absent).0, (leads, h))
    ]

insert-member :
    (id : Str) (p : Participant) (qs : List Participant)
    → member p.connection_id qs ≡ none
    → member id (insert_participant p qs) ≡ member id (p ∷ qs)
unfolding insert_participant
insert-member id p [] absent = refl
insert-member id p (q ∷ qs) absent = elim (Bool-cases (str_lt q.connection_id p.connection_id)) [
  | inl f ↦
      rw (f, insert-member id p qs (apart p q qs absent).1) (swap id p q _ (apart p q qs absent).0)
  | inr f ↦ rw f
]
  where
    swap :
        (id : Str) (p q : Participant) (o : Option Participant)
        → q.connection_id ≢ p.connection_id
        → (if str_eq q.connection_id id
            then some q
            else if str_eq p.connection_id id
            then some p
            else o)
          ≡ (if str_eq p.connection_id id
              then some p
              else if str_eq q.connection_id id
              then some q
              else o)
    swap id p q o ne = elim (str_eq-cases q.connection_id id) [
      | inl (e, same) ↦ elim (str_eq-cases p.connection_id id) [
        | inl (e', same') ↦ elim (ne (same ∙ sym same')) [ ]
        | inr e' ↦ rw (e, e')
      ]
      | inr e ↦ rw e
    ]

-- The participants of a list with some connection IDs.
abbrev pub listed : List Participant → List Str → List Participant
listed ps ids = values_of (λ id. member id ps) ids

pub id_of_member :
    (id : Str) (ps : List Participant) (q : Participant)
    → member id ps ≡ some q
    → q.connection_id ≡ id
id_of_member id [] q h = cc
id_of_member id (p ∷ ps) q h = elim (str_eq-cases p.connection_id id) [
  | inl (e, same) ↦
      let found : some p ≡ some q = rw e at h in
      let p_is : p ≡ q = cc in ap (λ (x : Participant). x.connection_id) (sym p_is) ∙ same
  | inr e ↦ id_of_member id ps q (rw e at h)
]

values_of-some :
    (m : Str → Option Participant) (f : Str) (fs : List Str) (q : Participant)
    → m f ≡ some q
    → values_of m (f ∷ fs) ≡ q ∷ values_of m fs
unfolding values_of
values_of-some m f fs q e = rw (values_of, e)

values_of-none :
    (m : Str → Option Participant) (f : Str) (fs : List Str)
    → m f ≡ none
    → values_of m (f ∷ fs) ≡ values_of m fs
unfolding values_of
values_of-none m f fs e = rw (values_of, e)

abbrev Shows : List Participant → List Str → List Participant → Type 0
Shows ps ids xs = (id : Str) → member id xs ≡ (if contains id ids then member id ps else none)

pub sorted_lem :
    (ps : List Participant) (ids : List Str)
    → Distinct ids
    → IsAscending (sort_participants (listed ps ids))
      × Shows ps ids (sort_participants (listed ps ids))
unfolding sort_participants values_of
sorted_lem ps [] distinct = (record {}, λ id. refl)
sorted_lem ps (f ∷ ids) (new, distinct) =
    let (ascends, shows) = sorted_lem ps ids distinct in
    let P : List Participant → Type 0 =
      λ qs. IsAscending (sort_participants qs) × Shows ps (f ∷ ids) (sort_participants qs) in
    elim (Option-cases (member f ps)) [
      | inl e ↦
          subst P (sym (values_of-none (λ id. member id ps) f ids e))
            (ascends, λ id. shows id ∙ absent id e)
      | inr (q, e) ↦
          let same = id_of_member f ps q e in
          let only : member q.connection_id (sort_participants (listed ps ids)) ≡ none =
            shows q.connection_id ∙ rw (same, new) in
          subst P (sym (values_of-some (λ id. member id ps) f ids q e)) (
            insert-IsAscending q _ only ascends,
            λ id. insert-member id q _ only ∙ present id q _ e same (shows id),
          )
    ]
  where
    absent :
        (id : Str)
        → member f ps ≡ none
        → (if contains id ids then member id ps else none)
          ≡ (if contains id (f ∷ ids) then member id ps else none)
    absent id e = elim (str_eq-cases f id) [
      | inl (t, same) ↦ rw t (
          both_branches (λ o. o ≡ member id ps) (contains id ids) refl
            (sym e ∙ ap (λ x. member x ps) same))
      | inr t ↦ rw t
    ]

    present :
        (id : Str) (q : Participant) (xs : List Participant)
        → member f ps ≡ some q
        → q.connection_id ≡ f
        → member id xs ≡ (if contains id ids then member id ps else none)
        → member id (q ∷ xs) ≡ (if contains id (f ∷ ids) then member id ps else none)
    present id q xs e same h = elim (str_eq-cases f id) [
      | inl (t, is) ↦ rw (ap (λ x. str_eq x id) same ∙ t, t) (sym e ∙ ap (λ x. member x ps) is)
      | inr t ↦ rw (ap (λ x. str_eq x id) same ∙ t, t) h
    ]
