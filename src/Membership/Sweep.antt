-- ===== src/Membership/Sweep.antt =====
-- The loop of prunePresenceBody of redis_presence.go on the abstract presence.
use live_collab.Base.{
  ℕ, ◌+◌, ◌<◌, ◌≡◌, refl, sym, ◌∙◌, ap, inl, inr, true, false, not, ◌&&◌, List, [], ◌∷◌, Option,
  none, some, arith, All, Str, str_eq, str_eq_refl, str_eq-cases, contains, keep, ◌==◌,
  if◌then◌else◌, Bool-cases,
}
use live_collab.Message.{Participant}
use live_collab.Redis.Collections.{is_some, with_value, above, one_if}
use live_collab.Membership.Spec.{Presence, member, is_member, unexpired, any_expired, pruned}
use live_collab.Membership.Members.{member-without, member-unexpired}

-- One round: a member without a lease beyond now is taken out, with its lease.
abbrev pub sweep_one : ℕ → Str → Presence → Presence
sweep_one now id p = if unexpired now (p.leases id) then p else record p {
  roster = keep (λ q. not (str_eq q.connection_id id)) p.roster;
  leases = with_value id none p.leases;
}

abbrev pub gone_one : ℕ → Str → Presence → ℕ
gone_one now id p = if unexpired now (p.leases id) then 0 else one_if (is_member id p)

unfoldable pub swept : ℕ → List Str → Presence → Presence
swept now [] p = p
swept now (id ∷ ids) p = swept now ids (sweep_one now id p)

unfoldable pub gone : ℕ → List Str → Presence → ℕ
gone now [] p = 0
gone now (id ∷ ids) p = gone_one now id p + gone now ids (sweep_one now id p)

member-sweep_one :
    (now : ℕ) (id f : Str) (p : Presence)
    → member f (sweep_one now id p).roster
      ≡ (if str_eq id f && not (unexpired now (p.leases f)) then none else member f p.roster)
member-sweep_one now id f p = elim (str_eq-cases id f) [
  | inl (e, same) ↦
      let l : unexpired now (p.leases id) ≡ unexpired now (p.leases f) =
        ap (λ x. unexpired now (p.leases x)) same in
      elim (Bool-cases (unexpired now (p.leases f))) [
        | inl on ↦ rw (l ∙ on, e, on)
        | inr off ↦ rw (l ∙ off, e, off) (member-without id f p.roster ∙ rw e)
      ]
  | inr e ↦ elim (Bool-cases (unexpired now (p.leases id))) [
    | inl on ↦ rw (on, e)
    | inr off ↦ rw (off, e) (member-without id f p.roster ∙ rw e)
  ]
]

lease-sweep_one :
    (now : ℕ) (id f : Str) (p : Presence)
    → (sweep_one now id p).leases f
      ≡ (if str_eq id f && not (unexpired now (p.leases f)) then none else p.leases f)
lease-sweep_one now id f p = elim (str_eq-cases id f) [
  | inl (e, same) ↦
      let l : unexpired now (p.leases id) ≡ unexpired now (p.leases f) =
        ap (λ x. unexpired now (p.leases x)) same in
      elim (Bool-cases (unexpired now (p.leases f))) [
        | inl on ↦ rw (l ∙ on, e, on)
        | inr off ↦ rw (l ∙ off, e, off)
      ]
  | inr e ↦ elim (Bool-cases (unexpired now (p.leases id))) [
    | inl on ↦ rw (on, e)
    | inr off ↦ rw (off, e)
  ]
]

unexpired-sweep_one :
    (now : ℕ) (id f : Str) (p : Presence)
    → unexpired now ((sweep_one now id p).leases f) ≡ unexpired now (p.leases f)
unexpired-sweep_one now id f p =
    ap (unexpired now) (lease-sweep_one now id f p)
    ∙ elim (Bool-cases (unexpired now (p.leases f))) [
      | inl on ↦ rw on (elim (Bool-cases (str_eq id f)) [ inl e ↦ rw (e, on) | inr e ↦ rw (e, on) ])
      | inr off ↦ rw off (elim (Bool-cases (str_eq id f)) [ inl e ↦ rw e | inr e ↦ rw (e, off) ])
    ]

pub member-swept :
    (now : ℕ) (ids : List Str) (f : Str) (p : Presence)
    → member f (swept now ids p).roster
      ≡ (if contains f ids && not (unexpired now (p.leases f)) then none else member f p.roster)
unfolding swept
member-swept now [] f p = refl
member-swept now (id ∷ ids) f p =
    member-swept now ids f (sweep_one now id p)
    ∙ rw (unexpired-sweep_one now id f p, member-sweep_one now id f p) (ground arith)

pub lease-swept :
    (now : ℕ) (ids : List Str) (f : Str) (p : Presence)
    → (swept now ids p).leases f
      ≡ (if contains f ids && not (unexpired now (p.leases f)) then none else p.leases f)
unfolding swept
lease-swept now [] f p = refl
lease-swept now (id ∷ ids) f p =
    lease-swept now ids f (sweep_one now id p)
    ∙ rw (unexpired-sweep_one now id f p, lease-sweep_one now id f p) (ground arith)

-- Whether anyone has gone.
some_gone :
    (now : ℕ) (ids : List Str) (f : Str) (p : Presence)
    → contains f ids ≡ true
    → is_member f p ≡ true
    → unexpired now (p.leases f) ≡ false
    → 0 < gone now ids p
unfolding gone
some_gone now [] f p c m u = cc
some_gone now (id ∷ ids) f p c m u = elim (str_eq-cases id f) [
  | inl (e, same) ↦
      let l : gone_one now id p ≡ 1 = ap (λ x. gone_one now x p) same ∙ rw (u, m) in
      omega (arith, l)
  | inr e ↦
      let later =
        some_gone now ids f (sweep_one now id p) (rw e at c)
          (ap is_some (member-sweep_one now id f p) ∙ rw e m)
          (unexpired-sweep_one now id f p ∙ u) in
      omega (arith, later)
]

pub fine_member :
    (now : ℕ) (leases : Str → Option ℕ) (f : Str) (qs : List Participant)
    → any_expired now leases qs ≡ false
    → is_some (member f qs) ≡ true
    → unexpired now (leases f) ≡ true
fine_member now leases f [] a m = cc
fine_member now leases f (q ∷ qs) a m = elim (str_eq-cases q.connection_id f) [
  | inl (e, same) ↦ ap (λ x. unexpired now (leases x)) (sym same) ∙ ground arith
  | inr e ↦ fine_member now leases f qs (ground arith) (rw e at m)
]

none_gone :
    (now : ℕ) (ids : List Str) (p : Presence)
    → any_expired now p.leases p.roster ≡ false
    → All (λ id. is_member id p ≡ true) ids
    → gone now ids p ≡ 0
unfolding gone
none_gone now [] p a h = refl
none_gone now (id ∷ ids) p a h =
    let fine = fine_member now p.leases id p.roster a h.0 in
    rw fine (omega (arith, none_gone now ids p a h.1))

expired_member :
    (now : ℕ) (leases : Str → Option ℕ) (qs : List Participant)
    → any_expired now leases qs ≡ true
    → (f : Str) × (is_some (member f qs) ≡ true) × (unexpired now (leases f) ≡ false)
expired_member now leases [] a = cc
expired_member now leases (q ∷ qs) a = elim (Bool-cases (unexpired now (leases q.connection_id))) [
  | inl on ↦
      let (f, m, u) = expired_member now leases qs (rw on at a) in
      (f, elim (Bool-cases (str_eq q.connection_id f)) [ inl e ↦ rw e | inr e ↦ rw e m ], u)
  | inr off ↦ (q.connection_id, rw (str_eq_refl q.connection_id), off)
]

All-members :
    (ids : List Str) (p : Presence)
    → ((f : Str) → contains f ids ≡ true → is_member f p ≡ true)
    → All (λ id. is_member id p ≡ true) ids
All-members [] p h = tt
All-members (id ∷ ids) p h = (
  h id (rw (str_eq_refl id)),
  All-members ids p
      (λ f c. h f (elim (Bool-cases (str_eq id f)) [ inl e ↦ rw e | inr e ↦ rw (e, c) ])),
)

-- Over a list of exactly the members, the revision is to move if and only if a member has gone.
pub gone_lem :
    (now : ℕ) (ids : List Str) (p : Presence)
    → ((f : Str) → contains f ids ≡ is_member f p)
    → not (gone now ids p == 0) ≡ any_expired now p.leases p.roster
gone_lem now ids p h = elim (Bool-cases (any_expired now p.leases p.roster)) [
  | inl some_one ↦
      let (f, m, u) = expired_member now p.leases p.roster some_one in
      let more = some_gone now ids f p (h f ∙ m) m u in rw some_one (ground arith)
  | inr no_one ↦
      let zero_gone = none_gone now ids p no_one (All-members ids p (λ f c. sym (h f) ∙ c)) in
      rw (no_one, zero_gone)
]

pub member-pruned :
    (now : ℕ) (ids : List Str) (f : Str) (p : Presence)
    → ((g : Str) → contains g ids ≡ is_member g p)
    → member f (swept now ids p).roster ≡ member f (pruned now p).roster
member-pruned now ids f p h =
    member-swept now ids f p ∙ elim (Bool-cases (unexpired now (p.leases f))) [
      | inl on ↦
          let kept : (if contains f ids && not (unexpired now (p.leases f))
                then none
                else member f p.roster)
              ≡ member f p.roster =
            ground arith in
          kept ∙ sym (member-unexpired now p.leases f p.roster ∙ rw on)
      | inr off ↦
          let gone_too : (if contains f ids && not (unexpired now (p.leases f))
                then none
                else member f p.roster)
              ≡ none =
            rw (off, h f) (absent (member f p.roster)) in
          gone_too ∙ sym (member-unexpired now p.leases f p.roster ∙ rw off)
    ]
  where
    absent : (o : Option Participant) → (if is_some o && true then none else o) ≡ none
    absent none = refl
    absent (some q) = refl

above-unexpired : (now : ℕ) (o : Option ℕ) → unexpired now o ≡ false → above now o ≡ none
above-unexpired now none u = refl
above-unexpired now (some s) u = ground arith

pub lease-pruned :
    (now : ℕ) (ids : List Str) (f : Str) (p : Presence)
    → above now ((swept now ids p).leases f) ≡ (pruned now p).leases f
lease-pruned now ids f p =
    ap (above now) (lease-swept now ids f p)
    ∙ elim (Bool-cases (contains f ids && not (unexpired now (p.leases f)))) [
      | inl e ↦ rw e (sym (above-unexpired now (p.leases f) (ground arith)))
      | inr e ↦ rw e
    ]

pub revision-swept :
    (now : ℕ) (ids : List Str) (p : Presence) → (swept now ids p).revision ≡ p.revision
unfolding swept
revision-swept now [] p = refl
revision-swept now (id ∷ ids) p =
    revision-swept now ids (sweep_one now id p)
    ∙ elim (Bool-cases (unexpired now (p.leases id))) [ inl on ↦ rw on | inr off ↦ rw off ]
