-- ===== src/Membership/History.antt =====
-- Runs of the methods of redis_presence.go by any number of backends: the presence that they keep,
-- and what its revision says.
use live_collab.Base.{
  ℕ, ◌+◌, ◌<◌, ◌≤◌, ◌≡◌, ◌⊎◌, refl, ◌∙◌, ap, inl, inr, Bool, true, false, Option, none, some, arith,
  Str, str_eq, str_eq-cases, if◌then◌else◌, Bool-cases,
}
use live_collab.Message.{Participant}
use live_collab.Redis.Collections.{is_some}
use live_collab.Membership.Spec.{
  Presence, member, is_member, unexpired, any_expired, joined, left, renews, renewed, pruned,
}
use live_collab.Membership.Members.{member-without, member-unexpired}
use live_collab.Membership.Sweep.{fine_member}

-- p' is later than p: the revision has grown, or it is the same and so are the members.
abbrev pub IsLater : Presence → Presence → Type 0
IsLater p p' =
    (p.revision < p'.revision)
    ⊎ ((p.revision ≡ p'.revision) × ((id : Str) → member id p'.roster ≡ member id p.roster))

pub IsLater-refl : (p : Presence) → IsLater p p
IsLater-refl p = inr (refl, λ id. refl)

pub IsLater-trans : (p q r : Presence) → IsLater p q → IsLater q r → IsLater p r
IsLater-trans p q r (inl a) (inl b) = inl (omega arith)
IsLater-trans p q r (inl a) (inr (e, s)) = inl (omega arith)
IsLater-trans p q r (inr (e, s)) (inl b) = inl (omega arith)
IsLater-trans p q r (inr (e, s)) (inr (e', s')) = inr (e ∙ e', λ id. s' id ∙ s id)

pub joined-IsLater :
    (now lease : ℕ) (q : Participant) (p : Presence)
    → IsLater p (joined now lease q p) × ((joined now lease q p).revision ≤ p.revision + 1)
joined-IsLater now lease q p = elim (Bool-cases (is_member q.connection_id p)) [
  | inl e ↦ rw e (IsLater-refl p, omega arith)
  | inr e ↦ rw e (inl (omega arith), omega arith)
]

pub left-IsLater :
    (id : Str) (p : Presence) → IsLater p (left id p) × ((left id p).revision ≤ p.revision + 1)
left-IsLater id p = elim (Bool-cases (is_member id p)) [
  | inl e ↦ rw e (inl (omega arith), omega arith)
  | inr e ↦ rw e (inr (omega arith, λ f. member-without id f p.roster ∙ gone f e), omega arith)
]
  where
    nothing : (o : Option Participant) → is_some o ≡ false → none ≡ o
    nothing none h = refl
    nothing (some q) h = cc

    gone :
        (f : Str)
        → is_some (member id p.roster) ≡ false
        → (if str_eq id f then none else member f p.roster) ≡ member f p.roster
    gone f h = elim (str_eq-cases id f) [
      | inl (e, same) ↦ rw e (nothing (member id p.roster) h ∙ ap (λ x. member x p.roster) same)
      | inr e ↦ rw e
    ]

pub renewed-IsLater :
    (now lease : ℕ) (id : Str) (p : Presence)
    → IsLater p (renewed now lease id p) × ((renewed now lease id p).revision ≤ p.revision + 1)
renewed-IsLater now lease id p = elim (Bool-cases (renews now id p)) [
  | inl e ↦ rw e (inr (refl, λ f. refl), omega arith)
  | inr e ↦ rw e (IsLater-refl p, omega arith)
]

pub pruned-IsLater :
    (now : ℕ) (p : Presence) → IsLater p (pruned now p) × ((pruned now p).revision ≤ p.revision + 1)
pruned-IsLater now p = elim (Bool-cases (any_expired now p.leases p.roster)) [
  | inl e ↦ rw e (inl (omega arith), omega arith)
  | inr e ↦
      rw e
        (inr (omega arith, λ f. member-unexpired now p.leases f p.roster ∙ there f e), omega arith)
]
  where
    absent : (o : Option Participant) → is_some o ≡ false → (b : Bool) → (if b then o else none) ≡ o
    absent none h true = refl
    absent none h false = refl
    absent (some q) h b = cc

    there :
        (f : Str)
        → any_expired now p.leases p.roster ≡ false
        → (if unexpired now (p.leases f) then member f p.roster else none) ≡ member f p.roster
    there f e = elim (Bool-cases (is_member f p)) [
      | inl m ↦ rw (fine_member now p.leases f p.roster e m)
      | inr n ↦ absent (member f p.roster) n (unexpired now (p.leases f))
    ]
