-- ===== src/Room/Members.antt =====
-- AddClient and RemoveClient of room.go: who is registered, and the local presence revision.
use live_collab.Base.{
  ℕ, ◌<◌, ◌≤◌, ◌≡◌, refl, ◌∙◌, Bool, true, false, not, ◌&&◌, ◌||◌, List, [], ◌∷◌, ◌++◌, arith,
  inc64, length, keep, ◌==◌, if◌then◌else◌, Bool-cases, inl, inr,
}
use live_collab.Room.{Room, add_client, remove_client}

-- A client is registered.
abbrev pub registered : ℕ → List ℕ → Bool
registered t [] = false
registered t (c ∷ cs) = c == t || registered t cs

abbrev pub others : ℕ → List ℕ → List ℕ
others t = keep (λ c. not (c == t))

length-others-le : (t : ℕ) (cs : List ℕ) → length (others t cs) ≤ length cs
length-others-le t [] = omega arith
length-others-le t (c ∷ cs) = ground (arith, length-others-le t cs)

pub others_absent : (t : ℕ) (cs : List ℕ) → registered t cs ≡ false → others t cs ≡ cs
others_absent t [] h = refl
others_absent t (c ∷ cs) h = ground (arith, others_absent t cs)

others_present : (t : ℕ) (cs : List ℕ) → registered t cs ≡ true → length (others t cs) < length cs
others_present t [] h = cc
others_present t (c ∷ cs) h = ground (arith, others_present t cs, length-others-le t cs)

registered-others :
    (t a : ℕ) (cs : List ℕ) → registered a (others t cs) ≡ (not (a == t) && registered a cs)
registered-others t a [] = ground arith
registered-others t a (c ∷ cs) = ground (arith, registered-others t a cs)

registered-snoc :
    (t a : ℕ) (cs : List ℕ) → registered a (cs ++ t ∷ []) ≡ (registered a cs || t == a)
registered-snoc t a [] = ground arith
registered-snoc t a (c ∷ cs) = ground (arith, registered-snoc t a cs)

remove-registered :
    (r : Room) (t a : ℕ)
    → registered a (remove_client r t).clients ≡ (not (a == t) && registered a r.clients)
unfolding remove_client
remove-registered r t a = registered-others t a r.clients

remove_absent : (r : Room) (t : ℕ) → registered t r.clients ≡ false → remove_client r t ≡ r
unfolding remove_client
remove_absent r t h = ground (arith, others_absent t r.clients h)

remove-revision :
    (r : Room) (t : ℕ)
    → (remove_client r t).local_presence_revision ≡ (
        if not r.has_store && registered t r.clients
        then inc64 r.local_presence_revision
        else r.local_presence_revision)
unfolding remove_client
remove-revision r t = elim (Bool-cases (registered t r.clients)) [
  | inl e ↦ ground (arith, others_present t r.clients e)
  | inr e ↦ ground (arith, others_absent t r.clients e)
]

-- After AddClient exactly the new client is registered besides those before, and after
-- RemoveClient exactly the others are; to remove a client again changes nothing at all. On a
-- backend without Redis the presence revision takes one step at each call that changes who is
-- registered; with Redis the local revision stays.
pub membership :
    (r : Room) (t : ℕ)
    → ((a : ℕ) → registered a (add_client r t).clients ≡ (registered a r.clients || t == a))
      × ((a : ℕ)
          → registered a (remove_client r t).clients ≡ (not (a == t) && registered a r.clients))
      × (remove_client (remove_client r t) t ≡ remove_client r t)
      × ((add_client r t).local_presence_revision
          ≡ (if r.has_store then r.local_presence_revision else inc64 r.local_presence_revision))
      × ((remove_client r t).local_presence_revision ≡ (
          if not r.has_store && registered t r.clients
          then inc64 r.local_presence_revision
          else r.local_presence_revision))
unfolding add_client
membership r t = (
  λ a. registered-snoc t a r.clients,
  λ a. remove-registered r t a,
  remove_absent (remove_client r t) t (remove-registered r t t ∙ ground arith),
  refl,
  remove-revision r t,
)
