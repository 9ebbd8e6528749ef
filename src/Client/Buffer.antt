-- ===== src/Client/Buffer.antt =====
-- The pending map of client.go under messages that come in order: what it holds, and what the sort
-- of finishReplay makes of it.
use live_collab.Base.{
  inl, inr, ℕ, ◌<◌, ◌≤◌, ◌≡◌, refl, List, [], ◌∷◌, ◌++◌, arith, Int64, rank64, lt64, All,
  Bool-cases,
}
use live_collab.Message.{Message}
use live_collab.Client.{assign, index, sort_sequences, pending_above}
use live_collab.Client.Order.{Rising, Rising-mono, later}

-- The entries that messages leave in the map.
abbrev pub tag : List Message → List (Int64 × Message)
tag [] = []
tag (m ∷ ms) = (m.sequence, m) ∷ tag ms

abbrev pub sequences : List Message → List Int64
sequences [] = []
sequences (m ∷ ms) = m.sequence ∷ sequences ms

-- Every key of the map is at most the bound.
abbrev pub KeysUpTo : ℕ → List (Int64 × Message) → Type 0
KeysUpTo hi [] = Unit {0}
KeysUpTo hi ((k, m) ∷ p) = (rank64 k ≤ hi) × KeysUpTo hi p

pub KeysUpTo-mono :
    {lo hi : ℕ} (p : List (Int64 × Message)) → lo ≤ hi → KeysUpTo lo p → KeysUpTo hi p
KeysUpTo-mono [] h k = tt
KeysUpTo-mono ((s, m) ∷ p) h k = (omega arith, KeysUpTo-mono p h k.1)

-- A key above all others goes to the end.
pub assign_fresh :
    (s : Int64) (m : Message) (hi : ℕ) (p : List (Int64 × Message))
    → KeysUpTo hi p
    → hi < rank64 s
    → assign s m p ≡ p ++ (s, m) ∷ []
unfolding assign
assign_fresh s m hi [] k h = refl
assign_fresh s m hi ((j, w) ∷ p) k h = ground (arith, assign_fresh s m hi p k.1 h)

pub KeysUpTo-snoc :
    (s : Int64) (m : Message) (hi : ℕ) (p : List (Int64 × Message))
    → KeysUpTo hi p
    → hi ≤ rank64 s
    → KeysUpTo (rank64 s) (p ++ (s, m) ∷ [])
KeysUpTo-snoc s m hi [] k h = (omega arith, tt)
KeysUpTo-snoc s m hi ((j, w) ∷ p) k h = (omega arith, KeysUpTo-snoc s m hi p k.1 h)

pub pending_above-tag :
    (last : Int64) (ms : List Message) → pending_above last (tag ms) ≡ sequences (later last ms)
unfolding pending_above
pending_above-tag last [] = refl
pending_above-tag last (m ∷ ms) = ground (arith, pending_above-tag last ms)

pub later-Rising :
    (last : Int64) (lo : ℕ) (ms : List Message) → Rising lo ms → Rising lo (later last ms)
later-Rising last lo [] r = tt
later-Rising last lo (m ∷ ms) r = elim (Bool-cases (lt64 last m.sequence)) [
  | inl e ↦ rw e (r.0, later-Rising last (rank64 m.sequence) ms r.1)
  | inr e ↦ rw e (later-Rising last lo ms (Rising-mono ms (omega arith) r.1))
]

-- A rising list of sequences is sorted already.
pub sort_sequences-Rising :
    (lo : ℕ) (ms : List Message) → Rising lo ms → sort_sequences (sequences ms) ≡ sequences ms
unfolding sort_sequences
sort_sequences-Rising lo [] r = refl
sort_sequences-Rising lo (m ∷ []) r = refl
sort_sequences-Rising lo (m ∷ n ∷ ms) r =
    rw (sort_sequences-Rising (rank64 m.sequence) (n ∷ ms) r.1) (ground arith)

-- The map gives back each message that it holds.
abbrev pub Finds : List (Int64 × Message) → List Message → Type 0
Finds p = All (λ m. index m.sequence p ≡ m)

Finds-cons :
    (x : Message) (p : List (Int64 × Message)) (ms : List Message)
    → Rising (rank64 x.sequence) ms
    → Finds p ms
    → Finds ((x.sequence, x) ∷ p) ms
unfolding index
Finds-cons x p [] r f = tt
Finds-cons x p (m ∷ ms) r f =
    (ground arith, Finds-cons x p ms (Rising-mono ms (omega arith) r.1) f.1)

pub Finds-tag : (lo : ℕ) (ms : List Message) → Rising lo ms → Finds (tag ms) ms
unfolding index
Finds-tag lo [] r = tt
Finds-tag lo (m ∷ ms) r =
    (ground arith, Finds-cons m (tag ms) ms r.1 (Finds-tag (rank64 m.sequence) ms r.1))

pub Finds-later :
    (last : Int64) (p : List (Int64 × Message)) (ms : List Message)
    → Finds p ms
    → Finds p (later last ms)
Finds-later last p [] f = tt
Finds-later last p (m ∷ ms) f = elim (Bool-cases (lt64 last m.sequence)) [
  | inl e ↦ rw e (f.0, Finds-later last p ms f.1)
  | inr e ↦ rw e (Finds-later last p ms f.1)
]
