-- ===== src/Redis/Tables.antt =====
-- Lists of pairs as the hashes and sorted sets of a database in memory.
use live_collab.Base.{
  ℕ, ◌≡◌, refl, sym, ◌∙◌, ap, inl, inr, Bool, true, false, List, [], ◌∷◌, Option, none, some, Str,
  str_eq, str_eq_refl, str_eq-cases, contains, leb, if◌then◌else◌, Bool-cases,
}
use live_collab.Redis.Collections.{value_at, with_value, above, is_some, Distinct}

unfoldable pub put {ℓ} : {V : Type ℓ} → Str → V → List (Str × V) → List (Str × V)
put f v [] = (f, v) ∷ []
put f v ((g, w) ∷ m) = let rest = put f v m in if str_eq g f then (f, v) ∷ m else (g, w) ∷ rest

unfoldable pub remove {ℓ} : {V : Type ℓ} → Str → List (Str × V) → List (Str × V)
remove f [] = []
remove f ((g, w) ∷ m) = let rest = remove f m in if str_eq g f then rest else (g, w) ∷ rest

unfoldable pub keys_of {ℓ} : {V : Type ℓ} → List (Str × V) → List Str
keys_of [] = []
keys_of ((g, w) ∷ m) = let rest = keys_of m in if contains g rest then rest else g ∷ rest

unfoldable pub drop_up_to : ℕ → List (Str × ℕ) → List (Str × ℕ)
unfolding remove
drop_up_to n [] = []
drop_up_to n ((f, s) ∷ m) =
    let rest = drop_up_to n m in if leb s n then remove f rest else (f, s) ∷ rest

differ : (g f j : Str) → g ≡ j → str_eq g f ≡ false → str_eq f j ≡ false
differ g f j same e = elim (str_eq-cases f j) [
  | inl (t, is) ↦
      let refl_g : str_eq g f ≡ true = ap (str_eq g) (is ∙ sym same) ∙ str_eq_refl g in cc
  | inr t ↦ t
]

nothing_at {ℓ} : {V : Type ℓ} (b : Bool) → Path (Option V) none (if b then none else none)
nothing_at true = refl
nothing_at false = refl

pub put_lem {ℓ} :
    {V : Type ℓ} (f : Str) (v : V) (m : List (Str × V)) (j : Str)
    → value_at j (put f v m) ≡ with_value f (some v) (λ i. value_at i m) j
unfolding put value_at
put_lem f v [] j = refl
put_lem f v ((g, w) ∷ m) j = elim (str_eq-cases g f) [
  | inl (e, same) ↦ elim (Bool-cases (str_eq f j)) [
    | inl t ↦ rw (e, t)
    | inr t ↦ rw (e, t, ap (λ x. str_eq x j) same ∙ t)
  ]
  | inr e ↦ elim (str_eq-cases g j) [
    | inl (t, same) ↦ rw (e, t, differ g f j same e)
    | inr t ↦ rw (e, t) (put_lem f v m j)
  ]
]

pub remove_lem {ℓ} :
    {V : Type ℓ} (f : Str) (m : List (Str × V)) (j : Str)
    → value_at j (remove f m) ≡ with_value f none (λ i. value_at i m) j
unfolding remove value_at
remove_lem f [] j = nothing_at (str_eq f j)
remove_lem f ((g, w) ∷ m) j = elim (str_eq-cases g f) [
  | inl (e, same) ↦ elim (Bool-cases (str_eq f j)) [
    | inl t ↦ rw (e, remove_lem f m j, t)
    | inr t ↦ rw (e, remove_lem f m j, t, ap (λ x. str_eq x j) same ∙ t)
  ]
  | inr e ↦ elim (str_eq-cases g j) [
    | inl (t, same) ↦ rw (e, t, differ g f j same e)
    | inr t ↦ rw (e, t) (remove_lem f m j)
  ]
]

pub drop_up_to_lem :
    (n : ℕ) (m : List (Str × ℕ)) (j : Str) → value_at j (drop_up_to n m) ≡ above n (value_at j m)
unfolding drop_up_to value_at
drop_up_to_lem n [] j = refl
drop_up_to_lem n ((f, s) ∷ m) j = elim (Bool-cases (leb s n)) [
  | inl e ↦ elim (Bool-cases (str_eq f j)) [
    | inl t ↦ rw (e, remove_lem f (drop_up_to n m) j, t, e)
    | inr t ↦ rw (e, remove_lem f (drop_up_to n m) j, t, drop_up_to_lem n m j)
  ]
  | inr e ↦ elim (Bool-cases (str_eq f j)) [
    | inl t ↦ rw (e, t, e)
    | inr t ↦ rw (e, t, drop_up_to_lem n m j)
  ]
]

pub contains-keys_of {ℓ} :
    {V : Type ℓ} (m : List (Str × V)) (j : Str) → contains j (keys_of m) ≡ is_some (value_at j m)
unfolding keys_of value_at
contains-keys_of [] j = refl
contains-keys_of ((g, w) ∷ m) j = elim (Bool-cases (contains g (keys_of m))) [
  | inl e ↦ elim (str_eq-cases g j) [
    | inl (t, same) ↦ rw (e, t) (ap (λ x. contains x (keys_of m)) (sym same) ∙ e)
    | inr t ↦ rw (e, t) (contains-keys_of m j)
  ]
  | inr e ↦ elim (Bool-cases (str_eq g j)) [
    | inl t ↦ rw (e, t)
    | inr t ↦ rw (e, t) (contains-keys_of m j)
  ]
]

pub keys_of-Distinct {ℓ} : {V : Type ℓ} (m : List (Str × V)) → Distinct (keys_of m)
unfolding keys_of
keys_of-Distinct [] = record {}
keys_of-Distinct ((g, w) ∷ m) = elim (Bool-cases (contains g (keys_of m))) [
  | inl e ↦ rw e (keys_of-Distinct m)
  | inr e ↦ rw e (e, keys_of-Distinct m)
]
