-- ===== src/Keys/Disjoint.antt =====
-- No two keys of Redis coincide, for any room IDs, also when an ID contains a suffix.
use mathlib.Core.List.{reverse, reverse-append, append_cancel_left, append_cancel_right}
use live_collab.Base.{
  ◌≡◌, ◌≢◌, refl, sym, ◌∙◌, ap, Bool, true, false, [], ◌∷◌, ◌++◌, Str, lit, str_eq, str_eq_iff,
  arith, ◌&&◌, ◌||◌, ◌==◌, if◌then◌else◌, str_eq-false, str_eq-cases, str_eq_refl, Bool-cases, inl,
  inr,
}
use live_collab.Keys.{
  room_key, room_exists_key, room_content_key, room_version_key, room_sequence_key, room_stream_key,
  room_presence_key, room_presence_revision_key, room_presence_stream_key, room_presence_expiry_key,
}

-- Two lists differ at a place that both have.
clash : Str → Str → Bool
clash [] t = false
clash (a ∷ s) [] = false
clash (a ∷ s) (b ∷ t) = if a == b then clash s t else true

clash-append : (s t p q : Str) → clash s t ≡ true → s ++ p ≢ t ++ q
unfolding clash
clash-append [] t p q c e = cc
clash-append (a ∷ s) [] p q c e = cc
clash-append (a ∷ s) (b ∷ t) p q c e = ground (arith, clash-append s t p q)

-- Texts whose ends clash differ.
ends_clash : (x y s t : Str) → clash (reverse s) (reverse t) ≡ true → x ++ s ≢ y ++ t
ends_clash x y s t c e =
    clash-append (reverse s) (reverse t) (reverse x) (reverse y) c
      (sym (reverse-append x s) ∙ ap reverse e ∙ reverse-append y t)

room_key-clash :
    (a b s t : Str)
    → clash (reverse s) (reverse t) ≡ true
    → str_eq (room_key a s) (room_key b t) ≡ false
room_key-clash a b s t c =
    str_eq-false (room_key a s) (room_key b t)
      (λ e. ends_clash a b s t c (append_cancel_left (lit "livecollab:room:") (a ++ s) (b ++ t) e))

-- Keys with one suffix are as different as the rooms are.
room_key-same : (a b s : Str) → str_eq (room_key a s) (room_key b s) ≡ str_eq a b
room_key-same a b s = elim (str_eq-cases a b) [
  | inl (e, a-b) ↦ rw (e, a-b) (str_eq_refl (room_key b s))
  | inr e ↦ rw e (
      str_eq-false (room_key a s) (room_key b s) λ k. cc (
        sym e,
        (str_eq_iff a b).1 (
            append_cancel_right a b s
              (append_cancel_left (lit "livecollab:room:") (a ++ s) (b ++ s) k)),
      ))
]

-- The nine kinds of keys.
pub data Kind : Type 0 where
  existence content version sequence events presence revision notices expiry : Kind

abbrev pub key_of : Kind → Str → Str
key_of existence = room_exists_key
key_of content = room_content_key
key_of version = room_version_key
key_of sequence = room_sequence_key
key_of events = room_stream_key
key_of presence = room_presence_key
key_of revision = room_presence_revision_key
key_of notices = room_presence_stream_key
key_of expiry = room_presence_expiry_key

suffix_of : Kind → Str
suffix_of existence = lit ":exists"
suffix_of content = lit ":content"
suffix_of version = lit ":version"
suffix_of sequence = lit ":sequence"
suffix_of events = lit ":events"
suffix_of presence = lit ":presence"
suffix_of revision = lit ":presence-revision"
suffix_of notices = lit ":presence-events"
suffix_of expiry = lit ":presence-expiry"

abbrev pub kind_eq : Kind → Kind → Bool
kind_eq existence existence = true
kind_eq content content = true
kind_eq version version = true
kind_eq sequence sequence = true
kind_eq events events = true
kind_eq presence presence = true
kind_eq revision revision = true
kind_eq notices notices = true
kind_eq expiry expiry = true
kind_eq _ _ = false

key_of_lem : (i : Kind) (a : Str) → key_of i a ≡ room_key a (suffix_of i)
unfolding suffix_of room_exists_key room_content_key room_version_key room_sequence_key
    room_stream_key room_presence_key room_presence_revision_key room_presence_stream_key
    room_presence_expiry_key
key_of_lem existence a = refl
key_of_lem _ a = refl

every : (Kind → Bool) → Bool
every p =
    p existence
    && (p content
        && (p version
            && (p sequence
                && (p events && (p presence && (p revision && (p notices && p expiry)))))))

every_sound : (p : Kind → Bool) (k : Kind) → every p ≡ true → p k ≡ true
unfolding every
every_sound p existence h = ground arith
every_sound p _ h = ground arith

clashing : Kind → Kind → Bool
unfolding clash suffix_of
clashing i j = kind_eq i j || clash (reverse (suffix_of i)) (reverse (suffix_of j))

table : every (λ i. every (clashing i)) ≡ true
unfolding every clashing
table = refl

-- Suffixes of two kinds clash from the end.
clash_kinds :
    (i j : Kind)
    → kind_eq i j ≡ false
    → clash (reverse (suffix_of i)) (reverse (suffix_of j)) ≡ true
unfolding clashing
clash_kinds i j h =
    let hit : clashing i j ≡ true = every_sound (clashing i) j (every_sound _ i table) in
    second (kind_eq i j) h hit
  where
    second : {c : Bool} (b : Bool) → b ≡ false → b || c ≡ true → c ≡ true
    second true e h' = cc
    second false e h' = h'

kind_eq→≡ : (i j : Kind) → kind_eq i j ≡ true → i ≡ j
kind_eq→≡ existence j h = ground arith
kind_eq→≡ _ j h = ground arith

-- Two keys of Redis are the same exactly if they are of one kind and of one room, whatever the
-- room IDs are: no room's document, stream or presence is ever read or written as another's.
pub keys_disjoint :
    (i j : Kind) (a b : Str) → str_eq (key_of i a) (key_of j b) ≡ (kind_eq i j && str_eq a b)
keys_disjoint i j a b = elim (Bool-cases (kind_eq i j)) [
  | inl same ↦
      rw (same, ← kind_eq→≡ i j same, key_of_lem i a, key_of_lem i b)
        (room_key-same a b (suffix_of i))
  | inr other ↦
      rw (key_of_lem i a, key_of_lem j b, other)
        (room_key-clash a b (suffix_of i) (suffix_of j) (clash_kinds i j other))
]
