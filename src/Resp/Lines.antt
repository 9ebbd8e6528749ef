-- ===== src/Resp/Lines.antt =====
-- readRESPLine of redis_client.go on lines that end in "\r\n", and numbers as lines.
use live_collab.Base.{
  ℕ, zero, suc, ◌+◌, ◌-◌, ◌/◌, ◌%◌, ◌≡◌, refl, sym, ◌∙◌, ap, false, [], ◌∷◌, ◌++◌, append_assoc,
  some, arith, All, All-append, Int64, int64_limit, Str, str_eq, ltb, ◌==◌, length, take,
  str_eq_refl, trim_suffix, both_branches,
}
use live_collab.Base.Result.{ok}
use live_collab.Base.Decimal.{format_int, format_nat, digits}
use live_collab.Resp.{crlf, read_string, read_full, read_resp_line, trimmed}

-- No newline in a text.
abbrev pub IsLine : Str → Type 0
IsLine s = All (λ c. (c == 10) ≡ false) s

read_string_lem : (s t : Str) → IsLine s → read_string 10 (s ++ 10 ∷ t) ≡ some (s ++ 10 ∷ [], t)
unfolding read_string
read_string_lem [] t h = refl
read_string_lem (c ∷ s) t (h, hs) = rw (h, read_string_lem s t hs)

ends : (d : ℕ) (c : ℕ) (s : Str) → str_eq (c ∷ (s ++ d ∷ [])) (d ∷ []) ≡ false
unfolding str_eq
ends d c [] = ground arith
ends d c (b ∷ s) = ground arith

trim_suffix_lem : (d : ℕ) (s : Str) → trim_suffix (d ∷ []) (s ++ d ∷ []) ≡ s
unfolding trim_suffix
trim_suffix_lem d [] = rw (str_eq_refl (d ∷ []))
trim_suffix_lem d (c ∷ s) = rw (ends d c s, trim_suffix_lem d s)

pub read_resp_line_lem : (s t : Str) → IsLine s → read_resp_line (s ++ (crlf ++ t)) ≡ ok (s, t)
unfolding read_resp_line trimmed
read_resp_line_lem s t h =
    let line = All-append (λ c. (c == 10) ≡ false) s (13 ∷ []) h (refl, record {}) in
    let found : read_string 10 (s ++ 13 ∷ 10 ∷ t) ≡ some ((s ++ 13 ∷ []) ++ 10 ∷ [], t) =
      ap (read_string 10) (sym (append_assoc s (13 ∷ []) (10 ∷ t)))
      ∙ read_string_lem (s ++ 13 ∷ []) t line in
    ap trimmed found
    ∙ ap (λ x. ok (trim_suffix (13 ∷ []) x, t)) (trim_suffix_lem 10 (s ++ 13 ∷ []))
    ∙ ap (λ x. ok (x, t)) (trim_suffix_lem 13 s)

digits-IsLine : (fuel n : ℕ) (rest : Str) → IsLine rest → IsLine (digits fuel n rest)
unfolding digits
digits-IsLine zero n rest h = h
digits-IsLine (suc fuel) n rest h =
    let digit : ((b'0' + n % 10) == 10) ≡ false = ground arith in
    both_branches IsLine (ltb n 10) (digit, h)
      (digits-IsLine fuel (n / 10) ((b'0' + n % 10) ∷ rest) (digit, h))

pub format_int-IsLine : (n : Int64) → IsLine (format_int n)
unfolding format_int format_nat
format_int-IsLine n =
    both_branches IsLine (ltb n int64_limit) (digits-IsLine 20 n [] (record {}))
      (refl, digits-IsLine 20 (0x10000000000000000 - n) [] (record {}))

-- A payload and the two bytes behind it.
pub read_full_lem : (s t : Str) → read_full (length s) (s ++ t) ≡ some (s, t)
unfolding read_full
read_full_lem [] t = refl
read_full_lem (c ∷ s) t = rw (read_full_lem s t)

pub take_lem : (s t : Str) → take (length s) (s ++ t) ≡ s
take_lem [] t = refl
take_lem (c ∷ s) t = ap (◌∷◌ c) (take_lem s t)
