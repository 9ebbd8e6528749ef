-- ===== src/Resp/RoundTrip.antt =====
-- readRESP of redis_client.go on the encoding of a reply, and on a command.
use live_collab.Base.{
  some, ℕ, zero, suc, ◌+◌, ◌<◌, ◌≤◌, ◌≡◌, refl, sym, ◌∙◌, ap, true, false, List, [], ◌∷◌, ◌++◌,
  append_assoc, length-append, arith, Int64, int64_limit, Str, ltb, ◌==◌, length,
}
use live_collab.Base.Result.{Result, ok, ◌>>=◌}
use live_collab.Base.Decimal.{format_int, parse_int-format_int}
use live_collab.Reply.{Reply, nil, text, int, arr, Replies, end, item}
use live_collab.Membership.{texts}
use live_collab.Resp.{
  crlf, bulk, bulks, write_resp_command, read_resp, read_value, read_payload, read_array,
  read_items, read_resp_line, read_full, payload_text,
}
use live_collab.Resp.Lines.{read_resp_line_lem, format_int-IsLine, read_full_lem, take_lem}

-- The encoding of a reply in RESP.
abbrev pub numbered : ℕ → Int64 → Str → Str
numbered prefix n s = prefix ∷ (format_int n ++ (crlf ++ s))

unfoldable pub count : Replies → ℕ
count end = 0
count (item r rs) = suc (count rs)

unfoldable mutual
  unfolding count

  pub print_reply : Reply → Str
  print_reply nil = numbered b'$' 0xffffffffffffffff []
  print_reply (text s) = numbered b'$' (length s) (s ++ crlf)
  print_reply (int n) = numbered b':' n []
  print_reply (arr rs) = numbered b'*' (count rs) (print_replies rs)

  pub print_replies : Replies → Str
  print_replies end = []
  print_replies (item r rs) = print_reply r ++ print_replies rs

-- Lengths that a Go slice can have, and int64 numbers.
unfoldable mutual
  unfolding count

  pub IsEncodable : Reply → Type 0
  IsEncodable nil = Unit {0}
  IsEncodable (text s) = length s + 2 < int64_limit
  IsEncodable (int n) = n < 0x10000000000000000
  IsEncodable (arr rs) = (count rs < int64_limit) × AreEncodable rs

  pub AreEncodable : Replies → Type 0
  AreEncodable end = Unit {0}
  AreEncodable (item r rs) = IsEncodable r × AreEncodable rs

-- The prefix and its line are read.
step_lem :
    (fuel prefix : ℕ) (n : Int64) (s rest : Str)
    → read_resp (suc fuel) (numbered prefix n s ++ rest)
      ≡ read_value (read_resp fuel) prefix (format_int n) (s ++ rest)
unfolding read_resp
step_lem fuel prefix n s rest =
    let next : Str × Str → Result (Reply × Str) = λ x. read_value (read_resp fuel) prefix x.0 x.1 in
    ap (λ x. read_resp_line x >>= next) (append_assoc (format_int n) (crlf ++ s) rest)
    ∙ ap (λ x. x >>= next) (read_resp_line_lem (format_int n) (s ++ rest) (format_int-IsLine n))

payload_lem :
    (s rest : Str)
    → length s + 2 < int64_limit
    → read_payload (length s) ((s ++ crlf) ++ rest) ≡ ok (text s, rest)
unfolding read_payload payload_text
payload_lem s rest h =
    let full : read_full (length s + 2) ((s ++ crlf) ++ rest) ≡ some (s ++ crlf, rest) =
      ap (λ n. read_full n ((s ++ crlf) ++ rest)) (sym (length-append s crlf))
      ∙ read_full_lem (s ++ crlf) rest in
    let there : (length s == 0xffffffffffffffff) ≡ false = ground arith in
    let fits : ltb (length s + 2) int64_limit ≡ true = ground arith in
    rw (there, fits, full) (ap (λ x. ok (text x, rest)) (take_lem s crlf))

-- What is to be shown of one reply, and of the values of an array.
abbrev ReadsBack : Reply → Type 0
ReadsBack r =
    (fuel : ℕ) (rest : Str)
    → IsEncodable r
    → length (print_reply r) ≤ fuel
    → read_resp fuel (print_reply r ++ rest) ≡ ok (r, rest)

abbrev AllReadBack : Replies → Type 0
AllReadBack rs =
    (fuel : ℕ) (rest : Str)
    → AreEncodable rs
    → length (print_replies rs) ≤ fuel
    → read_items (read_resp fuel) (count rs) (print_replies rs ++ rest) ≡ ok (rs, rest)

nil-ReadsBack : ReadsBack nil
unfolding print_reply read_value read_payload format_int
nil-ReadsBack zero rest h fuel = absurd (omega arith)
nil-ReadsBack (suc n) rest h fuel =
    step_lem n b'$' 0xffffffffffffffff [] rest
    ∙ rw (parse_int-format_int 0xffffffffffffffff (omega arith))

text-ReadsBack : (s : Str) → ReadsBack (text s)
unfolding print_reply read_value IsEncodable
text-ReadsBack s zero rest h fuel = absurd (omega arith)
text-ReadsBack s (suc n) rest h fuel =
    step_lem n b'$' (length s) (s ++ crlf) rest
    ∙ rw (parse_int-format_int (length s) (omega arith)) (payload_lem s rest h)

int-ReadsBack : (m : Int64) → ReadsBack (int m)
unfolding print_reply read_value IsEncodable
int-ReadsBack m zero rest h fuel = absurd (omega arith)
int-ReadsBack m (suc n) rest h fuel = step_lem n b':' m [] rest ∙ rw (parse_int-format_int m h)

arr-ReadsBack : (rs : Replies) → AllReadBack rs → ReadsBack (arr rs)
unfolding print_reply read_value read_array IsEncodable
arr-ReadsBack rs all zero rest h fuel = absurd (omega arith)
arr-ReadsBack rs all (suc n) rest (h, hs) fuel =
    let there : (count rs == 0xffffffffffffffff) ≡ false = ground arith in
    let fits : ltb (count rs) int64_limit ≡ true = ground arith in
    let short : length (print_replies rs) ≤ n =
      omega (arith, fuel, length-append (format_int (count rs)) (crlf ++ print_replies rs)) in
    step_lem n b'*' (count rs) (print_replies rs) rest
    ∙ rw (parse_int-format_int (count rs) (omega arith), there, fits, all n rest hs short)

item-AllReadBack :
    (r : Reply) (rs : Replies) → ReadsBack r → AllReadBack rs → AllReadBack (item r rs)
unfolding print_replies read_items AreEncodable count
item-AllReadBack r rs one all fuel rest (h, hs) small =
    let lengths = length-append (print_reply r) (print_replies rs) in
    ap (λ x. read_items (read_resp fuel) (suc (count rs)) x)
      (append_assoc (print_reply r) (print_replies rs) rest)
    ∙ rw (
      one fuel (print_replies rs ++ rest) h (omega (arith, lengths)),
      all fuel rest hs (omega (arith, lengths)),
    )

end-AllReadBack : AllReadBack end
unfolding read_items print_replies count
end-AllReadBack fuel rest h small = refl

mutual
  reads_back : (r : Reply) → ReadsBack r
  reads_back nil = nil-ReadsBack
  reads_back (text s) = text-ReadsBack s
  reads_back (int m) = int-ReadsBack m
  reads_back (arr rs) = arr-ReadsBack rs (all_read_back rs)

  all_read_back : (rs : Replies) → AllReadBack rs
  all_read_back end = end-AllReadBack
  all_read_back (item r rs) = item-AllReadBack r rs (reads_back r) (all_read_back rs)

count-texts : (args : List Str) → count (texts args) ≡ length args
unfolding count texts
count-texts [] = refl
count-texts (s ∷ ss) = ap suc (count-texts ss)

print_replies-texts : (args : List Str) → print_replies (texts args) ≡ bulks args
unfolding print_replies print_reply texts bulks
print_replies-texts [] = refl
print_replies-texts (s ∷ ss) = ap (◌++◌ (bulk s)) (print_replies-texts ss)

-- readRESP reads the RESP encoding of any reply back, with fuel for its bytes, and leaves what
-- follows unread; lengths are those of Go slices and numbers those of an int64. The command that
-- writeRESPCommand writes is the encoding of the array of its arguments.
pub read_resp-print_reply :
    (r : Reply) (fuel : ℕ) (rest : Str) (args : List Str)
    → IsEncodable r
    → length (print_reply r) ≤ fuel
    → (read_resp fuel (print_reply r ++ rest) ≡ ok (r, rest))
      × (write_resp_command args ≡ print_reply (arr (texts args)))
unfolding write_resp_command print_reply
read_resp-print_reply r fuel rest args h enough =
    (reads_back r fuel rest h enough, rw (count-texts args, print_replies-texts args))
