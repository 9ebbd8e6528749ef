-- ===== src/Resp.antt =====
-- writeRESPCommand and readRESP of redis_client.go: the bytes of a command and of a reply. The input
-- is what the connection delivers before it ends. Allocation of a payload of any length succeeds.
pub mod Lines
pub mod RoundTrip
pub mod Examples
use live_collab.Base.{
  ℕ, zero, suc, ◌+◌, ◌-◌, List, [], ◌∷◌, ◌++◌, Bool, true, false, Option, none, some, Int64,
  int64_limit, Str, lit, ltb, ◌==◌, length, take, trim_suffix, if◌then◌else◌,
}
use live_collab.Base.Result.{Result, ok, err, Error, redis_error, unexpected_reply, panic, ◌>>=◌}
use live_collab.Base.Decimal.{format_int, parse_int}
use live_collab.Reply.{Reply, nil, text, int, arr, Replies, end, item}

abbrev pub crlf : Str
crlf = 13 ∷ 10 ∷ []

-- "$%d\r\n%s\r\n"
abbrev pub bulk : Str → Str
bulk s = b'$' ∷ (format_int (length s) ++ (crlf ++ (s ++ crlf)))

unfoldable pub bulks : List Str → Str
bulks [] = []
bulks (s ∷ ss) = bulk s ++ bulks ss

-- writeRESPCommand.
unfoldable pub write_resp_command : List Str → Str
unfolding bulks
write_resp_command args = b'*' ∷ (format_int (length args) ++ (crlf ++ bulks args))

abbrev pub in_front : ℕ → Option (Str × Str) → Option (Str × Str)
in_front c none = none
in_front c (some (read, rest)) = some (c ∷ read, rest)

-- Reader.ReadString: up to the delimiter and with it, if it comes.
unfoldable pub read_string : ℕ → Str → Option (Str × Str)
read_string delim [] = none
read_string delim (c ∷ s) =
    let found = in_front c (read_string delim s) in if c == delim then some (c ∷ [], s) else found

-- io.ReadFull.
unfoldable pub read_full : ℕ → Str → Option (Str × Str)
read_full zero s = some ([], s)
read_full (suc n) [] = none
read_full (suc n) (c ∷ s) = in_front c (read_full n s)

abbrev pub eof : Error
eof = redis_error (lit "EOF")

unfoldable pub trimmed : Option (Str × Str) → Result (Str × Str)
unfolding trim_suffix
trimmed none = err eof
trimmed (some (line, rest)) = ok (trim_suffix (13 ∷ []) (trim_suffix (10 ∷ []) line), rest)

-- readRESPLine.
unfoldable pub read_resp_line : Str → Result (Str × Str)
unfolding read_string trimmed
read_resp_line s = trimmed (read_string 10 s)

unfoldable pub payload_text : Int64 → Option (Str × Str) → Result (Reply × Str)
payload_text size none = err eof
payload_text size (some (payload, rest)) = ok (text (take size payload), rest)

-- The case '$' behind its line. A slice of a negative length is a panic.
unfoldable pub read_payload : Int64 → Str → Result (Reply × Str)
unfolding read_full payload_text
read_payload size s =
    if size == 0xffffffffffffffff
    then ok (nil, s)
    else if ltb (size + 2) int64_limit
    then payload_text size (read_full (size + 2) s)
    else err panic

-- The loop over the values of an array, with the reader of one value.
unfoldable pub read_items : (Str → Result (Reply × Str)) → ℕ → Str → Result (Replies × Str)
read_items read zero s = ok (end, s)
read_items read (suc count) s = read s >>= λ (value, s').
    read_items read count s' >>= λ (values, s''). ok (item value values, s'')

-- The case '*' behind its line. A capacity that is negative is a panic.
unfoldable pub read_array : (Str → Result (Reply × Str)) → Int64 → Str → Result (Reply × Str)
unfolding read_items
read_array read count s =
    if count == 0xffffffffffffffff
    then ok (nil, s)
    else if ltb count int64_limit
    then (read_items read count s >>= λ (values, s'). ok (arr values, s'))
    else err panic

-- The switch over the prefix.
unfoldable pub read_value :
    (Str → Result (Reply × Str)) → (prefix : ℕ) (line rest : Str) → Result (Reply × Str)
unfolding read_payload read_array
read_value read prefix line rest =
    if prefix == b'+'
    then ok (text line, rest)
    else if prefix == b'-'
    then err (redis_error line)
    else if prefix == b':'
    then (parse_int line >>= λ n. ok (int n, rest))
    else if prefix == b'$'
    then (parse_int line >>= λ n. read_payload n rest)
    else if prefix == b'*'
    then (parse_int line >>= λ n. read_array read n rest)
    else err unexpected_reply

-- readRESP, with fuel for the nesting of arrays.
unfoldable pub read_resp : ℕ → Str → Result (Reply × Str)
unfolding read_resp_line read_value
read_resp zero s = err unexpected_reply
read_resp (suc fuel) [] = err eof
read_resp (suc fuel) (prefix ∷ s) =
    read_resp_line s >>= λ (line, rest). read_value (read_resp fuel) prefix line rest
