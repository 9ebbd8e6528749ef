-- ===== src/Resp/Examples.antt =====
-- A nested reply with nil, a text with a newline, a negative number, and an empty array.
use live_collab.Base.{◌≤◌, ◌≡◌, refl, [], ◌∷◌, ◌++◌, arith, lit, str_eq, length}
use live_collab.Base.Result.{ok, err, redis_error, panic}
use live_collab.Base.Decimal.{format_int, parse_int, digits}
use live_collab.Reply.{Reply, nil, text, int, arr, end, item}
use live_collab.Membership.{texts}
use live_collab.Resp.{read_resp, write_resp_command}
use live_collab.Resp.RoundTrip.{print_reply, IsEncodable, count, read_resp-print_reply}

abbrev reply : Reply
reply = arr (
    item nil
      (item (text (b'a' ∷ 10 ∷ b'b' ∷ [])) (item (int 0xfffffffffffffffe) (item (arr end) end))))

reply-IsEncodable : IsEncodable reply
unfolding IsEncodable count
reply-IsEncodable = omega arith

reply_bytes : length (print_reply reply) ≤ 60
unfolding print_reply count format_int digits
reply_bytes = omega arith

read_resp-print_reply_example :
    (read_resp 60 (print_reply reply ++ lit "+OK") ≡ ok (reply, lit "+OK"))
    × (write_resp_command (lit "GET" ∷ lit "k" ∷ [])
        ≡ print_reply (arr (texts (lit "GET" ∷ lit "k" ∷ []))))
read_resp-print_reply_example =
    read_resp-print_reply reply 60 (lit "+OK") (lit "GET" ∷ lit "k" ∷ []) reply-IsEncodable
      reply_bytes

-- An error reply, and a payload of length -2.
error_reply : read_resp 1 (b'-' ∷ b'n' ∷ b'o' ∷ 13 ∷ 10 ∷ []) ≡ err (redis_error (lit "no"))
unfolding read_resp str_eq
error_reply = refl

negative_payload : read_resp 1 (b'$' ∷ b'-' ∷ b'2' ∷ 13 ∷ 10 ∷ []) ≡ err panic
unfolding read_resp parse_int str_eq
negative_payload = refl
