-- ===== src/Notifiable/Message.antt =====
-- The texts of NotifiableClient.cpp: `create_request_message` and the three parsers. A parser that
-- returns false is `none`; what it has put into its arguments by then is not read by its callers.
use tcp_udp.Base.{
  ◌+◌, ◌-◌, ◌≡◌, refl, Bool, true, false, ◌||◌, not, Option, none, some, ◌∷◌, ◌++◌, ltb,
  if◌then◌else◌, bytes_eq, length,
}
use tcp_udp.Base.Int.{ℤ, pos}
use tcp_udp.Std.Text.{Bytes, codes, find, find_from, substr, substr_from, size_sub}
use tcp_udp.Std.Decimal.{int_to_string, stoi, Parsed, parsed, invalid_argument, out_of_range}

pub record Request : Type 0 where
  pub client_id : Bytes
  pub sequence_number : ℤ
  pub message : Bytes

infixl 5 ◌>>=◌
abbrev ◌>>=◌ : {A B : Type 0} → Option A → (A → Option B) → Option B
none >>= f = none
some a >>= f = f a

abbrev guard : Bool → Option (Unit {0})
guard true = some tt
guard false = none

infixl 5 ◌>>◌
abbrev ◌>>◌ : {B : Type 0} → Option (Unit {0}) → Option B → Option B
m >> n = m >>= λ _. n

-- `std::stoi`, with either exception caught.
abbrev caught : Parsed → Option ℤ
caught (parsed z) = some z
caught invalid_argument = none
caught out_of_range = none

unfoldable pub create_request_message : Bytes → ℤ → Bytes → Bytes
create_request_message client_id sequence_number message =
    codes "request:" ++ (client_id ++ b':' ∷ (int_to_string sequence_number ++ b':' ∷ message))

-- Each search begins behind the last find, so the differences do not wrap.
unfoldable pub parse_inner_content : Bytes → Option Request
parse_inner_content inner_content = do
  pos1 ← find b':' inner_content
  guard (bytes_eq (substr inner_content 0 pos1) (codes "request"))
  pos2 ← find_from b':' inner_content (pos1 + 1)
  pos3 ← find_from b':' inner_content (pos2 + 1)
  sequence_number ← caught (stoi (substr inner_content (pos2 + 1) (pos3 - pos2 - 1)))
  some (record {
    client_id = substr inner_content (pos1 + 1) (pos2 - pos1 - 1);
    sequence_number = sequence_number;
    message = substr_from inner_content (pos3 + 1);
  })

unfoldable pub parse_echo_response : Bytes → Option Request
unfolding parse_inner_content
parse_echo_response response =
    if ltb (length response) 6 || not (bytes_eq (substr response 0 6) (codes "echo ["))
    then none
    else parse_inner_content (substr response 6 (size_sub (length response) 7))

unfoldable pub parse_notification : Bytes → Option Request
unfolding parse_inner_content
parse_notification notification =
    if ltb (length notification) 8 || not (bytes_eq (substr notification 0 8) (codes "notify ["))
    then none
    else parse_inner_content (substr notification 8 (size_sub (length notification) 9))

request_test :
    create_request_message (codes "c1") (pos 7) (codes "hi: 1") ≡ codes "request:c1:7:hi: 1"
unfolding create_request_message int_to_string
request_test = refl

notification_test :
    parse_notification (codes "notify [request:c1:7:hi: 1]")
    ≡ some (record { client_id = codes "c1"; sequence_number = pos 7; message = codes "hi: 1" })
unfolding parse_notification bytes_eq find stoi
notification_test = refl
