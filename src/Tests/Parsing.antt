-- ===== src/Tests/Parsing.antt =====
-- Requests and their parts.
use greylist.Server.SocketReader.{is_eof, SocketReader, open_socket, closed, getline}
use greylist.Base.OrdMap.{insert, nat_key, find}
use greylist.Server.TripletWriter.{
  add, TripletWriter, empty, member, triplet_writer, triplet_map_writer, or_null,
}
use greylist.Base.{
  suc, less, equal, find_byte, All, ℕ, ◌≡◌, refl, true, false, List, [], ◌∷◌, some, ok, codes,
  is_some, arith, zero,
}
use greylist.Parser.{parse}
use greylist.Parser.Required.{parse-required}
use greylist.Server.SocketReader.Lines.{socket_reader, next_line}
use greylist.Server.TripletWriter.Request.{
  IsField, parse-request_text, request_text, first_field, Field,
}
use greylist.TokenList.{TokenList, add_token, size, find_token, get_token}
use greylist.TokenList

-- The sender is required, the size is not.
abbrev tokens : TokenList
unfolding add_token TokenList.empty
tokens = add_token (add_token TokenList.empty (codes "sender") true) (codes "size") false

abbrev fields : List Field
fields =
    (codes "sender", codes "me@example.org")
    ∷ (codes "queue_id", codes "1")
    ∷ (codes "sender", codes "you@example.org")
    ∷ []

abbrev socket : SocketReader
unfolding open_socket
socket = open_socket (request_text fields (codes "next")) closed

sender_given :
    (i : ℕ) → is_some (find i tokens.reqarr) ≡ true → is_some (first_field tokens i fields) ≡ true
unfolding add_token TokenList.empty find find_token equal less
sender_given zero h = refl
sender_given (suc i) h = ground (arith, h)

fields-IsField : All IsField fields
fields-IsField = (
  record { key_plain = refl; key_line = refl; value_line = refl },
  (
    record { key_plain = refl; key_line = refl; value_line = refl },
    (record { key_plain = refl; key_line = refl; value_line = refl }, tt),
  ),
)

parse-request_text_example :
    (w : TripletWriter) × (parse triplet_writer tokens false socket_reader socket empty
      ≡ some (record socket { input = codes "next" }, ok w))
    × ((i : ℕ) → member i w ≡ or_null (first_field tokens i fields))
unfolding open_socket add_token TokenList.empty find find_token equal less
parse-request_text_example =
    parse-request_text tokens socket fields (codes "next") (refl, tt) sender_given fields-IsField
      refl

-- What the parse of the request keeps.
abbrev kept : TripletWriter
kept = record { values = (0, codes "me@example.org") ∷ [] }

parse-required_example : is_some (find 0 kept.values) ≡ true
unfolding open_socket add_token TokenList.empty find find_token equal less parse find_byte empty add
    insert getline next_line is_eof
parse-required_example =
    parse-required triplet_map_writer tokens false socket_reader socket
      (record socket { input = codes "next" }) empty kept 0 (refl, tt) refl refl refl
