-- ===== src/Server/TripletWriter/Request.antt =====
-- A request as Postfix writes it.
use greylist.TokenList.{copy_required, TokenList, find_token}
use greylist.Base.{
  subst, ◌==◌, refl, ℕ, ◌≡◌, true, false, List, [], ◌∷◌, ◌++◌, map, Option, none, some, Bytes,
  count_byte, length, All, arith, is_some, ok,
}
use greylist.Base.Find.{find_byte-split, take-split, drop-split, count_byte-append}
use greylist.Base.OrdMap.{find, nat_key, Unique, find_nothing}
use greylist.Parser.{parse, finish}
use greylist.Parser.Loop.{Delivers, stop, more, parse_lines, parse-Delivers}
use greylist.Parser.Fields.{
  first_value, value_if, value_in, or_else, held-parse_lines, left-parse_lines,
}
use greylist.Server.SocketReader.{SocketReader}
use greylist.Server.SocketReader.Lines.{socket_reader, getline-line, next_line}
use greylist.Server.TripletWriter.{
  TripletWriter, empty, member, or_null, triplet_writer, triplet_map_writer,
}

abbrev pub Field : Type 0
Field = Bytes × Bytes

-- A key without `=`, and no newline on either side.
pub record IsField (f : Field) : Type 0 where
  pub key_plain : count_byte b'=' f.0 ≡ 0
  pub key_line : count_byte b'\n' f.0 ≡ 0
  pub value_line : count_byte b'\n' f.1 ≡ 0

abbrev pub field_line : Field → Bytes
field_line f = f.0 ++ b'=' ∷ f.1

-- One line for each field, then an empty line.
abbrev pub request_text : List Field → Bytes → Bytes
request_text [] rest = b'\n' ∷ rest
request_text (f ∷ fields) rest = field_line f ++ b'\n' ∷ request_text fields rest

-- The value that a request gives to a position: that of the first field with its name.
abbrev pub first_field : TokenList → ℕ → List Field → Option Bytes
first_field tokens i [] = none
first_field tokens i ((key, val) ∷ fields) =
    or_else (value_if (find_token tokens key) i val) (first_field tokens i fields)

count-line : (f : Field) → IsField f → count_byte b'\n' (field_line f) ≡ 0
count-line f v = omega (arith, count_byte-append b'\n' f.0 (b'=' ∷ f.1), v.key_line, v.value_line)

length-line : (f : Field) → (length (field_line f) == 0) ≡ false
length-line ([], val) = ground arith
length-line (c ∷ key, val) = ground arith

module _ (tokens : TokenList) where
  value_in-field_line :
      (i : ℕ) (f : Field)
      → IsField f
      → value_in tokens i (field_line f) ≡ value_if (find_token tokens f.0) i f.1
  value_in-field_line i (key, val) v = ground (
    arith,
    find_byte-split b'=' key val v.key_plain,
    take-split b'=' key val,
    drop-split b'=' key val,
  )

  first_value-fields :
      (i : ℕ) (fields : List Field)
      → All IsField fields
      → first_value tokens i (map field_line fields) ≡ first_field tokens i fields
  first_value-fields i [] v = refl
  first_value-fields i (f ∷ fields) v =
      ground (arith, value_in-field_line i f v.0, first_value-fields i fields v.1)

-- The socket delivers the lines of a request, and is left behind its empty line.
Delivers-request :
    (s : SocketReader) (fields : List Field) (rest : Bytes)
    → All IsField fields
    → s.input ≡ request_text fields rest
    → Delivers socket_reader (record s { input = rest }) s (map field_line fields)
unfolding next_line
Delivers-request s [] rest v e =
    let h = getline-line s [] rest refl e in stop (ground (arith, h)) (ground (arith, h))
Delivers-request s (f ∷ fields) rest v e =
    let h = getline-line s (field_line f) (request_text fields rest) (count-line f v.0) e in
    more (ground (arith, h, length-line f)) (
      subst (λ q. Delivers socket_reader (record s { input = rest }) q (map field_line fields))
        (ground (arith, h))
        (Delivers-request (record s { input = request_text fields rest }) fields rest v.1 refl))

module _ (tokens : TokenList) where
  -- Nothing is left of the required tokens if the request names them all.
  left-request :
      (fields : List Field)
      → Unique tokens.reqarr
      → ((i : ℕ)
          → is_some (find i tokens.reqarr) ≡ true
          → is_some (first_field tokens i fields) ≡ true)
      → All IsField fields
      → (parse_lines triplet_writer tokens false (map field_line fields) (empty, tokens.reqarr)).1
        ≡ []
  left-request fields u all v = find_nothing _ λ i. ground (
    arith,
    left-parse_lines triplet_map_writer tokens false i (map field_line fields)
        (empty, tokens.reqarr) u,
    first_value-fields tokens i fields v,
    all i,
  )

  -- If the token list requires no position twice, each required position has a field among those
  -- given, and no key has a `=` or a newline and no value a newline, then parsing the request made
  -- of these fields from a socket succeeds, leaves the input behind the empty line, and each
  -- position has the value of its first field, or the empty text.
  pub parse-request_text :
      (s : SocketReader) (fields : List Field) (rest : Bytes)
      → Unique tokens.reqarr
      → ((i : ℕ)
          → is_some (find i tokens.reqarr) ≡ true
          → is_some (first_field tokens i fields) ≡ true)
      → All IsField fields
      → s.input ≡ request_text fields rest
      → (w : TripletWriter) × (parse triplet_writer tokens false socket_reader s empty
          ≡ some (record s { input = rest }, ok w))
        × ((i : ℕ) → member i w ≡ or_null (first_field tokens i fields))
  unfolding member empty copy_required finish find
  parse-request_text s fields rest u all v e =
      let q =
        parse_lines triplet_writer tokens false (map field_line fields) (empty, tokens.reqarr) in
      (
        q.0,
        ground (
          arith,
          parse-Delivers triplet_writer tokens false socket_reader s (record s { input = rest })
              (map field_line fields) empty (Delivers-request s fields rest v e),
          left-request fields u all v,
        ),
        λ i. ground (
          arith,
          held-parse_lines triplet_map_writer tokens false i (map field_line fields)
              (empty, tokens.reqarr),
          first_value-fields tokens i fields v,
        ),
      )
