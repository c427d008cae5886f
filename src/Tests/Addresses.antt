-- ===== src/Tests/Addresses.antt =====
-- Addresses, names, numbers and answers.
use greylist.Base.{equal, ◌≡◌, refl, true, [], ◌∷◌, some, none, codes, ok, err, Bytes, arith}
use greylist.IpAddress.{Env, IpAddress, create, get_numeric_idx, get_shortened_name, parse_numeric}
use greylist.IpAddress.Numeric.{get_numeric_idx-dotted, get_numeric_idx_refused}
use greylist.IpAddress.Short.{Shortened, get_shortened_name-Shortened}
use greylist.Utils.{show_unsigned, extract_unsigned}
use greylist.Action.{Action, log_text}
use greylist.Action.Answers.{process_lem, create_returns}
use greylist.Core.{defer, no_extra}
use greylist.Triplet.{Triplet}
use greylist.Action
use greylist.Triplet

abbrev env : Env
env = record { getnameinfo = λ a. record { failure = none; buf = codes "x" }; unset = 99 }

abbrev address : Bytes → IpAddress
unfolding create
address text = create text [] []

get_numeric_idx-dotted_example :
    get_numeric_idx env 3 (address (codes "192.0.2.17"))
    ≡ (ok 17, record (address (codes "192.0.2.17")) { numeric = 192 ∷ 0 ∷ 2 ∷ 17 ∷ [] })
unfolding create show_unsigned
get_numeric_idx-dotted_example =
    get_numeric_idx-dotted env (address (codes "192.0.2.17")) 192 0 2 17 3 refl refl
      (omega arith, (omega arith, (omega arith, (omega arith, tt))))

get_numeric_idx_refused_example :
    ((get_numeric_idx env 0 (address (codes "1.2"))).0
      ≡ err (codes "Length of parsed IP address: 1.2"))
    × ((get_numeric_idx env 1 (get_numeric_idx env 0 (address (codes "1.2"))).1).0 ≡ ok 2)
unfolding create parse_numeric extract_unsigned
get_numeric_idx_refused_example =
    get_numeric_idx_refused env (address (codes "1.2")) 0 1 refl (omega arith)

get_shortened_name-Shortened_example :
    Shortened (codes "mail.example.org") (get_shortened_name (codes "mail.example.org"))
get_shortened_name-Shortened_example = get_shortened_name-Shortened (codes "mail.example.org")

abbrev triplet : Triplet
unfolding Triplet.create
triplet = Triplet.create (codes "192.0.2.17") (codes "a@b") (codes "c@d") [] []

abbrev action : Action
action = (create_returns true (codes "defer_if_permit later") (codes "dunno") (codes "dunno") 1).0

process_lem_example :
    Action.process action defer triplet no_extra
    ≡ ok (codes "action=defer_if_permit later : (0, 0 secs)\n\n", some (log_text triplet no_extra))
unfolding Triplet.create show_unsigned equal no_extra
process_lem_example =
    process_lem true (codes "defer_if_permit later") (codes "dunno") (codes "dunno") 1 action
      (create_returns true (codes "defer_if_permit later") (codes "dunno") (codes "dunno") 1).1
      defer (codes "defer_if_permit later") triplet no_extra refl
