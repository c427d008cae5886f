-- ===== src/Triplet.antt =====
-- src/triplet.h: one mail delivery, by client, sender and recipient.
use greylist.Base.{ℕ, [], ◌++◌, is_empty, not, if◌then◌else◌, Bytes, codes, Result, ok, err}
use greylist.IpAddress.{Env, IpAddress}
use greylist.IpAddress
use greylist.Utils.{lowercase, show_unsigned}

pub record Triplet : Type 0 where
  pub sender : Bytes
  pub recipient : Bytes
  pub tripletstring : Bytes
  pub client_address : IpAddress

unfoldable pub create : Bytes → Bytes → Bytes → Bytes → Bytes → Triplet
create c s r n cn = record {
  sender = lowercase s;
  recipient = lowercase r;
  tripletstring = [];
  client_address = IpAddress.create c n cn;
}

-- A getter of the address, on the triplet that holds it.
abbrev on_address {ℓ} : {A : Type ℓ} → (IpAddress → A × IpAddress) → Triplet → A × Triplet
on_address get t =
    ((get t.client_address).0, record t { client_address = (get t.client_address).1 })

unfoldable pub get_short_client_name : Triplet → Bytes × Triplet
unfolding IpAddress.get_short_client_name
get_short_client_name = on_address IpAddress.get_short_client_name

unfoldable pub get_network : Triplet → Bytes × Triplet
unfolding IpAddress.get_network
get_network = on_address IpAddress.get_network

-- The cached text stays as it was first made.
unfoldable pub get_triplet_string : Triplet → Bytes × Triplet
get_triplet_string t =
    let text =
      codes "s="
      ++ t.sender
      ++ codes "\nr="
      ++ t.recipient
      ++ codes "\nc="
      ++ t.client_address.str
      ++ codes "\nh="
      ++ t.client_address.clientname
      ++ codes "\n" in
    if not (is_empty t.tripletstring)
    then (t.tripletstring, t)
    else (text, record t { tripletstring = text })

-- `MemberType`. A number that is none of them can be cast to it: findToken's -1 is.
pub data MemberType : Type 0 where
  client_address_member sender_member recipient_member : MemberType
  reverse_client_name_member client_name_member short_reverse_client_name_member : MemberType
  short_client_name_member triplet_string_member network_member : MemberType

unfoldable pub member_index : MemberType → ℕ
member_index client_address_member = 0
member_index sender_member = 1
member_index recipient_member = 2
member_index reverse_client_name_member = 3
member_index client_name_member = 4
member_index short_reverse_client_name_member = 5
member_index short_client_name_member = 6
member_index triplet_string_member = 7
member_index network_member = 8

-- The value of the enumeration, if the position is one.
pub data AnyMember : Type 0 where
  known : MemberType → AnyMember
  unknown : ℕ → AnyMember

module _ (env : Env) where
  unfoldable pub get_client_address_numeric_idx : ℕ → Triplet → Result ℕ × Triplet
  unfolding IpAddress.get_numeric_idx
  get_client_address_numeric_idx idx = on_address (IpAddress.get_numeric_idx env idx)

  get_known : MemberType → Triplet → Bytes × Triplet
  unfolding get_short_client_name get_network get_triplet_string
  get_known client_address_member t = (t.client_address.str, t)
  get_known sender_member t = (t.sender, t)
  get_known recipient_member t = (t.recipient, t)
  get_known reverse_client_name_member t = on_address (IpAddress.get_reverse_name env) t
  get_known client_name_member t = (t.client_address.clientname, t)
  get_known short_reverse_client_name_member t = on_address (IpAddress.get_short_reverse_name env) t
  get_known short_client_name_member t = get_short_client_name t
  get_known triplet_string_member t = get_triplet_string t
  get_known network_member t = get_network t

  unfoldable pub get_member : AnyMember → Triplet → Result Bytes × Triplet
  unfolding get_known
  get_member (known m) t = (ok (get_known m t).0, (get_known m t).1)
  get_member (unknown n) t = (err (codes "unknown triplet member index: " ++ show_unsigned n), t)
