-- ===== src/IpAddress/Caches.antt =====
-- The caches of the getters.
use greylist.Base.{◌≡◌, arith}
use greylist.IpAddress.{IpAddress, get_short_client_name}

-- Asking twice gives the same name, and changes nothing more.
pub get_short_client_name_twice :
    (ip : IpAddress) → get_short_client_name (get_short_client_name ip).1 ≡ get_short_client_name ip
unfolding get_short_client_name
get_short_client_name_twice ip = ground arith
