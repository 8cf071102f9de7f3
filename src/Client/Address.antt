-- ===== src/Client/Address.antt =====
-- libEGD-master/src/egd/client/egd_client.cpp, `GetIpFromString` and `GetAddr`.
use auroralink.Prelude.{ℕ, ◌+◌, ◌*◌, ◌/◌, ◌%◌, ◌^◌, Text, none, some, ◌==◌, if◌then◌else◌}
use auroralink.Prelude.Int.{ℤ, pos, negsuc}
use auroralink.Status.{EgdStatus, ok, err_invalid_address}
use auroralink.Client.Types.{SockAddr, Resolver}

abbrev pub inaddr_none : ℕ
inaddr_none = 0xffff_ffff

abbrev pub af_inet : ℕ
af_inet = 2

-- On a little-endian host.
unfoldable pub htons : ℕ → ℕ
htons port = port % 256 * 256 + port / 256 % 256

unfoldable pub get_ip_from_string : Resolver → Text → ℤ
get_ip_from_string r host =
    if r.inet_addr host == inaddr_none
    then (elim (r.gethostbyname host) [ none ↦ negsuc 0 | some address ↦ address ])
    else pos (r.inet_addr host)

abbrev pub zero_addr : SockAddr
zero_addr = record { sin_family = 0; sin_addr = 0; sin_port = 0 }

-- What `GetAddr` makes of the address; a negative one is refused.
unfoldable pub addr_of_ip : ℤ → ℕ → SockAddr × EgdStatus
unfolding htons
addr_of_ip (pos ip) port =
    (record { sin_family = af_inet; sin_addr = ip % 2 ^ 32; sin_port = htons port }, ok)
addr_of_ip (negsuc n) port = (zero_addr, err_invalid_address)

unfoldable pub get_addr : Resolver → Text → ℕ → SockAddr × EgdStatus
unfolding get_ip_from_string addr_of_ip
get_addr r host port = addr_of_ip (get_ip_from_string r host) port
