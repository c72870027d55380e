-- ===== src/Client/Dial.antt =====
-- options.go: which address is dialled. `net.SplitHostPort`, `net.JoinHostPort` with the text of an
-- address, and the lookup are parameters.
use go_aioesphomeapi.Base.{Bool, Bytes, codes, Option, none, some, Result, ok, err, if◌then◌else◌}
use go_aioesphomeapi.Mdns.Names.{Unicode, to_lower, trim_dot}
use go_aioesphomeapi.Mdns.Responder.{has_suffix}

-- `isMDNSHost`
unfoldable pub is_mdns_host : Unicode → Bytes → Bool
unfolding has_suffix
is_mdns_host u host = has_suffix (trim_dot (to_lower u host)) (codes ".local")

-- The address that the function of `defaultDialerWith` hands to the dialer, or `ErrNameResolution` with
-- the lookup's error.
unfoldable pub dial_address {ℓ} :
    {E : Type ℓ} (u : Unicode) (split_host_port : Bytes → Option (Bytes × Bytes))
    (lookup : Bytes → Result E Bytes) (join_host_port : Bytes → Bytes → Bytes) (address : Bytes)
    → Result E Bytes
unfolding is_mdns_host
dial_address u split_host_port lookup join_host_port address = elim (split_host_port address) [
  | none ↦ ok address
  | some (host, port) ↦
      if is_mdns_host u host
      then elim (lookup host) [ err e ↦ err e | ok ip ↦ ok (join_host_port ip port) ]
      else ok address
]
