-- ===== src/Nettests/Geoip.antt =====
-- `Runnable::geoip_lookup` of nettests/runnable.cpp. The lookups of the address over the network and
-- in the databases are parameters.
use libight.Prelude.{Bool, not, ◌&&◌, List, [], ◌∷◌, ◌++◌, Option, none, some, if◌then◌else◌}
use libight.Prelude.Bytes.{Bytes, codes, beq}

-- The settings that are read; a text is `none` where the setting is not there.
pub record Settings : Type 0 where
  pub save_real_probe_ip : Bool
  pub save_real_probe_asn : Bool
  pub save_real_probe_cc : Bool
  pub save_real_probe_network_name : Bool
  pub no_geoip : Bool
  pub probe_ip : Option Bytes
  pub probe_cc : Option Bytes
  pub probe_asn : Option Bytes
  pub probe_network_name : Option Bytes

-- What is looked up; `none` where it fails.
pub record Lookups : Type 0 where
  pub ip : Option Bytes
  pub cc : Bytes → Option Bytes
  pub asn : Bytes → Option Bytes
  pub org : Bytes → Option Bytes

-- What a lookup leaves: the value and the annotations of its failure.
pub record Found : Type 0 where
  pub value : Bytes
  pub annotations : List Bytes

pub record Location : Type 0 where
  pub probe_ip : Bytes
  pub probe_cc : Bytes
  pub probe_asn : Bytes
  pub probe_network_name : Bytes
  -- the keys that are annotated with "true"
  pub annotations : List Bytes
  -- the values of the event "status.geoip_lookup"
  pub event : Option (Bytes × Bytes × Bytes × Bytes)
  -- the option "real_probe_ip_"
  pub real_probe_ip : Bytes

abbrev pub default_probe_ip : Bytes
default_probe_ip = codes "127.0.0.1"

abbrev pub default_probe_asn : Bytes
default_probe_asn = codes "AS0"

abbrev pub default_probe_cc : Bytes
default_probe_cc = codes "ZZ"

abbrev pub default_probe_network_name : Bytes
default_probe_network_name = []

-- `options.get`
abbrev pub get_or : Option Bytes → Bytes → Bytes
get_or none d = d
get_or (some v) d = v

looked_up : Bytes → Bytes → Option Bytes → Found
looked_up key default none = record { value = default; annotations = key ∷ [] }
looked_up key default (some v) = record { value = v; annotations = [] }

-- A value is looked up if the setting gives just the default and lookups are not turned off.
unfoldable pub resolve : Bytes → Bytes → Bool → Option Bytes → Option Bytes → Found
unfolding looked_up
resolve key default no_geoip setting lookup =
    if beq (get_or setting default) default && not no_geoip
    then looked_up key default lookup
    else record { value = get_or setting default; annotations = [] }

unfoldable pub geoip_lookup : Settings → Lookups → Location
geoip_lookup o l =
    let ip = resolve (codes "failure_ip_lookup") default_probe_ip o.no_geoip o.probe_ip l.ip in
    let cc =
      resolve (codes "failure_cc_lookup") default_probe_cc o.no_geoip o.probe_cc (l.cc ip.value) in
    let asn =
      resolve (codes "failure_asn_lookup") default_probe_asn o.no_geoip o.probe_asn
        (l.asn ip.value) in
    let org =
      resolve (codes "failure_network_name_lookup") default_probe_network_name o.no_geoip
        o.probe_network_name (l.org ip.value) in
    record {
      probe_ip = if o.save_real_probe_ip then ip.value else default_probe_ip;
      probe_cc = if o.save_real_probe_cc then cc.value else default_probe_cc;
      probe_asn = if o.save_real_probe_asn then asn.value else default_probe_asn;
      probe_network_name =
          if o.save_real_probe_network_name then org.value else default_probe_network_name;
      annotations = ip.annotations ++ (cc.annotations ++ (asn.annotations ++ org.annotations));
      event = if o.no_geoip then none else some (asn.value, cc.value, ip.value, org.value);
      real_probe_ip = ip.value;
    }
