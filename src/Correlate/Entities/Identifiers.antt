-- ===== src/Correlate/Entities/Identifiers.antt =====
-- engine/correlate/entities.py: the identifiers of an alert. What the code uses of texts and of the
-- module ipaddress is a parameter.
use log_lookup_ai.Prelude.{
  ℕ, String, Option, none, some, List, [], ◌∷◌, ◌++◌, string_eq, ◌==◌, if◌then◌else◌,
}
use log_lookup_ai.Prelude.Dict.{Dict, get, put}
use log_lookup_ai.Correlate.Alerts.{NormalizedAlert, Device, User, Process, NetworkEndpoint}
use log_lookup_ai.Correlate.Entities.{or_empty}

-- str.strip, str.lower, the replacement of dashes by colons, str of an ip_address (`none` where the
-- text is none), and the decimal digits of a number.
pub record TextOps : Type 0 where
  pub strip : String → String
  pub lower : String → String
  pub colons : String → String
  pub address : String → Option String
  pub decimal : ℕ → String

-- A value with the text to show.
abbrev pub Shown : Type 0
Shown = String × String

abbrev pub Identifiers : Type 0
Identifiers = Dict String (List Shown)

unfoldable pub norm_mac : TextOps → String → String
norm_mac ops value = ops.colons (ops.lower (ops.strip value))

unfoldable pub norm_ip : TextOps → String → Option String
norm_ip ops value = ops.address (ops.strip value)

-- The inner function put of extract_identifiers.
unfoldable pub put_identifier : String → Option String → Option String → Identifiers → Identifiers
unfolding get put
put_identifier kind none display ids = ids
put_identifier kind (some value) display ids =
    if value == ""
    then ids
    else put kind
        (or_empty (get kind ids)
          ++ (value, elim display [ none ↦ value | some d ↦ if d == "" then value else d ]) ∷ [])
        ids

-- put(kind, change(value), value), where the value is there and not empty
unfoldable pub put_changed :
    String → (String → Option String) → Option String → Identifiers → Identifiers
unfolding put_identifier
put_changed kind change none ids = ids
put_changed kind change (some value) ids =
    if value == "" then ids else put_identifier kind (change value) (some value) ids

-- put(kind, _norm_ip(value)), where the value is there and not empty
unfoldable pub put_ip : TextOps → String → Option String → Identifiers → Identifiers
unfolding put_identifier norm_ip
put_ip ops kind none ids = ids
put_ip ops kind (some value) ids =
    if value == "" then ids else put_identifier kind (norm_ip ops value) none ids

unfoldable pub put_device : TextOps → Option Device → Identifiers → Identifiers
unfolding put_identifier put_changed put_ip norm_mac
put_device ops none ids = ids
put_device ops (some d) ids =
    let with_uid = put_identifier "agent_uid" d.uid none ids in
    let with_host =
      put_changed "hostname" (λ (v : String). some (ops.lower v)) d.hostname with_uid in
    let with_mac = put_changed "mac" (λ (v : String). some (norm_mac ops v)) d.mac with_host in
    put_ip ops "device_ip" d.ip with_mac

unfoldable pub put_user : TextOps → Option User → Identifiers → Identifiers
unfolding put_changed
put_user ops none ids = ids
put_user ops (some u) ids =
    put_changed "username" (λ (v : String). some (ops.lower v)) u.name
      (put_changed "upn" (λ (v : String). some (ops.lower v)) u.email_addr ids)

unfoldable pub put_process : Option Process → Identifiers → Identifiers
unfolding put_identifier
put_process none ids = ids
put_process (some p) ids = put_identifier "process_guid" p.uid none ids

unfoldable pub put_source : TextOps → Option NetworkEndpoint → Identifiers → Identifiers
unfolding put_ip
put_source ops none ids = ids
put_source ops (some e) ids = put_ip ops "src_ip" e.ip ids

-- extract_identifiers
unfoldable pub extract_identifiers : TextOps → NormalizedAlert → Identifiers
unfolding put_device put_user put_process put_source
extract_identifiers ops a =
    put_source ops a.src_endpoint
      (put_process a.process (put_user ops a.user (put_device ops a.device [])))
