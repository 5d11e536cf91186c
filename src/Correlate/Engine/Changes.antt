-- ===== src/Correlate/Engine/Changes.antt =====
-- engine/correlate/engine.py: _what_changed, the comparison of two versions of an alert. None and an
-- object are compared as Python compares them; `None` and an empty text differ.
use log_lookup_ai.Prelude.{
  String, Bool, true, false, ◌&&◌, Option, none, some, List, [], ◌∷◌, map, string_eq, nat_eq, ◌==◌,
  if◌then◌else◌,
}
use log_lookup_ai.Correlate.Alerts.{NormalizedAlert, Attack, Device, User, Process, NetworkEndpoint}

-- The keys of `checks`.
pub data Part : Type 0 where
  severity title attack process time device user network : Part

-- Equality of values that may be None.
unfoldable pub same_option {ℓ} : {A : Type ℓ} → (A → A → Bool) → Option A → Option A → Bool
same_option test none none = true
same_option test none (some b) = false
same_option test (some a) none = false
same_option test (some a) (some b) = test a b

abbrev pub same_text : Option String → Option String → Bool
same_text a b = same_option (λ (s t : String). s == t) a b

-- The pair of an attack in `attacks`; the empty text stands for what is missing.
abbrev pub AttackKey : Type 0
AttackKey = Option String × Option String

unfoldable pub attack_key : Attack → AttackKey
attack_key x = (
  elim x.tactic [ none ↦ some "" | some t ↦ t.name ],
  elim x.technique [ none ↦ some "" | some t ↦ t.uid ],
)

abbrev pub same_key : AttackKey → AttackKey → Bool
same_key a b = same_text a.0 b.0 && same_text a.1 b.1

-- How often a key stands in a list.
unfoldable pub remove_key : AttackKey → List AttackKey → Option (List AttackKey)
unfolding same_option
remove_key k [] = none
remove_key k (x ∷ keys) =
    let rest = remove_key k keys in
    if same_key k x then some keys else (elim rest [ none ↦ none | some ys ↦ some (x ∷ ys) ])

-- Two lists whose sorted versions are equal: those with the same keys, as often in the one as in the
-- other. (The code sorts them; it raises TypeError where a name is None beside a text.)
unfoldable pub same_attacks : List AttackKey → List AttackKey → Bool
unfolding remove_key
same_attacks [] [] = true
same_attacks [] (y ∷ ys) = false
same_attacks (x ∷ xs) ys = elim (remove_key x ys) [
  | none ↦ false
  | some rest ↦ same_attacks xs rest
]

unfoldable pub same_device : Device → Device → Bool
unfolding same_option
same_device d e =
    same_text d.hostname e.hostname
    && same_text d.uid e.uid
    && same_text d.ip e.ip
    && same_text d.mac e.mac

unfoldable pub same_user : User → User → Bool
unfolding same_option
same_user u v =
    same_text u.name v.name && same_text u.uid v.uid && same_text u.email_addr v.email_addr

unfoldable pub same_process : Process → Process → Bool
unfolding same_option
same_process p q =
    same_text p.uid q.uid && same_text p.name q.name && same_text p.cmd_line q.cmd_line

unfoldable pub same_endpoint : NetworkEndpoint → NetworkEndpoint → Bool
unfolding same_option
same_endpoint p q = same_text p.ip q.ip && same_text p.hostname q.hostname

-- The comparison of one part.
unfoldable pub same_part : NormalizedAlert → NormalizedAlert → Part → Bool
unfolding same_option same_attacks attack_key same_device same_user same_process same_endpoint
same_part old new severity = old.severity_id == new.severity_id
same_part old new title = old.title == new.title
same_part old new attack = same_attacks (map attack_key old.attacks) (map attack_key new.attacks)
same_part old new process = same_option same_process old.process new.process
same_part old new time = old.time == new.time
same_part old new device = same_option same_device old.device new.device
same_part old new user = same_option same_user old.user new.user
same_part old new network =
    same_option same_endpoint old.src_endpoint new.src_endpoint
    && same_option same_endpoint old.dst_endpoint new.dst_endpoint

abbrev pub all_parts : List Part
all_parts = severity ∷ title ∷ attack ∷ process ∷ time ∷ device ∷ user ∷ network ∷ []

unfoldable pub changed_parts : NormalizedAlert → NormalizedAlert → List Part → List Part
unfolding same_part
changed_parts old new [] = []
changed_parts old new (p ∷ parts) =
    let rest = changed_parts old new parts in if same_part old new p then rest else p ∷ rest

-- _what_changed
unfoldable pub what_changed : NormalizedAlert → NormalizedAlert → List Part
unfolding changed_parts
what_changed old new = changed_parts old new all_parts

-- MEMBERSHIP_PARTS
unfoldable pub moves : Part → Bool
moves time = true
moves device = true
moves user = true
moves network = true
moves severity = false
moves title = false
moves attack = false
moves process = false
