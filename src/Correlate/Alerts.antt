-- ===== src/Correlate/Alerts.antt =====
-- engine/normalize/ocsf.py: what the correlation reads of a NormalizedAlert. A missing object is
-- `none`; the fields of `unmapped` that it reads are `provider` and `connection_id` of its source.
use log_lookup_ai.Prelude.{ℕ, String, Option, List}
use log_lookup_ai.Correlate.Chains.{Tactic}

pub record Technique : Type 0 where
  pub uid : Option String
  pub name : Option String

pub record Attack : Type 0 where
  pub tactic : Option Tactic
  pub technique : Option Technique

pub record Device : Type 0 where
  pub hostname : Option String
  pub ip : Option String
  pub mac : Option String
  pub uid : Option String

pub record User : Type 0 where
  pub name : Option String
  pub uid : Option String
  pub email_addr : Option String

pub record Process : Type 0 where
  pub uid : Option String
  pub name : Option String
  pub cmd_line : Option String

pub record NetworkEndpoint : Type 0 where
  pub ip : Option String
  pub hostname : Option String

pub record NormalizedAlert : Type 0 where
  pub uid : String
  pub time : ℕ
  pub severity_id : ℕ
  pub title : String
  pub attacks : List Attack
  pub device : Option Device
  pub user : Option User
  pub process : Option Process
  pub src_endpoint : Option NetworkEndpoint
  pub dst_endpoint : Option NetworkEndpoint
  pub provider : Option String
  pub connection_id : Option String
