-- ===== src/Protocol.antt =====
-- The messages of the telemetry_edge protocol, with the fields that the code reads. They stand for
-- generated code that is not part of the repository.
use salus_telemetry_envoy.Common.{
  Key, nat_eq, string_eq, texts_eq, List, String, Bool, true, false, nat_beq, arith, ◌≡◌, ◌↔◌, ℕ,
}
use salus_telemetry_envoy.Common.Assoc.{Assoc}

pub data AgentType : Type 0 where
  telegraf filebeat packages oracle : AgentType
  unrecognized : ℕ → AgentType

abbrev pub agent_beq : AgentType → AgentType → Bool
agent_beq telegraf telegraf = true
agent_beq filebeat filebeat = true
agent_beq packages packages = true
agent_beq oracle oracle = true
agent_beq (unrecognized a) (unrecognized b) = nat_beq a b
agent_beq _ _ = false

pub agent_beq_iff : (a b : AgentType) → (agent_beq a b ≡ true) ↔ (a ≡ b)
agent_beq_iff a b = ground arith

instance abbrev pub agent_eq : Key AgentType
agent_eq = record { same = agent_beq; same_iff = agent_beq_iff }

pub data OpType : Type 0 where
  create modify remove : OpType
  unknown_op : ℕ → OpType

-- An int64 is its bit pattern, a number below 2 ^ 64.
pub record ConfigurationOp : Type 0 where
  pub id : String
  pub op_type : OpType
  pub content : String
  pub extra_labels : Assoc String String
  pub interval : ℕ

pub record EnvoyInstructionConfigure : Type 0 where
  pub agent_type : AgentType
  pub operations : List ConfigurationOp

pub record EnvoyInstructionInstall : Type 0 where
  pub agent_type : AgentType
  pub version : String
  pub url : String
  pub exe : String

pub record EnvoyInstructionTestMonitor : Type 0 where
  pub agent_type : AgentType
  pub correlation_id : String
  pub content : String
  pub timeout : ℕ

-- The message's oneof; `nil_details` is a message with none of its alternatives set.
pub data EnvoyInstruction : Type 0 where
  ready refresh nil_details : EnvoyInstruction
  install : EnvoyInstructionInstall → EnvoyInstruction
  configure : EnvoyInstructionConfigure → EnvoyInstruction
  test_monitor : EnvoyInstructionTestMonitor → EnvoyInstruction

-- A float64 is of a type that the program only stores and passes on.
pub record NameTagValueMetric {ℓ} (Float : Type ℓ) : Type ℓ where
  pub name : String
  pub timestamp : ℕ
  pub tags : Assoc String String
  pub fvalues : Assoc String Float
  pub svalues : Assoc String String

pub record TestMonitorResults {ℓ} (Float : Type ℓ) : Type ℓ where
  pub correlation_id : String
  pub errors : List String
  pub metrics : List (NameTagValueMetric Float)
