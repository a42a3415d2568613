-- ===== src/Schema/Ops.antt =====
-- The rows of db/001_schema.sql that describe program executions, commands, events and the audit.
use python_vs_go_pos_benchma.Prelude.{ℕ, Bool, true, false, Option, String, Text}
use python_vs_go_pos_benchma.Schema.Money.{PaymentStatus, Method}

-- program_executions.status
pub data ExecutionStatus : Type 0 where
  created command_sent running success failed timeout cancelled : ExecutionStatus

-- status IN ('CREATED','COMMAND_SENT','RUNNING')
abbrev pub is_busy : ExecutionStatus → Bool
is_busy ExecutionStatus.created = true
is_busy ExecutionStatus.command_sent = true
is_busy ExecutionStatus.running = true
is_busy _ = false

-- status='CREATED'
abbrev pub is_created : ExecutionStatus → Bool
is_created ExecutionStatus.created = true
is_created _ = false

-- status IN ('FAILED','TIMEOUT')
abbrev pub has_failed : ExecutionStatus → Bool
has_failed ExecutionStatus.failed = true
has_failed ExecutionStatus.timeout = true
has_failed _ = false

-- program_executions
pub record Execution : Type 0 where
  pub id : ℕ
  pub payment_id : ℕ
  pub device_id : ℕ
  pub wash_bay_id : Option ℕ
  pub status : ExecutionStatus
  pub created_at : ℕ
  pub started_at : Option ℕ
  pub completed_at : Option ℕ

-- commands.status
pub data CommandStatus : Type 0 where
  pending sent acknowledged success failed : CommandStatus

abbrev pub is_waiting : CommandStatus → Bool
is_waiting CommandStatus.pending = true
is_waiting CommandStatus.sent = true
is_waiting _ = false

-- commands
pub record Command : Type 0 where
  pub id : ℕ
  pub device_id : ℕ
  -- program_execution_id
  pub execution_id : ℕ
  pub status : CommandStatus
  pub payload : String
  pub created_at : ℕ
  pub sent_at : Option ℕ
  pub acknowledged_at : Option ℕ
  pub completed_at : Option ℕ
  pub result_code : Option Text

-- What a device may report: the result field of a request once it is known to be valid.
pub data Outcome : Type 0 where
  success failed : Outcome

-- command_results
pub record CommandResult : Type 0 where
  pub command_id : ℕ
  pub result_key : String
  pub request_hash : String
  pub status : Outcome
  pub code : Option Text
  pub message : Option Text
  pub created_at : ℕ

-- The JSON texts that the program writes to events and audit_entries, by what is put in them.
pub data Note : Type 0 where
  payment_event : PaymentStatus → Method → Option String → Note
  payment_audit : PaymentStatus → Note
  execution_event : ℕ → Outcome → Option Text → Note

-- events
pub record Event : Type 0 where
  pub device_id : ℕ
  pub payment_id : Option ℕ
  pub event_type : String
  pub payload : Note
  pub created_at : ℕ

-- audit_entries
pub record AuditEntry : Type 0 where
  pub payment_id : ℕ
  pub action : String
  pub payload : Note
  pub created_at : ℕ
