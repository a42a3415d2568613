-- ===== src/Commands/Moves.antt =====
-- The life of a command: which changes of a command one request may make.
use python_vs_go_pos_benchma.Prelude.{◌≡◌, refl, Bool, true, false}
use python_vs_go_pos_benchma.Schema.Ops.{Command, CommandStatus}

-- The changes of a status that one request may make: PENDING to SENT, both to ACKNOWLEDGED, that to
-- SUCCESS or FAILED, and none back or out of those two.
abbrev pub Move : CommandStatus → CommandStatus → Type 0
Move CommandStatus.pending CommandStatus.pending = Unit
Move CommandStatus.pending CommandStatus.sent = Unit
Move CommandStatus.pending CommandStatus.acknowledged = Unit
Move CommandStatus.sent CommandStatus.sent = Unit
Move CommandStatus.sent CommandStatus.acknowledged = Unit
Move CommandStatus.acknowledged CommandStatus.acknowledged = Unit
Move CommandStatus.acknowledged CommandStatus.success = Unit
Move CommandStatus.acknowledged CommandStatus.failed = Unit
Move CommandStatus.success CommandStatus.success = Unit
Move CommandStatus.failed CommandStatus.failed = Unit
Move _ _ = ⊥

pub Move-refl : (s : CommandStatus) → Move s s
Move-refl CommandStatus.pending = tt
Move-refl CommandStatus.sent = tt
Move-refl CommandStatus.acknowledged = tt
Move-refl CommandStatus.success = tt
Move-refl CommandStatus.failed = tt

-- What a command is for never changes.
pub record SameOrder (c c' : Command) : Type 0 where
  pub id : c'.id ≡ c.id
  pub device_id : c'.device_id ≡ c.device_id
  pub execution_id : c'.execution_id ≡ c.execution_id
  pub created_at : c'.created_at ≡ c.created_at

pub SameOrder-refl : (c : Command) → SameOrder c c
SameOrder-refl c = record { id = refl; device_id = refl; execution_id = refl; created_at = refl }

abbrev pub is_terminal : CommandStatus → Bool
is_terminal CommandStatus.success = true
is_terminal CommandStatus.failed = true
is_terminal _ = false

-- One request makes a legal change to a command, or none, and none at all to one that has ended.
pub record Steps (c c' : Command) : Type 0 where
  pub order : SameOrder c c'
  pub move : Move c.status c'.status
  pub ended : is_terminal c.status ≡ true → c' ≡ c

pub Steps-refl : (c : Command) → Steps c c
Steps-refl c = record { order = SameOrder-refl c; move = Move-refl c.status; ended = λ h. refl }
