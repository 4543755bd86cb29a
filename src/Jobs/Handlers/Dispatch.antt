-- ===== src/Jobs/Handlers/Dispatch.antt =====
-- `Registry`: a map from kinds to handlers.
use mathlib.Core.Logic.{ite}
use nyuka.Common.{Option, none, some, txt, ◌++◌}
use nyuka.Domain.Errors.{internal, Result, err}
use nyuka.Domain.Enums.{JobKind}
use nyuka.Jobs.Names.{kind_to_str}
use nyuka.Jobs.Queue.{Job}
use nyuka.Jobs.Handlers.{History, Handler}

pub JobKind-discrete : Discrete JobKind
JobKind-discrete = hlevel

abbrev pub Registry : Type 0
Registry = JobKind → Option Handler

unfoldable pub new : JobKind → Option Handler
new kind = none

unfoldable pub register : JobKind → Handler → Registry → JobKind → Option Handler
register kind handler r asked = ite (JobKind-discrete asked kind) (some handler) (r asked)

-- `handle`
unfoldable pub dispatch : Registry → Job → History → Result (Unit {0}) × History
dispatch r job = elim (r job.kind) [
  | none ↦
      λ h. (err (internal (txt "no handler registered for job kind " ++ kind_to_str job.kind)), h)
  | some handler ↦ handler job
]
