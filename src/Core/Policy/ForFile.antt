-- ===== src/Core/Policy/ForFile.antt =====
-- The per-file layer of src/core/policy.cpp: the last severity of the last matching block wins.
use mediadiff.Base.{List, ℕ}
use mediadiff.Core.Policy.{Policy}
use mediadiff.Core.Policy.Chains.{Extends}
use mediadiff.Core.Policy.Invariant.{IsResolved}
use mediadiff.Core.Policy.Precedence.{HasSeverity}
use mediadiff.Core.Registry.{CheckRegistry, Severity}
use mediadiff.Core.Tolerance.{Tolerance}

-- What a policy for a file says: a table of the registry whose chains go on from the base's, with
-- this severity at the index.
abbrev pub IsForFile : CheckRegistry → Policy → ℕ → Severity → Policy → Type 0
IsForFile registry base i s policy =
    (IsResolved registry policy × Extends base.per_check policy.per_check) × HasSeverity i s policy
