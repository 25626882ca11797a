-- ===== src/Claim/Ahead.antt =====
-- The order in which `claim_next` of task_execution.py tries its candidates, apart from the keys that sort
-- them.
use foxhound.Prelude.{List}
