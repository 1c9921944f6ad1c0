-- ===== src/Workspace/Totality.antt =====
-- An authorized event of the log of src/boule/workspace.py is projected, unless a date overflows.
use daryxx_boule_protocol.Workspace.State.{State}
