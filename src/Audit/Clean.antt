-- ===== src/Audit/Clean.antt =====
-- src/pyconduit/audit.py: `_clean`.
use pyconduit.Base.{String, if◌then◌else◌}
use Prim.Native.Char.{code}
use Prim.Native.String.{[], ◌∷◌}
use pyconduit.Session.Commands.{ltb}

unfoldable pub clean : String → String
clean [] = []
clean (c ∷ s) = (if ltb (code c) 32 then " " else c) ∷ clean s
