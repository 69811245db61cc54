-- ===== src/Session/Namespace/Tests.antt =====
-- Instances of the theorems on names.
use littleorgans.Base.{ℕ, List, [], ◌∷◌, ◌&&◌, not}
use littleorgans.Base.Text.{same_text}
use littleorgans.Session.Namespace.{for_create, default_namespace}
use littleorgans.Session.Namespace.Names.{is_name, Decides, for_create-Decides}

-- `sm-a`
abbrev reserved : List ℕ
reserved = 115 ∷ 109 ∷ 45 ∷ 97 ∷ []

for_create-Decides_example :
    Decides
      (is_name default_namespace && not (same_text default_namespace default_namespace))
      default_namespace
      (for_create default_namespace)
for_create-Decides_example = for_create-Decides default_namespace
