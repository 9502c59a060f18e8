-- ===== src/Oom/Examples.antt =====
-- Memory on small inputs.
use mathlib.Core.List.{Perm}
use py_qgis_server.Prelude.{◌≤◌, ◌<◌, ◌≡◌, ◌⊎◌, refl, List, [], ◌∷◌, ◌++◌}
use py_qgis_server.Oom.{Child, total, check_oom_status}
use py_qgis_server.Oom.Order.{Descending}
use py_qgis_server.Oom.Relief.{Needed, survivors, oom_relief}

abbrev childs : List Child
childs =
    record { pid = 1; mem = 20 } ∷ record { pid = 2; mem = 40 } ∷ record { pid = 3; mem = 35 } ∷ []

kills_two :
    check_oom_status 30 childs ≡ record { pid = 2; mem = 40 } ∷ record { pid = 3; mem = 35 } ∷ []
unfolding check_oom_status
kills_two = refl

oom_relief_example :
    Perm (check_oom_status 30 childs ++ survivors 30 childs) childs
    × Descending (check_oom_status 30 childs ++ survivors 30 childs)
    × ((total (survivors 30 childs) < 30)
        ⊎ (survivors 30 childs ≡ [])
        ⊎ (check_oom_status 30 childs ≡ []) × (total childs ≤ 30))
    × Needed 30 (check_oom_status 30 childs) (survivors 30 childs)
oom_relief_example = oom_relief 30 childs
