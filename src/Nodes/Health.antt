-- ===== src/Nodes/Health.antt =====
-- A node is healthy after as many good checks in a row as the threshold says.
use gitally.Prelude.{arith, ◌≡◌, refl, ap, ◌∙◌, String, Bool, false, ◌&&◌, List, [], ◌∷◌}
use gitally.Nodes.{NodeStatus, all_ok, is_healthy, update_status}

-- A node that was made without statuses, after its checks, the last one first.
abbrev pub checked : String → List Bool → NodeStatus
checked s [] = record { storage = s; statuses = [] }
checked s (ok ∷ older) = update_status (checked s older) ok

-- What is kept of the checks.
abbrev pub window : List Bool → List Bool
window [] = []
window (a ∷ []) = a ∷ []
window (a ∷ b ∷ []) = b ∷ a ∷ []
window (a ∷ b ∷ c ∷ older) = c ∷ b ∷ a ∷ []

abbrev pub healthy_after : List Bool → Bool
healthy_after (a ∷ b ∷ c ∷ older) = c && b && a
healthy_after _ = false

update_status-window :
    (s : String) (ok : Bool) (older : List Bool)
    → update_status (record { storage = s; statuses = window older }) ok
      ≡ record { storage = s; statuses = window (ok ∷ older) }
unfolding update_status
update_status-window s ok [] = refl
update_status-window s ok (a ∷ []) = refl
update_status-window s ok (a ∷ b ∷ []) = refl
update_status-window s ok (a ∷ b ∷ c ∷ older) = refl

checked-window :
    (s : String) (checks : List Bool)
    → checked s checks ≡ record { storage = s; statuses = window checks }
checked-window s [] = refl
checked-window s (ok ∷ older) =
    ap (λ n. update_status n ok) (checked-window s older) ∙ update_status-window s ok older

window-healthy :
    (s : String) (checks : List Bool)
    → is_healthy (record { storage = s; statuses = window checks }) ≡ healthy_after checks
unfolding is_healthy all_ok
window-healthy s [] = refl
window-healthy s (a ∷ []) = refl
window-healthy s (a ∷ b ∷ []) = refl
window-healthy s (a ∷ b ∷ c ∷ older) = ground arith

-- After any checks a node is healthy just when there were three, and the last three were good.
pub checked-healthy :
    (s : String) (checks : List Bool) → is_healthy (checked s checks) ≡ healthy_after checks
checked-healthy s checks = ap is_healthy (checked-window s checks) ∙ window-healthy s checks
