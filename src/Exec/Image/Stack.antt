-- ===== src/Exec/Image/Stack.antt =====
-- The argument strings on the stack of a new program.
use csse332_final_project.Base.{
  ℕ, ◌+◌, ◌%◌, ◌≤◌, ◌≡◌, ◌⊎◌, Option, none, some, List, [], ◌∷◌, ◌++◌, length,
}
use csse332_final_project.Run.{ok}
use csse332_final_project.Memory.{Memory}
use csse332_final_project.Strings.{strlen}
use csse332_final_project.Os.{Os}
use csse332_final_project.Exec.{maxarg}
use csse332_final_project.Exec.Image.{push_args}

-- The strings stand below `sp` at the addresses `ps`, each at a multiple of 16, below the one before
-- it and not below `base`; what is left of the stack ends at `sp'`.
pub Pushed : ℕ → List (List ℕ) → ℕ → ℕ → List ℕ → Type 0
Pushed base [] sp sp' ps = (sp' ≡ sp) × (ps ≡ [])
Pushed base (s ∷ argv) sp sp' [] = ⊥
Pushed base (s ∷ argv) sp sp' (p ∷ ps) =
    (base ≤ p) × (p % 16 ≡ 0) × (p + (strlen s + 1) ≤ sp) × Pushed base argv p sp' ps

-- What the loop answers: none, or the rest of the stack and the addresses, of which `ustack` are known.
abbrev pub Answer : ℕ → List (List ℕ) → ℕ → ℕ → List ℕ → Option (ℕ × List ℕ) → Type 0
Answer base argv argc sp ustack o =
    (o ≡ none)
    ⊎ ((sp' : ℕ) × (ps : List ℕ) × (o ≡ some (sp', ustack ++ ps))
        × Pushed base argv sp sp' ps
        × (argc + length argv ≤ maxarg))

abbrev Returns : List (List ℕ) → ℕ → ℕ → ℕ → ℕ → List ℕ → Os → Type 0
Returns argv pt base argc sp ustack s =
    (o : Option (ℕ × List ℕ)) × (t : Os) × (push_args argv pt base argc sp ustack s ≡ ok o t)
    × Answer base argv argc sp ustack o
