-- ===== src/Tests/Paths.antt =====
-- The path //ab/c///
use csse332_final_project.Base.{◌≡◌, ◌+◌, some, [], ◌∷◌, length, arith}
use csse332_final_project.Dirs.Paths.{elements, path_of, cut_names, elements-path_of}

elements-path_of_example :
    elements
      (length (path_of 2 ((97 ∷ 98 ∷ [], 0) ∷ (99 ∷ [], 3) ∷ [])) + 1)
      (path_of 2 ((97 ∷ 98 ∷ [], 0) ∷ (99 ∷ [], 3) ∷ []))
    ≡ some (cut_names ((97 ∷ 98 ∷ [], 0) ∷ (99 ∷ [], 3) ∷ []))
elements-path_of_example =
    elements-path_of 2 ((97 ∷ 98 ∷ [], 0) ∷ (99 ∷ [], 3) ∷ [])
      ((omega arith, (omega arith, (omega arith, tt))), ((omega arith, (omega arith, tt)), tt))
