-- ===== src/Dirs/Paths.antt =====
-- The walk along a path by skipelem, as namex takes it.
use csse332_final_project.Base.{
  ℕ, zero, suc, ◌+◌, ◌<◌, ◌≤◌, ◌≡◌, ◌≢◌, refl, inl, inr, Bool-cases, Option, none, some, List, [],
  ◌∷◌, ◌++◌, All, length, length-append, take, ◌==◌, arith, ne→==,
}
use csse332_final_project.Dirs.{slash, dirsiz, skip_slashes, element, after_element, skipelem}

-- The elements that namex meets in `f` rounds of its loop, if the path ends within them.
pub elements : ℕ → List ℕ → Option (List (List ℕ))
unfolding skipelem
elements zero path = none
elements (suc f) path = elim (skipelem path) [
  | none ↦ some []
  | some (elem, rest) ↦ elim (elements f rest) [ none ↦ none | some names ↦ some (elem ∷ names) ]
]

pub slashes : ℕ → List ℕ
slashes zero = []
slashes (suc n) = slash ∷ slashes n

-- A path: slashes, and names with the number of slashes behind each, beyond the one that parts it
-- from the next.
pub path_of : ℕ → List (List ℕ × ℕ) → List ℕ
path_of lead [] = slashes lead
path_of lead ((name, k) ∷ []) = slashes lead ++ (name ++ slashes k)
path_of lead ((name, k) ∷ next ∷ more) = slashes lead ++ (name ++ path_of (suc k) (next ∷ more))

-- A name has a byte and no slash.
abbrev pub IsName : List ℕ → Type 0
IsName name = (0 < length name) × All (λ c. c ≢ slash) name

pub cut_names : List (List ℕ × ℕ) → List (List ℕ)
cut_names [] = []
cut_names ((name, k) ∷ more) = take dirsiz name ∷ cut_names more

-- What may stand behind a name.
abbrev Ends : List ℕ → Type 0
Ends [] = Unit {0}
Ends (c ∷ cs) = c ≡ slash

skip-slashes : (n : ℕ) (xs : List ℕ) → skip_slashes (slashes n ++ xs) ≡ skip_slashes xs
unfolding skip_slashes slashes
skip-slashes zero xs = refl
skip-slashes (suc n) xs = skip-slashes n xs

skip-only : (n : ℕ) → skip_slashes (slashes n) ≡ []
unfolding skip_slashes slashes
skip-only zero = refl
skip-only (suc n) = skip-only n

element-name : (name r : List ℕ) → All (λ c. c ≢ slash) name → Ends r → element (name ++ r) ≡ name
unfolding element
element-name [] [] a e = refl
element-name [] (c ∷ cs) a e = rw e refl
element-name (c ∷ cs) r (ne, a) e = rw (ne→== c slash ne, element-name cs r a e) refl

after-name : (name r : List ℕ) → All (λ c. c ≢ slash) name → Ends r → after_element (name ++ r) ≡ r
unfolding after_element
after-name [] [] a e = refl
after-name [] (c ∷ cs) a e = rw e refl
after-name (c ∷ cs) r (ne, a) e = rw (ne→== c slash ne) (after-name cs r a e)

skipelem-name :
    (lead : ℕ) (name r : List ℕ)
    → IsName name
    → Ends r
    → skipelem (slashes lead ++ (name ++ r)) ≡ some (take dirsiz name, skip_slashes r)
unfolding skipelem
skipelem-name lead [] r (few, a) e = absurd (omega arith)
skipelem-name lead (c ∷ cs) r (few, a) e =
    rw (skipelem, skip-slashes lead ((c ∷ cs) ++ r), skip_slashes, ne→== c slash a.0)
      (rw (element-name (c ∷ cs) r a e, after-name (c ∷ cs) r a e) refl)

Ends-path : (k : ℕ) (more : List (List ℕ × ℕ)) → Ends (path_of (suc k) more)
unfolding path_of slashes
Ends-path k [] = refl
Ends-path k ((name, j) ∷ []) = refl
Ends-path k ((name, j) ∷ next ∷ more) = refl

Ends-slashes : (k : ℕ) → Ends (slashes k)
unfolding slashes
Ends-slashes zero = tt
Ends-slashes (suc k) = refl

skip-twice : (path : List ℕ) → skip_slashes (skip_slashes path) ≡ skip_slashes path
unfolding skip_slashes
skip-twice [] = refl
skip-twice (c ∷ cs) = elim (Bool-cases (c == slash)) [
  | inl e ↦ rw e (skip-twice cs)
  | inr e ↦ rw (e, e) refl
]

elements-skip : (f : ℕ) (path : List ℕ) → elements f (skip_slashes path) ≡ elements f path
unfolding elements skipelem
elements-skip zero path = refl
elements-skip (suc f) path = rw (elements, skipelem, skip-twice path) refl

elements-next :
    (f lead : ℕ) (name r : List ℕ) (names : List (List ℕ))
    → IsName name
    → Ends r
    → elements f r ≡ some names
    → elements (suc f) (slashes lead ++ (name ++ r)) ≡ some (take dirsiz name ∷ names)
unfolding elements
elements-next f lead name r names is ends e =
    rw (elements, skipelem-name lead name r is ends, elements-skip f r, e) refl

elements-slashes : (f k : ℕ) → elements (suc f) (slashes k) ≡ some []
unfolding elements skipelem
elements-slashes f k = rw (elements, skipelem, skip-only k) refl

elements-rounds :
    (f lead : ℕ) (names : List (List ℕ × ℕ))
    → All (λ e. IsName e.0) names
    → length names < f
    → elements f (path_of lead names) ≡ some (cut_names names)
unfolding path_of cut_names
elements-rounds zero lead names is lt = absurd (omega arith)
elements-rounds (suc f) lead [] is lt = elements-slashes f lead
elements-rounds (suc zero) lead ((name, k) ∷ more) is lt = absurd (omega arith)
elements-rounds (suc (suc f)) lead ((name, k) ∷ []) is lt =
    elements-next (suc f) lead name (slashes k) [] is.0 (Ends-slashes k) (elements-slashes f k)
elements-rounds (suc (suc f)) lead ((name, k) ∷ next ∷ more) is lt =
    elements-next (suc f) lead name (path_of (suc k) (next ∷ more)) (cut_names (next ∷ more)) is.0
      (Ends-path k (next ∷ more)) (elements-rounds (suc f) (suc k) (next ∷ more) is.1 (omega arith))

length-path :
    (lead : ℕ) (names : List (List ℕ × ℕ))
    → All (λ e. IsName e.0) names
    → length names ≤ length (path_of lead names)
unfolding path_of
length-path lead [] is = omega arith
length-path lead ((name, k) ∷ []) is =
    let few = is.0.0 in
    rw (length-append (slashes lead) (name ++ slashes k), length-append name (slashes k))
      (omega arith)
length-path lead ((name, k) ∷ next ∷ more) is =
    let few = is.0.0 in
    let rest = path_of (suc k) (next ∷ more) in
    let shorter = length-path (suc k) (next ∷ more) is.1 in
    rw (length-append (slashes lead) (name ++ rest), length-append name rest) (omega arith)

-- The walk by skipelem, in as many rounds as namex has for the path, gives back the names that the
-- path was made of, in their order and each cut to DIRSIZ bytes, whatever number of slashes stands
-- before, between and behind them: the names are not empty and have no slash.
pub elements-path_of :
    (lead : ℕ) (names : List (List ℕ × ℕ))
    → All (λ e. IsName e.0) names
    → elements (length (path_of lead names) + 1) (path_of lead names) ≡ some (cut_names names)
elements-path_of lead names is =
    elements-rounds _ lead names is (omega (arith, length-path lead names is))
