-- ===== src/Fs/Names.antt =====
-- The path names of kernel/fs.c. A path is the list of its bytes before the NUL.
pub mod Paths
use mini_os_design.Common.{
  ℕ, zero, suc, ◌==◌, if◌then◌else◌, Option, none, some, List, [], ◌∷◌, take,
}

-- '/'
abbrev pub slash : ℕ
slash = 47

abbrev pub dirsiz : ℕ
dirsiz = 14

-- while(*path == '/') path++;
unfoldable pub skip_slashes : List ℕ → List ℕ
skip_slashes [] = []
skip_slashes (c ∷ cs) = let later = skip_slashes cs in if c == slash then later else c ∷ cs

-- The loop to the end of an element: the element, and what follows it.
unfoldable pub element : List ℕ → List ℕ × List ℕ
element [] = ([], [])
element (c ∷ cs) =
    let later = element cs in if c == slash then ([], c ∷ cs) else (c ∷ later.0, later.1)

-- The name of an element, of at most DIRSIZ bytes, and the path after it.
unfoldable pub skipelem : List ℕ → Option (List ℕ × List ℕ)
unfolding skip_slashes element
skipelem path = elim (skip_slashes path) [
  | [] ↦ none
  | c ∷ cs ↦ some (take dirsiz (element (c ∷ cs)).0, skip_slashes (element (c ∷ cs)).1)
]

-- The names that the loop of namex meets, with at most `fuel` turns.
unfoldable pub path_names : ℕ → List ℕ → List (List ℕ)
unfolding skipelem
path_names zero path = []
path_names (suc fuel) path = elim (skipelem path) [ none ↦ [] | some r ↦ r.0 ∷ path_names fuel r.1 ]
