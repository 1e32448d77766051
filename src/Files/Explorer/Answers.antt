-- ===== src/Files/Explorer/Answers.antt =====
-- FileExplorer.tsx: the mutations, and what their answers do.
use xp_panel.Shared.{Text, codes, Bool, true, false, List, [], ◌∷◌, ◌++◌, if◌then◌else◌}
use xp_panel.Files.Explorer.{
  Explorer, Request, refreshes_tree, shows, shows_error, Outcome, refresh,
}

-- `onSuccess` and `onError` of a mutation: whether the tree is refreshed too, and the two messages.
unfoldable pub answered : Bool → Text → Text → Bool → Explorer → List Request
answered in_tree good bad true s =
    refresh s ++ (if in_tree then refreshes_tree ∷ [] else []) ++ shows good ∷ []
answered in_tree good bad false s = shows_error bad ∷ []

unfoldable pub delete_answer : Bool → Explorer → Outcome
unfolding answered
delete_answer ok s = (
  if ok then record s { selected = [] } else s,
  answered true (codes "Deleted") (codes "Delete failed") ok s,
)

unfoldable pub mkdir_answer : Bool → Explorer → Outcome
unfolding answered
mkdir_answer ok s =
    (s, answered true (codes "Folder created") (codes "Failed to create folder") ok s)

unfoldable pub new_file_answer : Bool → Explorer → Outcome
unfolding answered
new_file_answer ok s =
    (s, answered false (codes "File created") (codes "Failed to create file") ok s)

unfoldable pub rename_answer : Bool → Explorer → Outcome
unfolding answered
rename_answer ok s = (s, answered true (codes "Renamed") (codes "Rename failed") ok s)

unfoldable pub move_answer : Bool → Explorer → Outcome
unfolding answered
move_answer ok s = (s, answered true (codes "Moved") (codes "Move failed") ok s)

unfoldable pub copy_answer : Bool → Explorer → Outcome
unfolding answered
copy_answer ok s = (s, answered false (codes "Copied") (codes "Copy failed") ok s)

-- The delete mutation: the paths one after another until one fails; `fails` says which do.
unfoldable pub delete_all : (Text → Bool) → List Text → List Text × Bool
delete_all fails [] = ([], true)
delete_all fails (p ∷ ps) =
    let rest = delete_all fails ps in if fails p then ([], false) else (p ∷ rest.0, rest.1)
