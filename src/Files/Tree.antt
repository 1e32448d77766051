-- ===== src/Files/Tree.antt =====
-- apps/web/src/components/files/FileTree.tsx: which folders of the tree are open, and the quick links.
use xp_panel.Shared.{
  Text, codes, Bool, not, ◌||◌, List, [], ◌∷◌, ◌++◌, map, keep, text_eq, includes, starts_with,
}
use xp_panel.Files.Listing.{FileInfo}

-- The state of a node when it is first shown.
unfoldable pub initially_open : Text → Text → Bool
initially_open current path = text_eq current path || starts_with current (path ++ codes "/")

-- A click on a node: the path that is navigated to, and the new state.
unfoldable pub click_node : Text → Bool → Text × Bool
click_node path is_open = (path, not is_open)

-- The nodes below a node, or below the root.
unfoldable pub folders : List FileInfo → List FileInfo
folders fs = keep (λ f. f.is_dir) fs

abbrev pub quick_links : List Text
quick_links =
    codes "/public_html" ∷ codes "/www" ∷ codes "/mail" ∷ codes "/logs" ∷ codes "/tmp" ∷ []

-- The quick links whose folders the root has.
unfoldable pub shown_links : List FileInfo → List Text
unfolding folders
shown_links fs = keep (includes (map (λ f. f.path) (folders fs))) quick_links
