-- ===== src/Files/Archive/Laws.antt =====
-- CompressDialog.tsx: where the archive goes.
use mathlib.Core.List.{append_assoc}
use xp_panel.Shared.{refl, ap, ◌≡◌, Text, true, false, List, [], ◌∷◌, ◌++◌, trim}
use xp_panel.Files.Paths.{parts, is_truthy, output_path, join_path}
use xp_panel.Files.Paths.Laws.{IsName, parts-join_path}
use xp_panel.Files.Archive.{Compress, compresses, click_compress, handle_compress}

output_path-join_path :
    (current name format : Text)
    → output_path current name format ≡ join_path current (name ++ 46 ∷ format)
unfolding output_path join_path
output_path-join_path current name format = append_assoc _ name (46 ∷ format)

click_asks :
    (paths : List Text) (current : Text) (c : Compress)
    → c.loading ≡ false
    → is_truthy (trim c.name) ≡ true
    → click_compress paths current c ≡ (
      record c { loading = true },
      compresses paths (join_path current (c.name ++ 46 ∷ c.format)) c.format ∷ [],
    )
unfolding click_compress handle_compress
click_asks paths current c idle named =
    rw (idle, named)
      (ap (λ out. (record c { loading = true }, compresses paths out c.format ∷ []))
        (output_path-join_path current c.name c.format))

busy_click :
    (paths : List Text) (current : Text) (c : Compress)
    → c.loading ≡ true
    → click_compress paths current c ≡ (c, [])
unfolding click_compress
busy_click paths current c busy = simp busy refl

-- A click with a name that is not blank, while no request runs, asks for one archive of the given paths,
-- in the open folder, under the name with the format as its extension; a second click does nothing.
pub click_compress_once :
    (paths : List Text) (current : Text) (c : Compress)
    → c.loading ≡ false
    → is_truthy (trim c.name) ≡ true
    → IsName (c.name ++ 46 ∷ c.format)
    → let r = click_compress paths current c in
      ((out : Text) × (r.1 ≡ compresses paths out c.format ∷ [])
        × (parts out ≡ parts current ++ (c.name ++ 46 ∷ c.format) ∷ []))
      × (click_compress paths current r.0 ≡ (r.0, []))
click_compress_once paths current c idle named valid =
    let asks = click_asks paths current c idle named in
    (
      (
        join_path current (c.name ++ 46 ∷ c.format),
        ap (λ r. r.1) asks,
        parts-join_path current (c.name ++ 46 ∷ c.format) valid,
      ),
      busy_click paths current (click_compress paths current c).0 (ap (λ r. r.0.loading) asks),
    )
