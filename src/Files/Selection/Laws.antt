-- ===== src/Files/Selection/Laws.antt =====
-- FileList.tsx: what a click on a row selects.
use xp_panel.Shared.{
  ◌≡◌, refl, ap, Text, true, false, not, ◌||◌, ◌&&◌, Option, none, some, List, [], ◌∷◌, ◌++◌, keep,
  if◌then◌else◌, text_eq, text_eq_iff, includes, Bool-cases, inl, inr, arith,
}
use xp_panel.Files.Selection.{
  Selection, Click, distinct, toggle_path, select_path, anchor, toggle_select,
}

pub includes-append :
    (a b : List Text) (q : Text) → includes (a ++ b) q ≡ (includes a q || includes b q)
unfolding includes
includes-append [] b q = refl
includes-append (p ∷ a) b q = ground (arith, includes-append a b q)

text_eq_sym : (p q : Text) → text_eq p q ≡ text_eq q p
text_eq_sym p q = ground (arith, text_eq_iff p q, text_eq_iff q p)

includes-without :
    (p q : Text) (l : List Text)
    → includes (keep (λ x. not (text_eq x p)) l) q ≡ (not (text_eq p q) && includes l q)
unfolding includes
includes-without p q [] = ground arith
includes-without p q (x ∷ l) = elim (Bool-cases (text_eq x p)) [
  | inl same ↦
      let e : text_eq x q ≡ text_eq p q = ap (λ z. text_eq z q) ((text_eq_iff x p).0 same) in
      rw same (ground (arith, includes-without p q l))
  | inr other ↦ elim (Bool-cases (text_eq x q)) [
    | inl found ↦
        let e : text_eq x p ≡ text_eq q p = ap (λ z. text_eq z p) ((text_eq_iff x q).0 found) in
        rw other (ground (arith, text_eq_sym p q))
    | inr absent ↦ rw (other, absent) (includes-without p q l)
  ]
]

includes-one : (p q : Text) → includes (p ∷ []) q ≡ text_eq p q
unfolding includes
includes-one p q = ground arith

pub includes-distinct : (l : List Text) (q : Text) → includes (distinct l) q ≡ includes l q
unfolding includes distinct
includes-distinct [] q = refl
includes-distinct (p ∷ l) q =
    ground (arith, includes-without p q (distinct l), includes-distinct l q)

no_anchor : (e : Click) (o : Option Text) → e.shift ≡ false → anchor e o ≡ none
unfolding anchor
no_anchor e none h = refl
no_anchor e (some last) h = rw h refl

includes-toggle_path :
    (path q : Text) (selected : List Text)
    → includes (toggle_path path selected) q
      ≡ (if text_eq path q then not (includes selected q) else includes selected q)
unfolding toggle_path
includes-toggle_path path q selected = elim (Bool-cases (text_eq path q)) [
  | inl same ↦
      let e : path ≡ q = (text_eq_iff path q).0 same in
      let f : includes selected path ≡ includes selected q = ap (includes selected) e in
      ground (
        arith,
        includes-without path q selected,
        includes-append selected (path ∷ []) q,
        includes-one path q,
      )
  | inr other ↦ ground (
    arith,
    includes-without path q selected,
    includes-append selected (path ∷ []) q,
    includes-one path q,
  )
]

-- A click with the control key takes the path out of the selection or puts it in, and leaves every
-- other path as it was.
pub ctrl_toggles :
    (paths : List Text) (path q : Text) (e : Click) (s : Selection)
    → e.shift ≡ false
    → e.ctrl ≡ true
    → includes (toggle_select paths path e s).selected q
      ≡ (if text_eq path q then not (includes s.selected q) else includes s.selected q)
unfolding toggle_select select_path
ctrl_toggles paths path q e s no_shift ctrl =
    rw (no_anchor e s.last_click no_shift, ctrl) (includes-toggle_path path q s.selected)
