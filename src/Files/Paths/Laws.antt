-- ===== src/Files/Paths/Laws.antt =====
-- Paths of the file manager: joining a name and going up are inverse.
use mathlib.Core.List.{append-nil, append_assoc}
use xp_panel.Shared.{
  suc, ◌-◌, ◌==◌, ==_iff, ◌≡◌, refl, sym, ap, ◌∙◌, Text, Bool, true, List, [], ◌∷◌, ◌++◌, take,
  keep, all, not, length, All, split, split_on, join, Bool-cases, inl, inr, arith, length-append,
}
use xp_panel.Files.Paths.{
  slash, ends_with_slash, join_path, final, last_part, is_truthy, parts, go_up, up,
}

-- A name: not empty, and without a slash.
abbrev pub HasNoSlash : Text → Type 0
HasNoSlash s = all (λ c. not (c == slash)) s ≡ true

abbrev pub IsName : Text → Type 0
IsName s = (is_truthy s ≡ true) × HasNoSlash s

split_on-append :
    (s t : Text)
    → split_on slash (s ++ slash ∷ t)
      ≡ ((split_on slash s).0, (split_on slash s).1 ++ split slash t)
unfolding split_on
split_on-append [] t = refl
split_on-append (c ∷ s) t = elim (Bool-cases (c == slash)) [
  | inl e ↦ rw (split_on-append s t, e) refl
  | inr e ↦ rw (split_on-append s t, e) refl
]

split_on-HasNoSlash : (s : Text) → HasNoSlash s → split_on slash s ≡ (s, [])
unfolding split_on
split_on-HasNoSlash [] h = refl
split_on-HasNoSlash (c ∷ s) h = elim (Bool-cases (c == slash)) [
  | inl e ↦ absurd (ground arith)
  | inr e ↦ rw (e, split_on-HasNoSlash s (ground arith)) refl
]

split-append : (s t : Text) → split slash (s ++ slash ∷ t) ≡ split slash s ++ split slash t
split-append s t = rw (split_on-append s t) refl

keep-append : (p : Text → Bool) (l m : List Text) → keep p (l ++ m) ≡ keep p l ++ keep p m
keep-append p [] m = refl
keep-append p (x ∷ l) m = elim (Bool-cases (p x)) [
  | inl e ↦ rw (e, keep-append p l m) refl
  | inr e ↦ rw (e, keep-append p l m) refl
]

ends_split : (s : Text) → ends_with_slash s ≡ true → (b : Text) × (s ≡ b ++ slash ∷ [])
unfolding ends_with_slash
ends_split [] h = absurd cc
ends_split (c ∷ []) h = ([], ap (λ d. d ∷ []) ((==_iff c slash).0 h))
ends_split (c ∷ d ∷ s) h = let (b, e) = ends_split (d ∷ s) h in (c ∷ b, ap (λ t. c ∷ t) e)

parts-append : (s t : Text) → parts (s ++ slash ∷ t) ≡ parts s ++ parts t
unfolding parts
parts-append s t =
    ap (keep is_truthy) (split-append s t) ∙ keep-append is_truthy (split slash s) (split slash t)

parts-IsName : (name : Text) → IsName name → parts name ≡ name ∷ []
unfolding parts
parts-IsName name h = rw (split_on-HasNoSlash name h.1, h.0) refl

parts_closed : (b : Text) → parts (b ++ slash ∷ []) ≡ parts b
unfolding parts split_on
parts_closed b = parts-append b [] ∙ append-nil (parts b)

-- The joined path is some text, a slash and the name, and that text has the parts of the base.
join_path-split :
    (base name : Text)
    → (b : Text) × (join_path base name ≡ b ++ slash ∷ name) × (parts b ≡ parts base)
unfolding join_path
join_path-split base name = elim (Bool-cases (ends_with_slash base)) [
  | inl e ↦
      let (b, s) = ends_split base e in
      (
        b,
        (let t : base ++ name ≡ b ++ slash ∷ name =
              ap (λ u. u ++ name) s ∙ append_assoc b (slash ∷ []) name in
            rw e t),
        sym (ap parts s ∙ parts_closed b),
      )
  | inr e ↦ (base, rw e (append_assoc base (slash ∷ []) name), refl)
]

final-append : (x y : Text) (l : List Text) → final x (l ++ y ∷ []) ≡ y
final-append x y [] = refl
final-append x y (z ∷ l) = final-append z y l

-- The last part of a path joined with a name is the name.
last_part-join_path : (base name : Text) → HasNoSlash name → last_part (join_path base name) ≡ name
unfolding last_part
last_part-join_path base name h =
    let (b, e, same) = join_path-split base name in
    rw (e, split_on-append b name, split_on-HasNoSlash name h)
      (final-append (split_on slash b).0 name (split_on slash b).1)

pub parts-join_path :
    (base name : Text) → IsName name → parts (join_path base name) ≡ parts base ++ name ∷ []
parts-join_path base name h =
    let (b, e, same) = join_path-split base name in
    ap parts e ∙ parts-append b name ∙ rw (same, parts-IsName name h) refl

parts_nil : parts [] ≡ []
unfolding parts split_on
parts_nil = refl

parts-join : (ps : List Text) → All IsName ps → parts (join slash ps) ≡ ps
unfolding join
parts-join [] h = parts_nil
parts-join (p ∷ []) h = parts-IsName p h.0
parts-join (p ∷ q ∷ ps) h =
    parts-append p (join slash (q ∷ ps))
    ∙ rw (parts-IsName p h.0) (ap (λ l. p ∷ l) (parts-join (q ∷ ps) h.1))

-- The path that is shown for these parts has these parts.
parts-slash : (ps : List Text) → All IsName ps → parts (slash ∷ join slash ps) ≡ ps
parts-slash ps h = parts-append [] (join slash ps) ∙ rw parts_nil (parts-join ps h)

pub split_on-HaveNoSlash :
    (s : Text) → HasNoSlash (split_on slash s).0 × All HasNoSlash (split_on slash s).1
unfolding split_on
split_on-HaveNoSlash [] = (refl, tt)
split_on-HaveNoSlash (c ∷ s) = elim (Bool-cases (c == slash)) [
  | inl e ↦ rw e (refl, split_on-HaveNoSlash s)
  | inr e ↦ rw e (rw e (split_on-HaveNoSlash s).0, (split_on-HaveNoSlash s).1)
]

keep-AreNames : (l : List Text) → All HasNoSlash l → All IsName (keep is_truthy l)
keep-AreNames [] h = tt
keep-AreNames (s ∷ l) h = elim (Bool-cases (is_truthy s)) [
  | inl e ↦ rw e ((e, h.0), keep-AreNames l h.1)
  | inr e ↦ rw e (keep-AreNames l h.1)
]

parts-AreNames : (s : Text) → All IsName (parts s)
unfolding parts
parts-AreNames s = keep-AreNames (split slash s) (split_on-HaveNoSlash s)

take-append : (l m : List Text) → take (length l) (l ++ m) ≡ l
take-append [] m = refl
take-append (x ∷ l) m = ap (λ k. x ∷ k) (take-append l m)

up-append : (l : List Text) (x : Text) → up (l ++ x ∷ []) ≡ slash ∷ join slash l
unfolding up join
up-append [] x = refl
up-append (y ∷ l) x =
    let e : suc (length (l ++ x ∷ [])) - 1 ≡ suc (length l) =
      omega (arith, length-append l (x ∷ [])) in
    rw e (ap (λ k. slash ∷ join slash (y ∷ k)) (take-append l (x ∷ [])))

-- Going up from a joined path leads to the base: the parts of the path are those of the base, and its
-- last part was the name.
pub go_up-join_path :
    (base name : Text)
    → IsName name
    → (parts (go_up (join_path base name)) ≡ parts base) × (last_part (join_path base name) ≡ name)
unfolding go_up
go_up-join_path base name h = (
  ap (λ l. parts (up l)) (parts-join_path base name h)
      ∙ ap parts (up-append (parts base) name)
      ∙ parts-slash (parts base) (parts-AreNames base),
  last_part-join_path base name h.1,
)
