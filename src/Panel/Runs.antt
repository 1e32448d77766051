-- ===== src/Panel/Runs.antt =====
-- Runs of a page: its events in turn, with all the effects, and what holds of every effect of a run.
use xp_panel.Shared.{Text, List, [], ◌∷◌, ◌++◌, map, All, All-append, All-map}

-- What a page does outside itself: a call of a wrapper, a query made stale, a message.
pub data PageEffect (C : Type 0) : Type 0 where
  calls : C → PageEffect C
  invalidates : Text → PageEffect C
  tells_success : Text → PageEffect C
  tells_error : Text → PageEffect C

-- What holds of the calls among the effects.
abbrev pub OfCalls : {C : Type 0} → (C → Type 0) → PageEffect C → Type 0
OfCalls P (calls c) = P c
OfCalls P e = Unit

-- The effects of a part, with the calls as the page makes them.
abbrev pub map_calls : {C E : Type 0} → (C → E) → PageEffect C → PageEffect E
map_calls f (calls c) = calls (f c)
map_calls f (invalidates key) = invalidates key
map_calls f (tells_success s) = tells_success s
map_calls f (tells_error s) = tells_error s

module _ {C E : Type 0} (P : C → Type 0) (Q : E → Type 0) (f : C → E)
    (h : (c : C) → P c → Q (f c)) where
  OfCalls-map_calls : (e : PageEffect C) → OfCalls P e → OfCalls Q (map_calls f e)
  OfCalls-map_calls (calls c) k = h c k
  OfCalls-map_calls (invalidates key) k = tt
  OfCalls-map_calls (tells_success s) k = tt
  OfCalls-map_calls (tells_error s) k = tt

  pub All-map_calls :
      (es : List (PageEffect C)) → All (OfCalls P) es → All (OfCalls Q) (map (map_calls f) es)
  All-map_calls [] k = tt
  All-map_calls (e ∷ es) k = (OfCalls-map_calls e k.0, All-map_calls es k.1)

module _ {C : Type 0} {P Q : C → Type 0} (f : (c : C) → P c → Q c) where
  OfCalls-map : (e : PageEffect C) → OfCalls P e → OfCalls Q e
  OfCalls-map (calls c) h = f c h
  OfCalls-map (invalidates key) h = tt
  OfCalls-map (tells_success s) h = tt
  OfCalls-map (tells_error s) h = tt

  pub All-OfCalls : (es : List (PageEffect C)) → All (OfCalls P) es → All (OfCalls Q) es
  All-OfCalls es h = All-map OfCalls-map es h

module _ {S E F : Type 0} (step : E → S → S × List F) where
  unfoldable pub page_run : List E → S → S × List F
  page_run [] s = (s, [])
  page_run (e ∷ es) s =
      let first = step e s in let rest = page_run es first.0 in (rest.0, first.1 ++ rest.1)

  module _ (I : S → Type 0) (P : F → Type 0)
      (keeps : (e : E) (s : S) → I s → I (step e s).0 × All P (step e s).1) where
    pub page_run-keeps : (es : List E) (s : S) → I s → I (page_run es s).0 × All P (page_run es s).1
    unfolding page_run
    page_run-keeps [] s h = (h, tt)
    page_run-keeps (e ∷ es) s h =
        let first = keeps e s h in
        let rest = page_run-keeps es (step e s).0 first.0 in
        (rest.0, All-append P _ _ first.1 rest.1)
