-- ===== src/Panel/SshKeys/Laws.antt =====
-- ssh-keys/page.tsx: what the page asks of the server, and the check mark of a copied fingerprint.
use xp_panel.Shared.{
  ◌≡◌, refl, ◌≢◌, ℕ, zero, suc, Text, Option, none, List, [], ◌∷◌, All, arith, filled,
}
use xp_panel.Api.Hosting.{WebCall, add_key, delete_key}
use xp_panel.Panel.Runs.{OfCalls, page_run}
use xp_panel.Panel.Inline.{FormCall, creates, removes, FormState, FormEvent, inline_step}
use xp_panel.Panel.Inline.Laws.{IsComplete, inline_run-keeps}
use xp_panel.Panel.SshKeys.{
  KeyForm, KeyField, key_form, key_call, CopyState, CopyEvent, copies, timer_ends, copy_step,
}

-- A key is added with a label and the key itself.
abbrev pub IsKeyCall : WebCall → Type 0
IsKeyCall (add_key label public_key) = (label ≢ []) × (public_key ≢ [])
IsKeyCall (delete_key i) = Unit
IsKeyCall c = ⊥

key_call-IsKeyCall : (c : FormCall KeyForm) → IsComplete key_form c → IsKeyCall (key_call c)
key_call-IsKeyCall (creates d) h =
    (filled d.label (ground arith), filled d.public_key (ground arith))
key_call-IsKeyCall (removes i) h = tt

-- Whatever is done on the page of the keys, a key is only added with a label and a text.
pub key_run-IsKeyCall :
    (es : List (FormEvent KeyField)) (p : FormState KeyForm)
    → All (OfCalls IsKeyCall) (page_run (inline_step key_form key_call) es p).1
key_run-IsKeyCall = inline_run-keeps key_form key_call IsKeyCall key_call-IsKeyCall

-- The check mark is only shown while a timer runs.
abbrev pub IsTimed : CopyState → Type 0
IsTimed s = s.timers ≡ 0 → s.copied ≡ none

step-IsTimed : (e : CopyEvent) (s : CopyState) → IsTimed s → IsTimed (copy_step e s).0
unfolding copy_step
step-IsTimed (copies fp) s h = λ k. absurd (omega arith)
step-IsTimed timer_ends s h = ended s.timers s.copied h
  where
    ended :
        (n : ℕ) (c : Option Text)
        → (n ≡ 0 → c ≡ none)
        → IsTimed (copy_step timer_ends (record { copied = c; timers = n })).0
    ended zero c h = h
    ended (suc n) c h = λ k. refl

-- Whatever is copied, once no timer runs, no fingerprint is marked as copied.
pub copy_run-IsTimed :
    (es : List CopyEvent) (s : CopyState) → IsTimed s → IsTimed (page_run copy_step es s).0
unfolding page_run
copy_run-IsTimed [] s h = h
copy_run-IsTimed (e ∷ es) s h = copy_run-IsTimed es (copy_step e s).0 (step-IsTimed e s h)

-- The timer of a fingerprint that was copied before takes away the mark of the one copied after it.
pub mark_lost :
    (a b : Text) (s : CopyState)
    → (page_run copy_step (copies a ∷ copies b ∷ timer_ends ∷ []) s).0.copied ≡ none
unfolding page_run copy_step
mark_lost a b s = refl
