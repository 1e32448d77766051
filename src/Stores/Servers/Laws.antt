-- ===== src/Stores/Servers/Laws.antt =====
-- server.store.ts: the recent servers are the last five distinct ones.
use mathlib.Core.Path.{subst}
use xp_panel.Shared.{
  All-take, All-map, ◌≢◌, ℕ, zero, suc, ◌≤◌, ◌≡◌, refl, ap, sym, Text, Bool, true, Option, none,
  some, List, [], ◌∷◌, take, keep, length, length-take, All, text_eq, text_eq_iff, Bool-cases, inl,
  inr, arith,
}
use xp_panel.Stores.Servers.{
  ActiveServer, ServerStore, no_servers, is_other, promote, recent_after, set_active_server,
  add_recent_server, clear_active_server, Call, sets_active, adds_recent, clears, call, calls,
}

-- No two servers of the list have the same id.
abbrev pub IsDistinct : List ActiveServer → Type 0
IsDistinct [] = Unit
IsDistinct (s ∷ ss) = All (λ x. x.id ≢ s.id) ss × IsDistinct ss

other_id : (i : Text) (x : ActiveServer) → is_other i x ≡ true → x.id ≢ i
other_id i x h = λ e. absurd (let k = (text_eq_iff x.id i).1 e in ground arith)

id_other : (i : Text) (x : ActiveServer) → x.id ≢ i → is_other i x ≡ true
id_other i x h = elim (Bool-cases (text_eq x.id i)) [
  | inl e ↦ absurd (h ((text_eq_iff x.id i).0 e))
  | inr e ↦ rw e refl
]

-- The recent servers without a limit: the last used first.
abbrev pub used : Option ActiveServer → List ActiveServer → List ActiveServer
used none ss = ss
used (some s) ss = s ∷ keep (is_other s.id) ss

abbrev pub names : Call → Option ActiveServer
names (sets_active o) = o
names (adds_recent s) = some s
names clears = none

abbrev pub history : List Call → List ActiveServer → List ActiveServer
history [] ss = ss
history (c ∷ cs) ss = history cs (used (names c) ss)

keep-All :
    (p : ActiveServer → Bool) (ss : List ActiveServer) → All (λ x. p x ≡ true) ss → keep p ss ≡ ss
keep-All p [] h = refl
keep-All p (s ∷ ss) h = rw h.0 (ap (λ r. s ∷ r) (keep-All p ss h.1))

All-keep :
    (P : ActiveServer → Type 0) (p : ActiveServer → Bool) (ss : List ActiveServer)
    → All P ss
    → All P (keep p ss)
All-keep P p [] h = tt
All-keep P p (s ∷ ss) h = elim (Bool-cases (p s)) [
  | inl e ↦ rw e (h.0, All-keep P p ss h.1)
  | inr e ↦ rw e (All-keep P p ss h.1)
]

keep_self : (p : ActiveServer → Bool) (ss : List ActiveServer) → All (λ x. p x ≡ true) (keep p ss)
keep_self p [] = tt
keep_self p (s ∷ ss) = elim (Bool-cases (p s)) [
  | inl e ↦ rw e (e, keep_self p ss)
  | inr e ↦ rw e (keep_self p ss)
]

keep-IsDistinct :
    (p : ActiveServer → Bool) (ss : List ActiveServer) → IsDistinct ss → IsDistinct (keep p ss)
keep-IsDistinct p [] h = tt
keep-IsDistinct p (s ∷ ss) h = elim (Bool-cases (p s)) [
  | inl e ↦ rw e (All-keep (λ x. x.id ≢ s.id) p ss h.0, keep-IsDistinct p ss h.1)
  | inr e ↦ rw e (keep-IsDistinct p ss h.1)
]

used-IsDistinct :
    (o : Option ActiveServer) (ss : List ActiveServer) → IsDistinct ss → IsDistinct (used o ss)
used-IsDistinct none ss h = h
used-IsDistinct (some s) ss h =
    (All-map (other_id s.id) _ (keep_self (is_other s.id) ss), keep-IsDistinct (is_other s.id) ss h)

take-take : (n : ℕ) (ss : List ActiveServer) → take n (take n ss) ≡ take n ss
take-take zero ss = refl
take-take (suc n) [] = refl
take-take (suc n) (s ∷ ss) = ap (λ r. s ∷ r) (take-take n ss)

-- Of distinct servers the filter drops at most one, so one more than is wanted is enough to look at.
take-keep :
    (n : ℕ) (i : Text) (ss : List ActiveServer)
    → IsDistinct ss
    → take n (keep (is_other i) ss) ≡ take n (keep (is_other i) (take (suc n) ss))
take-keep zero i ss h = refl
take-keep (suc n) i [] h = refl
take-keep (suc n) i (s ∷ ss) h = elim (Bool-cases (text_eq s.id i)) [
  | inl same ↦
      rw same
        let other : All (λ x. is_other i x ≡ true) ss =
            subst (λ j. All (λ x. is_other j x ≡ true) ss) ((text_eq_iff s.id i).0 same)
              (All-map (id_other s.id) ss h.0) in
          rw
            (
              keep-All (is_other i) ss other,
              keep-All (is_other i) (take (suc n) ss)
                  (All-take (λ x. is_other i x ≡ true) (suc n) ss other),
            )
            (sym (take-take (suc n) ss))
  | inr other ↦ rw other (ap (λ r. s ∷ r) (take-keep n i ss h.1))
]

promote-used :
    (s : ActiveServer) (ss : List ActiveServer)
    → IsDistinct ss
    → promote s (take 5 ss) ≡ take 5 (used (some s) ss)
unfolding promote
promote-used s ss h = ap (λ r. s ∷ r) (sym (take-keep 4 s.id ss h))

recent_after-used :
    (o : Option ActiveServer) (ss : List ActiveServer)
    → IsDistinct ss
    → recent_after o (take 5 ss) ≡ take 5 (used o ss)
unfolding recent_after
recent_after-used none ss h = refl
recent_after-used (some s) ss h = promote-used s ss h

call-used :
    (c : Call) (t : ServerStore) (ss : List ActiveServer)
    → IsDistinct ss
    → t.recent_servers ≡ take 5 ss
    → (call c t).recent_servers ≡ take 5 (used (names c) ss)
unfolding call set_active_server add_recent_server clear_active_server
call-used (sets_active o) t ss h e = rw e (recent_after-used o ss h)
call-used (adds_recent s) t ss h e = rw e (promote-used s ss h)
call-used clears t ss h e = e

calls-history :
    (cs : List Call) (t : ServerStore) (ss : List ActiveServer)
    → IsDistinct ss
    → t.recent_servers ≡ take 5 ss
    → ((calls cs t).recent_servers ≡ take 5 (history cs ss)) × IsDistinct (history cs ss)
unfolding calls
calls-history [] t ss h e = (e, h)
calls-history (c ∷ cs) t ss h e =
    calls-history cs (call c t) (used (names c) ss) (used-IsDistinct (names c) ss h)
      (call-used c t ss h e)

-- After any calls on an empty store the recent servers are the first five of the servers that the
-- calls named, the last named first, each once: there are at most five, and no two share an id.
pub recent_five :
    (cs : List Call)
    → ((calls cs no_servers).recent_servers ≡ take 5 (history cs []))
      × IsDistinct (history cs [])
      × (length (calls cs no_servers).recent_servers ≤ 5)
recent_five cs =
    let (same, distinct) = calls-history cs no_servers [] tt refl in
    (same, distinct, omega (arith, ap length same, length-take 5 (history cs [])))
