-- ===== src/Live/Voice.antt =====
-- apps/web/src/lib/hooks/useVoiceControl.ts: the voice commands. The speech recognition is the browser's:
-- what it reports are events. `fold` is the case folding of the flag `i`, for one code unit.
use xp_panel.Shared.{
  ℕ, Text, codes, Bool, true, false, Option, none, some, List, [], ◌∷◌, map, any, if◌then◌else◌,
  has_substring,
}

-- The alternatives of the pattern, each a literal, and the page.
pub record VoiceCommand : Type 0 where
  pub pattern : List Text
  pub page : Text

abbrev pub voice : List Text → Text → VoiceCommand
voice ps p = record { pattern = ps; page = p }

abbrev pub voice_commands : List VoiceCommand
voice_commands =
    voice (codes "go to dashboard" ∷ []) (codes "/dashboard")
    ∷ voice (codes "go to domains" ∷ []) (codes "/domains")
    ∷ voice (codes "go to dns" ∷ []) (codes "/dns")
    ∷ voice (codes "go to email" ∷ []) (codes "/email")
    ∷ voice (codes "go to files" ∷ []) (codes "/files")
    ∷ voice (codes "go to databases" ∷ []) (codes "/databases")
    ∷ voice (codes "go to backups" ∷ []) (codes "/backups")
    ∷ voice (codes "go to monitoring" ∷ []) (codes "/monitoring")
    ∷ voice (codes "go to security" ∷ []) (codes "/security")
    ∷ voice (codes "go to docker" ∷ []) (codes "/docker")
    ∷ voice (codes "go to billing" ∷ []) (codes "/billing")
    ∷ voice (codes "go to ai" ∷ codes "open assistant" ∷ []) (codes "/ai")
    ∷ voice (codes "go to marketplace" ∷ []) (codes "/marketplace")
    ∷ voice (codes "go to settings" ∷ []) (codes "/settings")
    ∷ voice (codes "open threat map" ∷ codes "go to geomap" ∷ []) (codes "/monitoring/geomap")
    ∷ voice (codes "open pipelines" ∷ codes "go to devops" ∷ []) (codes "/devops")
    ∷ []

pub record VoiceControl : Type 0 where
  pub is_listening : Bool
  pub is_supported : Bool
  pub transcript : Text
  pub voice_error : Option Text
  pub has_recognition : Bool

-- What the hook does: it tells its component of a transcript and of a command, sends the router to a
-- page, starts a recognition or stops the last one.
pub data VoiceAction : Type 0 where
  on_transcript on_command pushes : Text → VoiceAction
  starts stops : VoiceAction

module _ (fold : ℕ → ℕ) where
  unfoldable pub pattern_matches : List Text → Text → Bool
  pattern_matches ps text = any (λ p. has_substring (map fold text) (map fold p)) ps

  -- The loop over the commands: the first that matches acts.
  unfoldable pub first_match : List VoiceCommand → Text → List VoiceAction
  unfolding pattern_matches
  first_match [] text = []
  first_match (c ∷ cs) text =
      let rest = first_match cs text in
      if pattern_matches c.pattern text then on_command text ∷ pushes c.page ∷ [] else rest

  unfoldable pub process_transcript : Text → VoiceControl → VoiceControl × List VoiceAction
  unfolding first_match
  process_transcript text v =
      (record v { transcript = text }, on_transcript text ∷ first_match voice_commands text)

  unfoldable pub start_listening : VoiceControl → VoiceControl × List VoiceAction
  start_listening v =
      if v.is_supported
      then (record v { has_recognition = true }, starts ∷ [])
      else (record v { voice_error = some (codes "Speech recognition not supported") }, [])

  unfoldable pub stop_listening : VoiceControl → VoiceControl × List VoiceAction
  stop_listening v =
      (record v { is_listening = false }, if v.has_recognition then stops ∷ [] else [])

  unfoldable pub toggle_listening : VoiceControl → VoiceControl × List VoiceAction
  unfolding start_listening stop_listening
  toggle_listening v = if v.is_listening then stop_listening v else start_listening v

  unfoldable pub recognition_started : VoiceControl → VoiceControl
  recognition_started v = record v { is_listening = true; voice_error = none; transcript = [] }

  unfoldable pub recognition_ended : VoiceControl → VoiceControl
  recognition_ended v = record v { is_listening = false }

  unfoldable pub recognition_failed : Text → VoiceControl → VoiceControl
  recognition_failed e v = record v { voice_error = some e; is_listening = false }

  -- A result, which may not be final.
  unfoldable pub recognition_result : Text → Bool → VoiceControl → VoiceControl × List VoiceAction
  unfolding process_transcript
  recognition_result text is_final v =
      let heard = record v { transcript = text } in
      if is_final then process_transcript text heard else (heard, [])
