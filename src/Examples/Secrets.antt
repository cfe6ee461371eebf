-- ===== src/Examples/Secrets.antt =====
-- A file with a key, a comment, and a last line that has no line feed.
use maestro_orchestrator.Prelude.{
  String, ◌≡◌, refl, Bool, true, false, ◌||◌, Option, some, List, [], ◌∷◌, ◌==◌, text_keys,
}
use maestro_orchestrator.Keys.{EnvLine, mask_key}

abbrev declares : String → String → Bool
declares key text = text == "OPENAI_API_KEY=new" || text == "OPENAI_API_KEY = old"

abbrev env_file : Option (List EnvLine)
env_file = some (
    record { text = "# keys"; ended = true }
    ∷ record { text = "OPENAI_API_KEY = old"; ended = true }
    ∷ record { text = "DEBUG=1"; ended = false }
    ∷ [])

masked : mask_key "sk-abcdefgh-wxyz" ≡ "sk-a********wxyz"
unfolding mask_key
masked = refl

-- A key of two characters is shown whole.
short_key_shown : mask_key "ab" ≡ "ab"
unfolding mask_key
short_key_shown = refl
