-- ===== src/Keys/Files.antt =====
-- What setting and removing a key in maestro/keyring.py leaves of the .env file.
use maestro_orchestrator.Prelude.{◌≡◌, String, Bool, true, not, Option, none, some, List, [], map}
use maestro_orchestrator.Prelude.Lists.{keep}
use maestro_orchestrator.Keys.{EnvLine, key_line}

-- The lines of a file that is not there are none.
abbrev pub lines_of : Option (List EnvLine) → List EnvLine
lines_of none = []
lines_of (some ls) = ls

module _ (declares : String → String → Bool) where
  -- The texts of the lines that are not of a key.
  abbrev pub others : String → List EnvLine → List String
  others key ls = map (λ l. l.text) (keep (λ l. not (declares key l.text)) ls)

  -- A line, if it is of a key, sets it to a value.
  abbrev pub Sets : String → String → EnvLine → Type 0
  Sets key value l = declares key l.text ≡ true → l ≡ key_line key value
