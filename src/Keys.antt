-- ===== src/Keys.antt =====
-- maestro/keyring.py: the API keys in the environment of the process and in the .env file. The file is a list
-- of lines. Parameters stand for `strip` and for the pattern that finds the lines of a variable; what the
-- endpoint of a provider answers to a key is an argument. A value is taken to have no line break.
use Prim.Native.Char.{Char}
use Prim.Native.String.{[] as text_end, ◌∷◌ as ◌∷ₜ◌, ◌++◌ as ◌++ₜ◌}
use maestro_orchestrator.Prelude.{
  ℕ, zero, suc, ◌+◌, ◌-◌, String, Bool, true, false, not, ◌&&◌, ◌||◌, Option, none, some, List, [],
  ◌∷◌, ◌++◌, map, ◌==◌, text_keys, if◌then◌else◌, ltb, leb, nat_beq,
}
use maestro_orchestrator.Prelude.Lists.{length, take, take_last, any, contains, keep}
use maestro_orchestrator.Prelude.Dict.{Dict, get, set, delete}
pub mod Files

pub record Provider : Type 0 where
  pub env_var : String
  pub label : String
  pub prefix : String
  pub test_url : String
  pub signup_url : String

abbrev pub providers : Dict String Provider
providers =
    (
      "openai",
      record {
        env_var = "OPENAI_API_KEY";
        label = "OpenAI";
        prefix = "sk-";
        test_url = "https://api.openai.com/v1/models";
        signup_url = "https://platform.openai.com/api-keys";
      },
    )
    ∷ (
      "anthropic",
      record {
        env_var = "ANTHROPIC_API_KEY";
        label = "Anthropic";
        prefix = "sk-ant-";
        test_url = "https://api.anthropic.com/v1/models";
        signup_url = "https://console.anthropic.com/settings/keys";
      },
    )
    ∷ (
      "google",
      record {
        env_var = "GOOGLE_API_KEY";
        label = "Google";
        prefix = "AI";
        test_url = "https://generativelanguage.googleapis.com/v1beta/models";
        signup_url = "https://aistudio.google.com/apikey";
      },
    )
    ∷ (
      "openrouter",
      record {
        env_var = "OPENROUTER_API_KEY";
        label = "OpenRouter";
        prefix = "sk-or-";
        test_url = "https://openrouter.ai/api/v1/models";
        signup_url = "https://openrouter.ai/keys";
      },
    )
    ∷ []

abbrev pub placeholder_values : List String
placeholder_values =
    "" ∷ "sk-..." ∷ "..." ∷ "your-openai-key-here" ∷ "your-anthropic-key-here"
    ∷ "your-google-api-key-here" ∷ "your-openrouter-key-here" ∷ []

pub record KeyStatus : Type 0 where
  pub provider : String
  pub label : String
  pub env_var : String
  pub configured : Bool
  pub masked_value : String
  pub signup_url : String
  pub valid : Option Bool
  pub error : Option String

-- A line of the file, and whether it ends with a line feed.
pub record EnvLine : Type 0 where
  pub text : String
  pub ended : Bool

-- The environment of the process, and the file if it is there.
pub record Keyring : Type 0 where
  pub environ : Dict String String
  pub env_file : Option (List EnvLine)

unfoldable pub chars : String → List Char
chars text_end = []
chars (c ∷ₜ s) = c ∷ chars s

unfoldable pub text_of : List Char → String
text_of [] = text_end
text_of (c ∷ cs) = c ∷ₜ text_of cs

unfoldable pub stars : ℕ → List Char
stars zero = []
stars (suc n) = "*" ∷ stars n

-- The last line gets its line feed, if it has none.
unfoldable pub end_last : List EnvLine → List EnvLine
end_last [] = []
end_last (l ∷ []) = record l { ended = true } ∷ []
end_last (l ∷ m ∷ ls) = l ∷ end_last (m ∷ ls)

unfoldable pub key_line : String → String → EnvLine
key_line key value = record { text = key ++ₜ ("=" ++ₜ value); ended = true }

unfoldable pub mask_key : String → String
unfolding chars text_of stars
mask_key key =
    let cs = chars key in
    let n = length cs in
    if leb n 10
    then text_of (take 2 cs ++ stars (n - 2))
    else text_of (take 4 cs ++ stars (n - 8) ++ take_last 4 cs)

-- The variable of a provider in the environment, "" where it is not set.
unfoldable pub raw_key : Provider → Keyring → String
raw_key info k = elim (get info.env_var k.environ) [ none ↦ "" | some v ↦ v ]

unfoldable pub get_key : String → Keyring → Option String
unfolding raw_key
get_key provider k = elim (get provider providers) [
  | none ↦ none
  | some info ↦ let raw = raw_key info k in if raw == "" then none else some raw
]

unfoldable pub is_configured : String → Bool
is_configured raw = not (raw == "") && not (contains placeholder_values raw)

unfoldable pub key_status : Keyring → String × Provider → KeyStatus
unfolding raw_key is_configured mask_key
key_status k (provider, info) =
    let raw = raw_key info k in
    record {
      provider = provider;
      label = info.label;
      env_var = info.env_var;
      configured = is_configured raw;
      masked_value = if is_configured raw then mask_key raw else "";
      signup_url = info.signup_url;
      valid = none;
      error = none;
    }

unfoldable pub list_keys : Keyring → List KeyStatus
unfolding key_status
list_keys k = map (key_status k) providers

-- What the endpoint of a provider answers to a key.
pub data Probe : Type 0 where
  answered_with : ℕ → String → Probe
  timed_out : Probe
  raised : String → Probe

-- The verdict on a key, with the text of "HTTP" and the code for the other codes.
unfoldable pub judged : Probe → KeyStatus → KeyStatus
judged (answered_with code other) s =
    if nat_beq code 200 || nat_beq code 201
    then record s { valid = some true }
    else if nat_beq code 401
    then record s { valid = some false; error = some "Invalid or expired key" }
    else if nat_beq code 403
    then record s { valid = some false; error = some "Key lacks required permissions" }
    else record s { valid = some false; error = some other }
judged timed_out s = record s { valid = some false; error = some "Connection timed out" }
judged (raised e) s = record s { valid = some false; error = some e }

-- `validate_key`, whose status has no signup URL; `none` is the error for an unknown provider.
unfoldable pub validate_key : (String → String → Probe) → String → Keyring → Option KeyStatus
unfolding key_status judged raw_key
validate_key endpoint provider k = elim (get provider providers) [
  | none ↦ none
  | some info ↦
      let s : KeyStatus = record (key_status k (provider, info)) { signup_url = "" } in
      some (
        if s.configured
        then judged (endpoint provider (raw_key info k)) s
        else record s { valid = some false; error = some "Key not configured" })
]

module _ (declares : String → String → Bool) where
  -- The lines of a key are replaced.
  unfoldable pub replace_lines : String → String → List EnvLine → List EnvLine
  unfolding key_line
  replace_lines key value [] = []
  replace_lines key value (l ∷ ls) =
      let rest = replace_lines key value ls in
      if declares key l.text then key_line key value ∷ rest else l ∷ rest

  unfoldable pub upsert_env_file : String → String → Option (List EnvLine) → List EnvLine
  unfolding replace_lines end_last key_line
  upsert_env_file key value none = key_line key value ∷ []
  upsert_env_file key value (some ls) =
      let replaced = replace_lines key value ls in
      if any (λ l. declares key l.text) ls
      then replaced
      else end_last replaced ++ (key_line key value ∷ [])

  unfoldable pub remove_from_env_file : String → Option (List EnvLine) → Option (List EnvLine)
  remove_from_env_file key none = none
  remove_from_env_file key (some ls) = some (keep (λ l. not (declares key l.text)) ls)

  unfoldable pub remove_key : String → Keyring → Option (Keyring × KeyStatus)
  unfolding remove_from_env_file
  remove_key provider k = elim (get provider providers) [
    | none ↦ none
    | some info ↦ some (
      record {
        environ = delete info.env_var k.environ;
        env_file = remove_from_env_file info.env_var k.env_file;
      },
      record {
        provider = provider;
        label = info.label;
        env_var = info.env_var;
        configured = false;
        masked_value = "";
        signup_url = "";
        valid = none;
        error = none;
      },
    )
  ]

  unfoldable pub set_key :
      (String → String) → String → String → Keyring → Option (Keyring × KeyStatus)
  unfolding upsert_env_file mask_key
  set_key strip provider value k = elim (get provider providers) [
    | none ↦ none
    | some info ↦
        let v = strip value in
        some (
          record {
            environ = set info.env_var v k.environ;
            env_file = some (upsert_env_file info.env_var v k.env_file);
          },
          record {
            provider = provider;
            label = info.label;
            env_var = info.env_var;
            configured = true;
            masked_value = mask_key v;
            signup_url = "";
            valid = none;
            error = none;
          },
        )
  ]
