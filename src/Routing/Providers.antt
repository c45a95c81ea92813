-- ===== src/Routing/Providers.antt =====
-- The providers of glc/routing.py, LIMITS, SHORTCUTS and `resolve`.
use gateway_glc_v.Common.{ℕ, ◌≡◌, ◌↔◌, Bool, true, false, [], ◌∷◌, Option, none, some, arith, Eq}
use gateway_glc_v.Common.Dict.{Dict, get}
use gateway_glc_v.Common.Text.{Text, codes, text_eq, lower}

pub data Provider : Type 0 where
  ollama cerebras groq nvidia gemini openrouter github : Provider

abbrev pub same_provider : Provider → Provider → Bool
same_provider ollama ollama = true
same_provider cerebras cerebras = true
same_provider groq groq = true
same_provider nvidia nvidia = true
same_provider gemini gemini = true
same_provider openrouter openrouter = true
same_provider github github = true
same_provider _ _ = false

pub same_provider_iff : (a b : Provider) → (same_provider a b ≡ true) ↔ (a ≡ b)
same_provider_iff a b = ground arith

instance abbrev pub provider_eq : Eq Provider
provider_eq = record { same = same_provider; same_iff = same_provider_iff }

pub record Limits : Type 0 where
  pub rpm : ℕ
  pub rpd : ℕ
  pub tpm : ℕ
  pub cooldown : ℕ
  pub max_ctx : ℕ
  pub tokens_per_day : Option ℕ

abbrev row : ℕ → ℕ → ℕ → ℕ → ℕ → Option ℕ → Limits
row rpm rpd tpm cooldown max_ctx tokens_per_day = record {
  rpm = rpm;
  rpd = rpd;
  tpm = tpm;
  cooldown = cooldown;
  max_ctx = max_ctx;
  tokens_per_day = tokens_per_day;
}

unfoldable pub limits : Provider → Limits
limits ollama = row 9999 9999999 99999999 0 32000 none
limits cerebras = row 30 9999 60000 2 8000 (some 1000000)
limits groq = row 30 1000 6000 2 100000 none
limits nvidia = row 40 9999 100000 2 100000 none
limits gemini = row 15 1000 250000 4 1000000 none
limits openrouter = row 20 50 99999999 3 100000 none
limits github = row 10 50 99999999 6 8000 none

abbrev pub shortcuts : Dict Text Provider
shortcuts =
    (codes "g", gemini)
    ∷ (codes "gem", gemini)
    ∷ (codes "gemini", gemini)
    ∷ (codes "n", nvidia)
    ∷ (codes "nv", nvidia)
    ∷ (codes "nvidia", nvidia)
    ∷ (codes "o", ollama)
    ∷ (codes "oll", ollama)
    ∷ (codes "ollama", ollama)
    ∷ (codes "gr", groq)
    ∷ (codes "groq", groq)
    ∷ (codes "c", cerebras)
    ∷ (codes "cer", cerebras)
    ∷ (codes "cerebras", cerebras)
    ∷ (codes "or", openrouter)
    ∷ (codes "opr", openrouter)
    ∷ (codes "openrouter", openrouter)
    ∷ (codes "gh", github)
    ∷ (codes "ghb", github)
    ∷ (codes "github", github)
    ∷ []

-- an empty name is no name
unfoldable pub resolve : Text → Option Provider
resolve [] = none
resolve (c ∷ name) = get shortcuts (lower (c ∷ name))

pub data Capability : Type 0 where
  tools reasoning structured vision : Capability
