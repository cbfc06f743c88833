-- ===== src/Llm/Provider.antt =====
-- backend/services/llm.py: which provider stands in for a failed one. The settings are an argument.
use agentic_ai_software_engi.Base.{
  Text, codes, text_eq, Bool, false, ◌&&◌, ◌||◌, not, Option, none, some, List, [], ◌∷◌, ◌==◌,
  if◌then◌else◌, lower, strip, elem, first, is_set, opt_text, or_text,
}

pub record Settings : Type 0 where
  pub fallback_enabled : Bool
  pub llm_provider : Text
  pub explicit_fallback : Option Text
  pub nvidia_key : Bool
  pub google_key : Bool
  pub openai_key : Bool

unfoldable pub nvidia : Text
nvidia = codes "nvidia"

unfoldable pub gemini : Text
gemini = codes "gemini"

unfoldable pub openai : Text
openai = codes "openai"

-- `p.strip().lower()`
unfoldable pub clean : Text → Text
clean p = lower (strip p)

unfoldable pub has_provider_credentials : Settings → Text → Bool
has_provider_credentials s p =
    if clean p == nvidia
    then s.nvidia_key
    else if clean p == gemini
    then s.google_key
    else if clean p == openai
    then s.openai_key
    else false

-- `_FALLBACK_ORDER.get(primary, ...)`
unfoldable pub fallback_order : Text → List Text
fallback_order p =
    if p == nvidia
    then gemini ∷ openai ∷ []
    else if p == gemini
    then nvidia ∷ openai ∷ []
    else if p == openai
    then nvidia ∷ gemini ∷ []
    else gemini ∷ nvidia ∷ openai ∷ []

abbrev pub is_excluded : Text → Option Text → Text → Bool
is_excluded primary none candidate = candidate == primary
is_excluded primary (some p) candidate = candidate == primary || candidate == clean p

-- The first provider in the order of preference that is not excluded and has credentials.
unfoldable pub preferred : Settings → Text → Option Text → Option Text
preferred s primary exclude =
    first (λ c. not (is_excluded primary exclude c) && has_provider_credentials s c)
      (fallback_order primary)

abbrev pub is_known : Text → Bool
is_known c = elem c (nvidia ∷ gemini ∷ openai ∷ [])

-- The configured provider counts for the first selection only, where nothing is excluded yet.
abbrev pub choose : Settings → Text → Option Text → Text → Option Text
choose s primary exclude candidate =
    if is_known candidate
      && (not (is_excluded primary exclude candidate) && has_provider_credentials s candidate)
    then some candidate
    else preferred s primary exclude

abbrev pub select : Settings → Text → Option Text → Option Text
select s primary (some p) = preferred s primary (some p)
select s primary none =
    if is_set s.explicit_fallback
    then choose s primary none (clean (opt_text s.explicit_fallback))
    else preferred s primary none

-- `get_fallback_provider(primary, exclude)`; at most one provider is ever excluded.
unfoldable pub get_fallback_provider : Settings → Text → Option Text → Option Text
get_fallback_provider s primary exclude =
    if not s.fallback_enabled
    then none
    else select s (clean (or_text primary s.llm_provider)) exclude
