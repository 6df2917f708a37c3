-- ===== src/Storage/Costs.antt =====
-- `CostTracker` of jenezis/storage/cost_tracker.py. tiktoken is a parameter. A price is in cents for a
-- million tokens and a cost in millionths of a cent, so that the division is exact.
pub mod Cache
use jenezis.Prelude.{
  ℕ, ◌*◌, Bool, List, [], ◌∷◌, ◌++◌, Option, none, some, is_empty, length, lookup, insert, Text,
  Text_eq, codes, if◌then◌else◌,
}

pub record Prices : Type 0 where
  pub input : ℕ
  pub output : Option ℕ

abbrev pub model_prices : List (Text × Prices)
model_prices =
    (codes "text-embedding-3-small", record { input = 2; output = none })
    ∷ (codes "text-embedding-3-large", record { input = 13; output = none })
    ∷ (codes "gpt-3.5-turbo", record { input = 50; output = some 150 })
    ∷ (codes "gpt-4-turbo", record { input = 1000; output = some 3000 })
    ∷ (codes "claude-3-opus-20240229", record { input = 1500; output = some 7500 })
    ∷ (codes "claude-3-sonnet-20240229", record { input = 300; output = some 1500 })
    ∷ (codes "claude-3-haiku-20240307", record { input = 25; output = some 125 })
    ∷ []

pub data TokenType : Type 0 where
  input : TokenType
  output : TokenType

-- `str | List[str]`
pub data Texts : Type 0 where
  single : Text → Texts
  several : List Text → Texts

abbrev pub is_falsy : Texts → Bool
is_falsy (single t) = is_empty t
is_falsy (several ts) = is_empty ts

-- `"".join`
abbrev pub concat : List Text → Text
concat [] = []
concat (t ∷ ts) = t ++ concat ts

abbrev pub joined : Texts → Text
joined (single t) = t
joined (several ts) = concat ts

-- `MODEL_PRICES[model_name].get(token_type)`, with the input price where there is none.
abbrev pub price_of : TokenType → Prices → ℕ
price_of input prices = prices.input
price_of output prices = elim prices.output [ none ↦ prices.input | some price ↦ price ]

-- `T` is the type of a token, and an encoder gives the tokens of a text. tiktoken finds the encoder of
-- a model, or raises KeyError, and has one of the name `cl100k_base`.
pub record Tiktoken (T : Type 0) : Type 0 where
  pub encoding_for_model : Text → Option (Text → List T)
  pub cl100k_base : Text → List T

module _ {T : Type 0} (tiktoken : Tiktoken T) where
  abbrev pub new_encoder : Text → Text → List T
  new_encoder model_name = elim (tiktoken.encoding_for_model model_name) [
    | none ↦ tiktoken.cl100k_base
    | some encoder ↦ encoder
  ]

  -- The encoder, and the cache with it.
  unfoldable pub get_encoder :
      List (Text × (Text → List T)) → Text → (Text → List T) × List (Text × (Text → List T))
  get_encoder encodings model_name = elim (lookup model_name encodings) [
    | some encoder ↦ (encoder, encodings)
    | none ↦ (new_encoder model_name, insert model_name (new_encoder model_name) encodings)
  ]

  unfoldable pub estimate_cost :
      List (Text × (Text → List T)) → Text → Texts → TokenType → ℕ × List (Text × (Text → List T))
  unfolding get_encoder
  estimate_cost encodings model_name text token_type = elim (lookup model_name model_prices) [
    | none ↦ (0, encodings)
    | some prices ↦
        if is_falsy text
        then (0, encodings)
        else let (encoder, encodings') = get_encoder encodings model_name in
          (length (encoder (joined text)) * price_of token_type prices, encodings')
  ]
