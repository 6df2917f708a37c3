-- ===== src/Storage/Costs/Cache.antt =====
-- The cache of the encoders does not change an estimate.
use jenezis.Prelude.{
  ℕ, ◌*◌, ◌≡◌, refl, false, ap, sym, ◌∙◌, Bool-cases, Option-cases, List, none, some, length,
  lookup, lookup-insert, Text, Text_eq, text_eq, text_eq_iff, inl, inr, arith,
}
use jenezis.Storage.Costs.{
  Tiktoken, Texts, TokenType, is_falsy, joined, price_of, model_prices, new_encoder, get_encoder,
  estimate_cost,
}

-- The price for a token of a model, 0 where the model has none.
abbrev pub price : Text → TokenType → ℕ
price model_name token_type = elim (lookup model_name model_prices) [
  | none ↦ 0
  | some prices ↦ price_of token_type prices
]

module _ {T : Type 0} (tiktoken : Tiktoken T) where
  -- Each entry is the encoder that tiktoken gives for its name.
  abbrev pub IsCache : List (Text × (Text → List T)) → Type 0
  IsCache encodings =
      (m : Text) (encoder : Text → List T)
      → lookup m encodings ≡ some encoder
      → encoder ≡ new_encoder tiktoken m

  get_encoder-IsCache :
      (encodings : List (Text × (Text → List T))) (model_name : Text)
      → IsCache encodings
      → ((get_encoder tiktoken encodings model_name).0 ≡ new_encoder tiktoken model_name)
        × IsCache (get_encoder tiktoken encodings model_name).1
  unfolding get_encoder
  get_encoder-IsCache encodings model_name h = elim (Option-cases (lookup model_name encodings)) [
    | inr (encoder, f) ↦ rw (get_encoder, f) (h model_name encoder f, h)
    | inl missing ↦
        rw (get_encoder, missing)
          (
            refl,
            λ m encoder e.
                let e' =
                  sym (lookup-insert model_name m (new_encoder tiktoken model_name) encodings)
                  ∙ e in
                elim (Bool-cases (text_eq m model_name)) [
                  | inl same ↦
                      let found : some (new_encoder tiktoken model_name) ≡ some encoder =
                        rw same at e' in
                      let eq = (text_eq_iff m model_name).0 same in rw eq (cc found)
                  | inr other ↦ h m encoder (rw other at e')
                ],
          )
  ]

  -- With a cache of tiktoken's encoders, the cost of a text that is not empty is the number of tokens
  -- that the model's encoder gives for it, times the price of its model, and the cache stays one.
  pub estimate_cost-IsCache :
      (encodings : List (Text × (Text → List T))) (model_name : Text) (text : Texts)
      (token_type : TokenType)
      → IsCache encodings
      → is_falsy text ≡ false
      → ((estimate_cost tiktoken encodings model_name text token_type).0
          ≡ length (new_encoder tiktoken model_name (joined text)) * price model_name token_type)
        × IsCache (estimate_cost tiktoken encodings model_name text token_type).1
  unfolding estimate_cost
  estimate_cost-IsCache encodings model_name text token_type h full =
      elim (Option-cases (lookup model_name model_prices)) [
        | inl unknown ↦
            let free : price model_name token_type ≡ 0 = rw (price, unknown) refl in
            let tokens = length (new_encoder tiktoken model_name (joined text)) in
            let none' : 0 ≡ tokens * 0 = omega arith in
            rw (estimate_cost, unknown) (none' ∙ ap (λ p. tokens * p) (sym free), h)
        | inr (prices, f) ↦
            let (same, cached) = get_encoder-IsCache encodings model_name h in
            let own : price model_name token_type ≡ price_of token_type prices =
              rw (price, f) refl in
            rw (estimate_cost, f, full)
              (
                ap (λ enc. length (enc (joined text)) * price_of token_type prices) same
                    ∙ ap (λ p. length (new_encoder tiktoken model_name (joined text)) * p)
                        (sym own),
                cached,
              )
      ]
