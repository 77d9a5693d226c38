-- ===== src/Config/Usable.antt =====
-- Where the environment is complete, no installation of stremio-addon/index.js is refused for its settings.
use debrid_nest.Prelude.{
  ◌/◌, ◌%◌, ◌<◌, ◌≡◌, refl, ap, sym, ◌∙◌, inl, inr, false, not, ◌||◌, Option, none, some, [], ◌∷◌,
  arith, ltb, eqb, if◌then◌else◌, Bool-cases, ◌==◌, nat_eq, text_eq, is_empty, length, take, drop,
  all, length-take,
}
use mathlib.Core.Option
use debrid_nest.Text.{Text, trim}
use debrid_nest.Text.Number.{Decimal}
use debrid_nest.Quality.{Setting, undefined, null, bool, num, str}
use debrid_nest.Server.{is_hex, collapse_duplicated_token}
use debrid_nest.Config.{
  Defaults, UserConfig, Config, is_placeholder_key, config_value, nonzero_or, number_of,
  normalize_user_config, shown, resolve_api_token, resolve_jackett_api_key, config_with, get_config,
  require_config,
}

-- A setting that is left out or is a text.
abbrev pub IsText : Setting → Type 0
IsText undefined = Unit
IsText null = Unit
IsText (bool b) = ⊥
IsText (num n) = ⊥
IsText (str s) = Unit

-- The environment has a token, the address of Jackett and its key.
pub record IsComplete (defaults : Defaults) : Type 0 where
  pub token : is_empty (trim defaults.api_token) ≡ false
  pub url : is_empty defaults.jackett_url ≡ false
  pub key : is_empty defaults.jackett_api_key ≡ false

filled_of : (s : Text) → is_empty (trim s) ≡ false → is_empty s ≡ false
unfolding trim
filled_of [] h = h
filled_of (c ∷ s) h = refl

filled_by_length : (s : Text) → 0 < length s → is_empty s ≡ false
filled_by_length [] h = absurd (omega arith)
filled_by_length (c ∷ s) h = refl

-- What a text setting gives is not empty, where the default is not.
config_value-filled :
    (value : Setting) (fallback : Text)
    → IsText value
    → is_empty fallback ≡ false
    → is_empty (shown (config_value value (str fallback))) ≡ false
unfolding config_value
config_value-filled undefined fallback t h = h
config_value-filled null fallback t h = h
config_value-filled (bool b) fallback t h = elim t [ ]
config_value-filled (num n) fallback t h = elim t [ ]
config_value-filled (str s) fallback t h = elim (Bool-cases (is_empty (trim s))) [
  | inl blank ↦ rw blank h
  | inr given ↦ rw given (filled_of s given)
]

config_value-trim :
    (value : Setting) (fallback : Text)
    → IsText value
    → is_empty (trim fallback) ≡ false
    → is_empty (trim (shown (config_value value (str fallback)))) ≡ false
unfolding config_value
config_value-trim undefined fallback t h = h
config_value-trim null fallback t h = h
config_value-trim (bool b) fallback t h = elim t [ ]
config_value-trim (num n) fallback t h = elim t [ ]
config_value-trim (str s) fallback t h = elim (Bool-cases (is_empty (trim s))) [
  | inl blank ↦ rw blank h
  | inr given ↦ rw given given
]

-- The half of a doubled token is not empty.
collapse-filled :
    (value : Text)
    → is_empty (trim value) ≡ false
    → is_empty (collapse_duplicated_token value) ≡ false
unfolding collapse_duplicated_token
collapse-filled value h = halved (trim value) h
  where
    halved :
        (token : Text)
        → is_empty token ≡ false
        → is_empty (
            if ltb (length token) 64 || (not (eqb (length token % 2) 0) || not (all is_hex token))
            then token
            else if take (length token / 2) token == drop (length token / 2) token
            then take (length token / 2) token
            else token)
          ≡ false
    halved token k = elim (Bool-cases (ltb (length token) 64)) [
      | inl short ↦ rw short k
      | inr long ↦ elim (Bool-cases (not (eqb (length token % 2) 0) || not (all is_hex token))) [
        | inl other ↦ rw (long, other) k
        | inr doubled ↦
            elim (Bool-cases (take (length token / 2) token == drop (length token / 2) token)) [
              | inr apart ↦ rw (long, doubled, apart) k
              | inl same ↦
                  rw (long, doubled, same)
                    (filled_by_length (take (length token / 2) token)
                      (ground (arith, length-take (length token / 2) token)))
            ]
      ]
    ]

module _ (defaults : Defaults) (complete : IsComplete defaults) where
  resolve_jackett_api_key-filled :
      (value : Setting)
      → IsText value
      → is_empty (shown (resolve_jackett_api_key defaults value)) ≡ false
  unfolding resolve_jackett_api_key
  resolve_jackett_api_key-filled value t = elim (Bool-cases (is_placeholder_key value)) [
    | inl placeholder ↦ rw placeholder complete.key
    | inr key ↦ rw key (config_value-filled value defaults.jackett_api_key t complete.key)
  ]

  config_with-usable :
      (user : Option UserConfig) (limit : Decimal)
      → IsText (normalize_user_config user).api_token
      → IsText (normalize_user_config user).jackett_url
      → IsText (normalize_user_config user).jackett_api_key
      → require_config (config_with defaults user limit) ≡ none
  unfolding require_config config_with resolve_api_token
  config_with-usable user limit token url key =
      rw
        (
          collapse-filled _ (
              config_value-trim (normalize_user_config user).api_token defaults.api_token token
                complete.token),
          config_value-filled (normalize_user_config user).jackett_url defaults.jackett_url url
              complete.url,
          resolve_jackett_api_key-filled (normalize_user_config user).jackett_api_key key,
        )
        refl

-- Where the environment has a token, the address of Jackett and its key, `requireConfig` accepts every
-- configuration that `getConfig` reads of a user whose token, address and key are texts or left out:
-- also blank ones, placeholders, and tokens that stand twice.
pub get_config-IsAccepted :
    (defaults : Defaults) (user : Option UserConfig) (config : Config)
    → IsComplete defaults
    → IsText (normalize_user_config user).api_token
    → IsText (normalize_user_config user).jackett_url
    → IsText (normalize_user_config user).jackett_api_key
    → get_config defaults user ≡ some config
    → require_config config ≡ none
unfolding get_config
get_config-IsAccepted defaults user config complete token url key read =
    accepted
      (nonzero_or
        (number_of (config_value (normalize_user_config user).max_results defaults.max_results)) 5)
      read
  where
    accepted :
        (o : Option Decimal)
        → Option.map (config_with defaults user) o ≡ some config
        → require_config config ≡ none
    accepted none e = absurd (cc e)
    accepted (some limit) e =
        let same : config_with defaults user limit ≡ config = cc e in
        ap require_config (sym same) ∙ config_with-usable defaults complete user limit token url key
