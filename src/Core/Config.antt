-- ===== src/Core/Config.antt =====
-- The secrets of jenezis/core/config.py. The environment and the files are parameters; a validator with
-- `mode='before'` sees the value that the environment gives, or else the default.
use jenezis.Prelude.{[], ◌++◌, is_empty, Option, none, some, Text, codes, strip, if◌then◌else◌}

-- `content` is the text of a file, where the path exists and is a file.
pub record Environment : Type 0 where
  pub get : Text → Option Text
  pub content : Text → Option Text

unfoldable pub read_secret_file : Environment → Text → Option Text
read_secret_file env env_var_name = elim (env.get (env_var_name ++ codes "_FILE")) [
  | none ↦ none
  | some secret_path ↦
      if is_empty secret_path
      then none
      else elim (env.content secret_path) [ none ↦ none | some text ↦ some (strip text) ]
]

-- `return secret if secret else v`
unfoldable pub load_secret : Environment → Text → Option Text → Option Text
unfolding read_secret_file
load_secret env env_var_name v = elim (read_secret_file env env_var_name) [
  | none ↦ v
  | some secret ↦ if is_empty secret then v else some secret
]

-- What the environment gives for the field itself, or else its default.
abbrev pub given_or : Option Text → Option Text → Option Text
given_or none default = default
given_or (some v) default = some v

pub record Secrets : Type 0 where
  pub openai_api_key : Option Text
  pub anthropic_api_key : Option Text
  pub falkor_password : Option Text
  pub neo4j_password : Option Text
  pub s3_aws_secret_access_key : Option Text

abbrev load_field : Environment → Text → Option Text → Option Text
load_field env name default = load_secret env name (given_or (env.get name) default)

-- The fields of `Settings` that have a validator.
unfoldable pub load_secrets : Environment → Secrets
unfolding load_secret
load_secrets env = record {
  openai_api_key = load_field env (codes "OPENAI_API_KEY") none;
  anthropic_api_key = load_field env (codes "ANTHROPIC_API_KEY") none;
  falkor_password = load_field env (codes "FALKOR_PASSWORD") none;
  neo4j_password = load_field env (codes "NEO4J_PASSWORD") (some []);
  s3_aws_secret_access_key = load_field env (codes "S3_AWS_SECRET_ACCESS_KEY") (some []);
}
