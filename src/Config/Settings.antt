-- ===== src/Config/Settings.antt =====
-- `Load` of internal/config/config.go: the settings and their defaults. `os.Getenv` is an argument,
-- behind the best effort to read the file `.env`; so is the reading of a number.
use opengnk.Prelude.{
  ◌+◌, ◌-◌, Bool, ◌&&◌, ◌||◌, ◌⊎◌, inl, inr, List, [], ◌∷◌, ◌++◌, Option, none, some, leb,
  if◌then◌else◌, length, take, drop,
}
use opengnk.Text.{Bytes, codes, equal}
use opengnk.Text.Trim.{trim_space}
use opengnk.Upstream.{trim_right_slash}
use opengnk.Config.{WalletCfg, Env, Problem, wallets, problem, load_wallets}

-- `F` is the type of the threshold.
pub record Cfg (F : Type 0) : Type 0 where
  pub wallets : List WalletCfg
  pub source_url : Bytes
  pub simulate_tool_calls : Bool
  pub native_tool_calls : Bool
  pub sanitize_enabled : Bool
  pub sanitize_ner : Bool
  pub sanitize_ner_url : Bytes
  pub sanitize_llm : Bool
  pub sanitize_llm_url : Bytes
  pub sanitize_llm_model : Bytes
  pub sanitize_llm_threshold : F
  pub listen_addr : Bytes

-- `strings.TrimSuffix`.
unfoldable pub trim_suffix : Bytes → Bytes → Bytes
trim_suffix suffix s =
    let n = length s - length suffix in
    if leb (length suffix) (length s) && equal (drop n s) suffix then take n s else s

-- `strings.EqualFold` with a text of lower-case letters that no other sign folds to.
unfoldable pub lower : Bytes → Bytes
lower [] = []
lower (c ∷ s) = (if leb b'A' c && leb c b'Z' then c + 32 else c) ∷ lower s

-- A value that is empty is replaced.
unfoldable pub or_else : Bytes → Bytes → Bytes
or_else default value = if leb (length value) 0 then default else value

module _ (getenv : Bytes → Bytes) where
  -- A variable without the white space around it.
  unfoldable pub setting : Bytes → Bytes
  setting name = trim_space (getenv name)

  -- `raw == "1" || strings.EqualFold(raw, "true")`.
  unfoldable pub switch : Bytes → Bool
  switch name = equal (setting name) (codes "1") || equal (lower (setting name)) (codes "true")

  unfoldable pub source : Bytes
  source = trim_suffix (codes "/v1") (
      trim_right_slash (
        or_else (codes "http://node2.gonka.ai:8000")
          (or_else (setting (codes "GONKA_ENDPOINT")) (setting (codes "GONKA_SOURCE_URL")))))

  abbrev env_of : Env
  env_of = record {
    gonka_wallets = getenv (codes "GONKA_WALLETS");
    gonka_private_key = getenv (codes "GONKA_PRIVATE_KEY");
    gonka_address = getenv (codes "GONKA_ADDRESS");
  }

  module _ {F : Type 0} (zero_value : F) (scan : Bytes → Option F) where
    -- The number, where there is one and it can be read.
    unfoldable pub threshold : F
    threshold =
        let raw = setting (codes "SANITIZE_LLM_THRESHOLD") in
        if leb (length raw) 0
        then zero_value
        else elim (scan raw) [ none ↦ zero_value | some f ↦ f ]

    unfoldable pub settings : List WalletCfg → Cfg F
    settings ws = record {
      wallets = ws;
      source_url = source;
      simulate_tool_calls = switch (codes "SIMULATE_TOOL_CALLS");
      native_tool_calls = switch (codes "NATIVE_TOOL_CALLS");
      sanitize_enabled = switch (codes "SANITIZE");
      sanitize_ner = switch (codes "SANITIZE_NER");
      sanitize_ner_url =
          or_else (codes "http://sanitize-ner:8001") (setting (codes "SANITIZE_NER_URL"));
      sanitize_llm = switch (codes "SANITIZE_LLM");
      sanitize_llm_url = or_else (codes "http://ollama:11434") (setting (codes "SANITIZE_LLM_URL"));
      sanitize_llm_model = or_else (codes "qwen2.5:0.5b") (setting (codes "SANITIZE_LLM_MODEL"));
      sanitize_llm_threshold = threshold;
      listen_addr = codes ":" ++ or_else (codes "8080") (setting (codes "PORT"));
    }

    -- `Load`; an error is one of the wallets.
    unfoldable pub load : Problem ⊎ Cfg F
    load = elim (load_wallets env_of) [ problem e ↦ inl e | wallets ws ↦ inr (settings ws) ]
