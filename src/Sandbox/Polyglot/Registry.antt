-- ===== src/Sandbox/Polyglot/Registry.antt =====
-- worker/sandbox/polyglot/registry.py: `LanguageRegistry`. Its dictionary of strategies is a list of
-- entries in the order of insertion. `str.lower` and `sys.executable` are arguments.
pub mod Laws
use secure_remote_code_execu.Prelude.{
  Bool, true, false, Option, none, some, List, [], ◌∷◌, ◌++◌, map, any, ◌==◌, list_eq, nat_eq,
  if◌then◌else◌, Result, ok, err,
}
use secure_remote_code_execu.Prelude.Texts.{Text, codes, join}
use secure_remote_code_execu.PyStr.{strip}
use secure_remote_code_execu.Sandbox.Polyglot.Strategy.{Strategy}
use secure_remote_code_execu.Sandbox.Polyglot.Strategies.{
  python_strategy, c_strategy, cpp_strategy, rust_strategy, go_strategy, node_strategy,
}

-- A dictionary, its entries in order.
abbrev pub Dict {ℓ} : Type ℓ → Type ℓ
Dict A = List (Text × A)

-- `d.get(key)`
abbrev pub find {ℓ} : {A : Type ℓ} → Text → Dict A → Option A
find key [] = none
find key ((k, v) ∷ rest) = let later = find key rest in if k == key then some v else later

-- `d[key] = v`: the entry keeps its place, or is a new one at the end.
abbrev pub put {ℓ} : {A : Type ℓ} → Text → A → Dict A → Dict A
put key v [] = (key, v) ∷ []
put key v ((k, w) ∷ rest) =
    let later = put key v rest in if k == key then (k, v) ∷ rest else (k, w) ∷ later

abbrev pub aliases : Dict Text
aliases =
    (codes "py", codes "python")
    ∷ ((codes "python3", codes "python")
        ∷ ((codes "c++", codes "cpp")
            ∷ ((codes "cplusplus", codes "cpp")
                ∷ ((codes "rs", codes "rust")
                    ∷ ((codes "golang", codes "go")
                        ∷ ((codes "js", codes "javascript")
                            ∷ ((codes "node", codes "javascript")
                                ∷ ((codes "nodejs", codes "javascript") ∷ []))))))))

-- What `list_supported` says of a language.
pub record Language : Type 0 where
  pub id : Text
  pub name : Text
  pub extension : Text
  pub is_compiled : Bool
  pub monaco_id : Text
  pub boilerplate : Text

abbrev describe : Strategy → Language
describe s = record {
  id = s.language_id;
  name = s.display_name;
  extension = s.file_extension;
  is_compiled = s.is_compiled;
  monaco_id = s.language_id;
  boilerplate = s.get_default_boilerplate;
}

abbrev pub or_self : Text → Option Text → Text
or_self norm none = norm
or_self norm (some target) = target

abbrev pub strategy_or_error : Text → Dict Strategy → Option Strategy → Result Text Strategy
strategy_or_error language_id strategies none = err (
    codes "Unsupported programming language '"
    ++ (language_id
        ++ (codes "'. Supported runtimes: " ++ join (codes ", ") (map (λ e. e.0) strategies))))
strategy_or_error language_id strategies (some s) = ok s

abbrev found {ℓ} : {A : Type ℓ} → Option A → Bool
found none = false
found (some a) = true

module _ (lower : Text → Text) where
  unfoldable pub register : Strategy → Dict Strategy → Dict Strategy
  register s strategies = put (lower s.language_id) s strategies

  unfoldable pub resolve : Text → Text
  resolve language_id = let norm = lower (strip language_id) in or_self norm (find norm aliases)

module _ (lower : Text → Text) (executable : Text) where
  unfoldable pub initialize : Dict Strategy → Dict Strategy
  initialize strategies = register lower node_strategy (
      register lower go_strategy (
        register lower rust_strategy (
          register lower cpp_strategy
            (register lower c_strategy (register lower (python_strategy executable) strategies)))))

  -- `if not cls._strategies: cls.initialize()`
  unfoldable pub ensure : Dict Strategy → Dict Strategy
  ensure [] = initialize []
  ensure (s ∷ rest) = s ∷ rest

  -- The strategy and the strategies behind the call, or the message of the `ValueError`.
  unfoldable pub get : Text → Dict Strategy → Result Text Strategy × Dict Strategy
  get language_id before =
      let strategies = ensure before in
      (
        strategy_or_error language_id strategies (find (resolve lower language_id) strategies),
        strategies,
      )

  unfoldable pub is_supported : Text → Dict Strategy → Bool × Dict Strategy
  is_supported language_id before =
      let strategies = ensure before in
      (found (find (resolve lower language_id) strategies), strategies)

  unfoldable pub list_supported : Dict Strategy → List Language × Dict Strategy
  list_supported before =
      let strategies = ensure before in (map (λ e. describe e.1) strategies, strategies)
