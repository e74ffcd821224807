-- ===== src/Sandbox/Polyglot/Tests.antt =====
-- The registry of the six languages, for identifiers in small letters, and its theorems at it.
use secure_remote_code_execu.Prelude.{◌≡◌, refl, true, [], ◌∷◌, map, all}
use secure_remote_code_execu.Prelude.Texts.{Text, codes}
use secure_remote_code_execu.PyStr.{is_space, strip_end, rstrip, lstrip, strip}
use secure_remote_code_execu.Sandbox.Polyglot.Registry.{
  aliases, register, initialize, ensure, resolve, is_supported, list_supported,
}

abbrev same : Text → Text
same t = t

abbrev python_path : Text
python_path = codes "/usr/bin/python3"

-- Every alias is supported, and the languages are listed in the order in which they are registered.
aliases_supported : all (λ e. (is_supported same python_path e.0 []).0) aliases ≡ true
unfolding is_supported ensure initialize register resolve strip rstrip lstrip strip_end is_space
aliases_supported = refl

list_supported_ids :
    map (λ l. l.id) (list_supported same python_path []).0
    ≡ codes "python"
      ∷ (codes "c" ∷ (codes "cpp" ∷ (codes "rust" ∷ (codes "go" ∷ (codes "javascript" ∷ [])))))
unfolding list_supported ensure initialize register
list_supported_ids = refl
