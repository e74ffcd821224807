-- ===== src/Sandbox/Polyglot/Strategy.antt =====
-- worker/sandbox/polyglot/base.py: what a language says of how it is compiled and run. A path is
-- its text. `monaco_language_id` is `language_id` in every language of the program.
use secure_remote_code_execu.Prelude.{Bool, List}
use secure_remote_code_execu.Prelude.Texts.{Text}

pub record Strategy : Type 0 where
  pub language_id : Text
  pub display_name : Text
  pub file_extension : Text
  pub is_compiled : Bool
  pub get_compile_command : Text → Text → List Text
  pub get_execution_command : Text → List Text
  pub get_default_boilerplate : Text
