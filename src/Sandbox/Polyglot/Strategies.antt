-- ===== src/Sandbox/Polyglot/Strategies.antt =====
-- worker/sandbox/polyglot: the strategies of the six languages. `sys.executable` is an argument.
use secure_remote_code_execu.Prelude.{true, false, List, [], ◌∷◌, ◌++◌}
use secure_remote_code_execu.Prelude.Texts.{Text, codes}
use secure_remote_code_execu.Sandbox.Polyglot.Strategy.{Strategy}

-- Lines of text, each with its line end.
abbrev lines : List Text → Text
lines [] = []
lines (l ∷ ls) = l ++ (10 ∷ lines ls)

abbrev pub python_strategy : Text → Strategy
python_strategy executable = record {
  language_id = codes "python";
  display_name = codes "Python 3.12";
  file_extension = codes ".py";
  is_compiled = false;
  get_compile_command = λ source_path output_binary_path. [];
  get_execution_command =
      λ target_path. executable ∷ (codes "-u" ∷ (codes "-B" ∷ (target_path ∷ [])));
  get_default_boilerplate = lines (
      codes "# Secure Remote Execution Laboratory"
      ∷ (codes "# Language: Python 3.12"
          ∷ ([]
              ∷ (codes "def main():"
                  ∷ (codes "    print('Hello from the secure Python sandbox!')"
                      ∷ ([]
                          ∷ (codes "if __name__ == '__main__':" ∷ (codes "    main()" ∷ []))))))));
}

abbrev pub c_strategy : Strategy
c_strategy = record {
  language_id = codes "c";
  display_name = codes "C (GCC 14 / C17)";
  file_extension = codes ".c";
  is_compiled = true;
  get_compile_command = λ source_path output_binary_path.
      codes "gcc"
      ∷ (codes "-std=c17"
          ∷ (codes "-O2"
              ∷ (codes "-Wall"
                  ∷ (codes "-fstack-protector-strong"
                      ∷ (codes "-D_FORTIFY_SOURCE=2"
                          ∷ (codes "-fPIE"
                              ∷ (codes "-pie"
                                  ∷ (codes "-Wl,-z,relro,-z,now"
                                      ∷ (codes "-z"
                                          ∷ (codes "noexecstack"
                                              ∷ (source_path
                                                  ∷ (codes "-o"
                                                      ∷ (output_binary_path ∷ [])))))))))))));
  get_execution_command = λ target_path. target_path ∷ [];
  get_default_boilerplate = lines (
      codes "// Secure Remote Execution Laboratory"
      ∷ (codes "// Language: C17 (GCC Hardened)"
          ∷ ([]
              ∷ (codes "#include <stdio.h>"
                  ∷ ([]
                      ∷ (codes "int main(void) {"
                          ∷ (codes "    printf(\"Hello from the hardened C sandbox!\\n\");"
                              ∷ (codes "    return 0;" ∷ (codes "}" ∷ [])))))))));
}

abbrev pub cpp_strategy : Strategy
cpp_strategy = record {
  language_id = codes "cpp";
  display_name = codes "C++20 (G++ 14)";
  file_extension = codes ".cpp";
  is_compiled = true;
  get_compile_command = λ source_path output_binary_path.
      codes "g++"
      ∷ (codes "-std=c++20"
          ∷ (codes "-O2"
              ∷ (codes "-Wall"
                  ∷ (codes "-fstack-protector-strong"
                      ∷ (codes "-D_FORTIFY_SOURCE=2"
                          ∷ (codes "-fPIE"
                              ∷ (codes "-pie"
                                  ∷ (codes "-Wl,-z,relro,-z,now"
                                      ∷ (codes "-z"
                                          ∷ (codes "noexecstack"
                                              ∷ (codes "-ftemplate-depth=128"
                                                  ∷ (source_path
                                                      ∷ (codes "-o"
                                                          ∷ (output_binary_path ∷ []))))))))))))));
  get_execution_command = λ target_path. target_path ∷ [];
  get_default_boilerplate = lines (
      codes "// Secure Remote Execution Laboratory"
      ∷ (codes "// Language: C++20 (G++ Hardened)"
          ∷ ([]
              ∷ (codes "#include <iostream>"
                  ∷ (codes "#include <vector>"
                      ∷ (codes "#include <string>"
                          ∷ ([]
                              ∷ (codes "int main() {"
                                  ∷ (codes
                                        "    std::cout << \"Hello from the hardened C++ sandbox!\" << std::endl;"
                                      ∷ (codes "    return 0;" ∷ (codes "}" ∷ [])))))))))));
}

abbrev pub rust_strategy : Strategy
rust_strategy = record {
  language_id = codes "rust";
  display_name = codes "Rust (rustc 1.79+)";
  file_extension = codes ".rs";
  is_compiled = true;
  get_compile_command = λ source_path output_binary_path.
      codes "rustc"
      ∷ (codes "-O"
          ∷ (codes "--crate-type"
              ∷ (codes "bin"
                  ∷ (codes "-C"
                      ∷ (codes "overflow-checks=on"
                          ∷ (source_path ∷ (codes "-o" ∷ (output_binary_path ∷ []))))))));
  get_execution_command = λ target_path. target_path ∷ [];
  get_default_boilerplate = lines (
      codes "// Secure Remote Execution Laboratory"
      ∷ (codes "// Language: Rust 2021 Edition"
          ∷ ([]
              ∷ (codes "fn main() {"
                  ∷ (codes "    println!(\"Hello from the memory-safe Rust sandbox!\");"
                      ∷ (codes "}" ∷ []))))));
}

abbrev pub go_strategy : Strategy
go_strategy = record {
  language_id = codes "go";
  display_name = codes "Go (1.22+)";
  file_extension = codes ".go";
  is_compiled = true;
  get_compile_command = λ source_path output_binary_path.
      codes "go"
      ∷ (codes "build"
          ∷ (codes "-ldflags"
              ∷ (codes "-s -w" ∷ (codes "-o" ∷ (output_binary_path ∷ (source_path ∷ []))))));
  get_execution_command = λ target_path. target_path ∷ [];
  get_default_boilerplate = lines (
      codes "// Secure Remote Execution Laboratory"
      ∷ (codes "// Language: Go 1.22+"
          ∷ ([]
              ∷ (codes "package main"
                  ∷ ([]
                      ∷ (codes "import \"fmt\""
                          ∷ ([]
                              ∷ (codes "func main() {"
                                  ∷ (codes
                                        "    fmt.Println(\"Hello from the concurrent Go sandbox!\")"
                                      ∷ (codes "}" ∷ []))))))))));
}

abbrev pub node_strategy : Strategy
node_strategy = record {
  language_id = codes "javascript";
  display_name = codes "JavaScript (Node.js 20 LTS)";
  file_extension = codes ".js";
  is_compiled = false;
  get_compile_command = λ source_path output_binary_path. [];
  get_execution_command = λ target_path.
      codes "node"
      ∷ (codes "--max-old-space-size=128" ∷ (codes "--no-warnings" ∷ (target_path ∷ [])));
  get_default_boilerplate = lines (
      codes "// Secure Remote Execution Laboratory"
      ∷ (codes "// Language: JavaScript (Node.js 20)"
          ∷ ([]
              ∷ (codes "function main() {"
                  ∷ (codes "    console.log(\"Hello from the asynchronous Node.js sandbox!\");"
                      ∷ (codes "}" ∷ ([] ∷ (codes "main();" ∷ []))))))));
}
