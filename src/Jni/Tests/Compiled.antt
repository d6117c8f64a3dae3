-- ===== src/Jni/Tests/Compiled.antt =====
-- nativeCompile over a Java VM with memory.
use mquickjs_kmp.Prelude.{◌≡◌, refl, true, some, [], ◌∷◌, ◌++◌, codes}
use mquickjs_kmp.Bytecode.Compile.{
  Compiler, Owned, compile, compile_in_context, parsed, parse_source, prepare, write_file,
}
use mquickjs_kmp.Bytecode.{header_bytes, compiled_header}
use mquickjs_kmp.Engine.Actions.{tagged}
use mquickjs_kmp.Engine.Convert.{until_zero}
use mquickjs_kmp.Engine.Tests.{whole}
use mquickjs_kmp.Engine.{Bytes, Tag}
use mquickjs_kmp.Jni.Natives.Compiled.{compiled_to_java}
use mquickjs_kmp.Jni.Natives.Compiling.{bytecode, native_compile}
use mquickjs_kmp.Jni.Tests.{quiet, quiet_laws, tiny, started, build_here, no_compiler}
use mquickjs_kmp.Jni.Values.Trip.{AtEase}

-- A compiler whose only program has two bytes of header and one of data.
abbrev one_program : Compiler
one_program = record no_compiler { new_context = true; relocated = λ p. (1 ∷ 2 ∷ [], 3 ∷ []) }

abbrev one_file : Bytes
one_file = header_bytes (compiled_header build_here 64) ++ (1 ∷ 2 ∷ 3 ∷ [])

abbrev made : Owned whole
made = record {
  ok = true;
  out = record (tagged whole Tag.string) { str = some one_file };
  allocs = true ∷ [];
}

makes :
    compile whole build_here one_program
      (true ∷ true ∷ true ∷ true ∷ [])
      (codes "f")
      (until_zero (codes "a.js"))
      64
      0
    ≡ some made
unfolding compile compile_in_context parsed parse_source prepare write_file
makes = refl

compiled_to_java_example :
    ((native_compile tiny quiet build_here one_program (codes "f") (codes "a.js") 64 0 started).0
      ≡ bytecode (some one_file))
    × AtEase
        (true ∷ true ∷ [])
        (native_compile tiny quiet build_here one_program
          (codes "f")
          (codes "a.js")
          64
          0
          started).1.table.ctx.1
compiled_to_java_example =
    compiled_to_java tiny quiet_laws build_here one_program (codes "f") (codes "a.js") 64 0 made
      (true ∷ true ∷ []) (true ∷ true ∷ true ∷ true ∷ []) started makes
      (record { answers = refl; calm = refl; proper = refl }) refl
