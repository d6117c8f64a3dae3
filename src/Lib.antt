-- ===== src/Lib.antt =====
-- The C code of mquickjs-kmp: the shim native/shim/mquickjs_kmp.c with native/shim/mquickjs_kmp.h and the
-- JNI bridge native/jni/mquickjs_jni.c, which stand between a host (Kotlin, over JNI or cinterop) and the
-- vendored JavaScript engine native/mquickjs; the compiler native/tools/kmpjsc.c; and the tables of the
-- standard library native/stdlib/kmp_stdlib.c.
--
-- The parts, and where they are.
-- Prelude: Boolean tests and lists over the native numbers, and the bytes of ASCII texts.
-- GcRefs: the engine's list of GC roots (JS_AddGCRef, JS_DeleteGCRef), a parameter with its laws. Its
--   relation `Same` stands for what the embedder keeps in the same context.
-- Slots: the ref table. `Table` is the part of kmpjs_engine with slots, slot_cap and free_head (-1 is
--   none), together with the context and the answers that malloc, calloc and realloc have still to
--   give. slot_handle, slot_index, slot_get, slot_new, slot_reserve, slot_free, kmpjs_ref_retain,
--   kmpjs_ref_release and kmpjs_get_stats keep their names, without the prefix kmpjs_. A handle is the
--   bit pattern of an int64_t.
-- RunState: the atomic `state` with run_begin, run_end, kmpjs_interrupt and kmp_interrupt_handler, each
--   one atomic step.
-- Buffer: kmp_buf with buf_reset, buf_append, buf_free and publish.
-- Engine: kmpjs_engine, and actions on it: a function takes the engine and gives a result with the
--   engine that it leaves. The record Vm holds the calls of mquickjs.h, and Doubles the arithmetic on
--   doubles; both are parameters. Engine/Laws.antt states what is assumed of the calls: JavaScript runs
--   in them, which may come back to the shim through the host, and afterwards the roots are balanced,
--   the ref table is valid, and no more than an interrupt has happened to the run state.
--   Convert: value_to_out, value_from_host, exception_to_out and what they call; Trip and Text below it:
--   plain values and strings there and back. Refs: kmpjs_eval,
--   kmpjs_ref_get, _get_index, _set, _to_json and kmpjs_run_program. Calls: kmpjs_ref_call. Host:
--   kmpjs_define_function and js_kmp_host. Params: the id and the flag of a function, there and back.
--   Entries: sequences of calls of the host. Errors: dead handles.
--   Books: the references that each of them takes and gives back, counted for one handle; what is
--   assumed of the calls there is in Books/Laws. Texts: which texts of a reply are in which buffer.
-- Bytecode: the file header, kmpjs_load_bytecode with its checks (Load), and kmpjs_compile (Compile),
--   whose compile context is the parameter Compiler. Compile/Files: what a compiled file consists of.
--   Load/Home and Load/Elsewhere: such files in an engine of the same build, and of another.
-- Lifecycle: kmpjs_create, kmpjs_destroy as the list of its steps, js_print, kmp_write_func and
--   kmpjs_dump_memory. Commands: sequences of all calls that the host makes on an engine, loads of
--   bytecode and interrupts among them. Ledger: the host's own count of its references. Texts: the
--   texts in *out when a call is over. Nesting: worlds in which engine, callbacks and shim call each
--   other to a given depth. Print: the line that print writes.
-- Clock: get_time_ms, get_date_ms, js_date_constructor, js_date_now and js_performance_now; the clocks
--   are parameters.
-- Jni: the JNI bridge native/jni/mquickjs_jni.c, over the frames, pending exceptions and references of
--   a Java VM (JniState), which live in the context beside the GC roots, since Java code in a callback
--   changes them too. Values: the conversions, jni_host and jni_log; Values/Trip: a value to Java and
--   back. Natives: the native methods, each in a frame of its own, their sequences (Entries), and what
--   nativeCompile hands to Java (Compiled).
--   Life: nativeCreate and nativeDestroy. Load: JNI_OnLoad; Load/Members: the ids that it caches.
--   Jni/Keeps.antt holds the relation of a state before and after, with what is owned on the way.
-- Kmpjsc: the command line compiler native/tools/kmpjsc.c, with the file system as a parameter.
--   Arguments: the settings that arguments spell. Runs: from the arguments to the output file.
-- Stdlib: the tables of native/stdlib/kmp_stdlib.c as data (Basics, Collections, Services, Classes,
--   Global), with the macros and types of native/mquickjs/mquickjs_build.h that they are written with.
--   Unique: tables in which one text decides another. Sound: that the entries of the tables agree with
--   one another.
--
-- The parts meet in the engine: each entry of the host finds its slot in the ref table, brackets its run
-- with run_begin and run_end, converts values through the buffers, and hands objects out as new slots.
-- The bridge calls these entries, and its jni_host and jni_log are the callbacks that js_kmp_host and
-- js_print get. What it must keep of the Java VM while JavaScript runs is the relation `Same` of
-- GcRefs, so that what is assumed of a call of the engine speaks of the callbacks inside it. kmpjsc
-- calls kmpjs_compile, and its files are what kmpjs_load_bytecode reads. The tables name the C
-- functions of the shim, js_kmp_host, js_print and those of Clock among them.
--
-- Conventions. A C result of 0 is true, and -1 is false. An int32_t or int64_t is its bit pattern, a
-- natural number. A goto to a common exit is a function of its own. A text in *out is the content that
-- publish shows when it is called. In C it is a pointer, which sees later writes to the same buffer:
-- for those inside the same call see Texts.
-- Buffers and arrays are below 2^31 bytes, and malloc is a list of answers, an empty one being a failure.
-- The loop of buf_append that doubles the capacity has 64 rounds of fuel, as many as a size_t has bits;
-- the relation Loop is the same loop without a bound.
--
-- Not modelled: nativeAbiVersion, nativeWordSize, kmpjs_get_user and what else hands a constant or a
-- field on; local references beyond their number, and Java's own threads; the generator build_atoms of
-- native/mquickjs that reads the tables; the engine native/mquickjs, a vendored copy of
-- bellard/mquickjs whose calls are parameters; the Kotlin code and the build files.
pub mod Prelude
pub mod GcRefs
pub mod Buffer
pub mod Clock
pub mod RunState
pub mod Slots
pub mod Stdlib
pub mod Engine
pub mod Jni
pub mod Kmpjsc
pub mod Lifecycle
pub mod Bytecode
