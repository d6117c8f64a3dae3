-- ===== src/Jni.antt =====
-- The Java VM as native/jni/mquickjs_jni.c sees it: local references in frames, exceptions that
-- wait, and the C blocks and global references that the bridge holds. The VM itself is not code of
-- the repository. Its state is a part of the context of the engine model, since Java code that runs
-- in a callback may change it; what JNI documents of each call is written out here.
pub mod Values
pub mod Keeps
pub mod Life
pub mod Load
pub mod Natives
pub mod Tests
use mquickjs_kmp.Prelude.{
  ℕ, zero, suc, ◌+◌, ◌-◌, ◌≡◌, leb, Bool, true, false, ◌||◌, Option, none, some, List, [], ◌∷◌,
  if◌then◌else◌,
}
use mquickjs_kmp.Buffer.{next_answer, later_answers}
use mquickjs_kmp.Engine.Actions.{alloc_answer}
use mquickjs_kmp.Engine.{Bytes, Tag, Value, Doubles, Engine, Act, pure, ◌>>=◌, ◌>>◌}
use mquickjs_kmp.GcRefs.{GcRefs}

-- A frame of local references: how many PushLocalFrame has promised, and how many there are.
pub record Frame : Type 0 where
  pub capacity : ℕ
  pub used : ℕ

-- `misused` says that some call was made that JNI does not allow: with an exception pending, or on
-- NULL. `crowded` says that some frame held more references than it was promised. `blocks` counts
-- what the bridge has of malloc and kmpjs_alloc and has neither freed nor handed over, `globals` its
-- global references. `answers` are what the VM still answers to a call that may run out of memory.
pub record JniState : Type 0 where
  pub frames : List Frame
  pub attached : Bool
  pub pending : Bool
  pub misused : Bool
  pub crowded : Bool
  pub blocks : ℕ
  pub globals : ℕ
  pub answers : List Bool

-- A call that JNI allows only while no exception is pending.
unfoldable pub calling : JniState → JniState
calling s = record s { misused = s.misused || s.pending }

-- A call on a NULL array.
unfoldable pub misuse : JniState → JniState
misuse s = record s { misused = true }

abbrev pub top_full : List Frame → Bool
top_full [] = true
top_full (f ∷ fs) = leb f.capacity f.used

abbrev pub add_local : List Frame → List Frame
add_local [] = []
add_local (f ∷ fs) = record f { used = suc f.used } ∷ fs

abbrev pub drop_local : List Frame → List Frame
drop_local [] = []
drop_local (f ∷ fs) = record f { used = f.used - 1 } ∷ fs

abbrev pub without_frame : List Frame → List Frame
without_frame [] = []
without_frame (f ∷ fs) = fs

-- One more local reference, and DeleteLocalRef.
unfoldable pub more_local : JniState → JniState
more_local s = record s { frames = add_local s.frames; crowded = s.crowded || top_full s.frames }

unfoldable pub delete_local_ref : JniState → JniState
delete_local_ref s = record s { frames = drop_local s.frames }

-- A call that gives a new object, or NULL with an OutOfMemoryError pending.
unfoldable pub new_local : JniState → Bool × JniState
new_local s =
    let t = record (calling s) { answers = later_answers s.answers } in
    if next_answer s.answers then (true, more_local t) else (false, record t { pending = true })

-- PushLocalFrame, which leaves an OutOfMemoryError pending when it fails, and PopLocalFrame.
unfoldable pub push_local_frame : ℕ → JniState → Bool × JniState
push_local_frame n s =
    let t = record s { answers = later_answers s.answers } in
    if next_answer s.answers
    then (true, record t { frames = record { capacity = n; used = 0 } ∷ s.frames })
    else (false, record t { pending = true })

unfoldable pub pop_local_frame : JniState → JniState
pop_local_frame s = record s { frames = without_frame s.frames }

-- ExceptionClear.
unfoldable pub exception_clear : JniState → JniState
exception_clear s = record s { pending = false }

abbrev pub one_if : Bool → ℕ
one_if true = 1
one_if false = 0

unfoldable pub count_block : Bool → JniState → JniState
count_block b s = record s { blocks = s.blocks + one_if b }

unfoldable pub uncount_block : Bool → JniState → JniState
uncount_block b s = record s { blocks = s.blocks - one_if b }

-- wang.harlon.mquickjs.NativeValue.
pub record NativeValue (Num : Type 0) : Type 0 where
  pub tag : Tag
  pub ref : ℕ
  pub num : Num
  pub str : Option Bytes
  pub stack : Option Bytes

-- The Java side: where its state is in a context, and the static methods of NativeBridge that the
-- shim's callbacks call. A method that throws leaves its exception pending.
pub record Java (g : GcRefs) (d : Doubles) : Type 0 where
  pub state : g.Ctx → JniState
  pub put : JniState → g.Ctx → g.Ctx
  pub on_host_call : ℕ → List (Option (NativeValue d.Num)) → Act g (Option (NativeValue d.Num))
  pub on_log : Option Bytes → Act g (Unit {0})

module _ {g : GcRefs} {d : Doubles} (java : Java g d) where
  abbrev pub jni_state : Engine g → JniState
  jni_state e = java.state e.table.ctx

  abbrev pub with_state : JniState → Engine g → Engine g
  with_state s e = record e { table = record (e.table) { ctx = java.put s e.table.ctx } }

  -- A call of the Java VM that may fail, and one that may not.
  unfoldable pub jni : (JniState → Bool × JniState) → Act g Bool
  jni f e = ((f (jni_state e)).0, with_state (f (jni_state e)).1 e)

  unfoldable pub run_jni : (JniState → JniState) → Act g (Unit {0})
  run_jni f e = (tt, with_state (f (jni_state e)) e)

  -- malloc, calloc or kmpjs_alloc, and free, which does nothing for NULL.
  unfoldable pub take_block : Act g Bool
  take_block = do ok ← alloc_answer g; run_jni (count_block ok); pure g ok

  unfoldable pub free_block : Bool → Act g (Unit {0})
  free_block held = run_jni (uncount_block held)
