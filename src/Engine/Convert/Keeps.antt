-- ===== src/Engine/Convert/Keeps.antt =====
-- What the conversions do to the roots, the run state and the ref table.
use mquickjs_kmp.Prelude.{ℕ, Bool, false, none, arith, List}
use mquickjs_kmp.Buffer.{Buffer}
use mquickjs_kmp.Engine.Actions.{
  alloc_answer, find_slot, new_slot, release_slot, Dest, to_str, to_stack, to_fresh, replace_text,
  fail_message,
}
use mquickjs_kmp.Engine.Convert.{
  copy_js_string, json_stringify, stringify_fails, call_stringify, find_stringify, number_to_out,
  text_to_out, object_to_out, fixed_text, error_stack, from_host, ref_to_out, json_to_out,
  value_to_out, exception_text, exception_to_out, parse_terminated, throw_message, number_from_host,
  value_from_host, eval_json,
}
use mquickjs_kmp.Engine.Keeps.{
  Steady-refl, Keeps, keep, Meets, branch, cased, bind, next, push_then, pop_then, wrote-Meets,
  asked, done,
}
use mquickjs_kmp.Engine.Laws.{VmKeeps}
use mquickjs_kmp.Engine.{Bytes, Tag, Value, Doubles, Engine, Vm}
use mquickjs_kmp.GcRefs.{GcRefs, GcRefsLaws}
use mquickjs_kmp.Slots.Outside.{slot_new-Same, ref_release-Same}
use mquickjs_kmp.Slots.{Table}
use mquickjs_kmp.Slots.Preserve.{Valid, slot_new-Valid, ref_release-Valid}

module _ {g : GcRefs} where
  -- Other answers of the allocator, and other buffers, change nothing that is kept.
  pub allocs-Valid : (t : Table g) (a : List Bool) → Valid g t → Valid g (record t { allocs = a })
  allocs-Valid t a (free, v) = (
    free,
    record {
      path = v.path;
      distinct = v.distinct;
      complete = v.complete;
      gens = v.gens;
      rooted = v.rooted;
      room = v.room;
      few = v.few;
    },
  )

  -- So does an engine with other ones of both.
  others_keep :
      (e : Engine g) (a : List Bool) (out stack : Buffer)
      → Keeps e
          (record e { table = record (e.table) { allocs = a }; out_str = out; out_stack = stack })
  others_keep e a out stack = record {
    roots = λ _. omega arith;
    state = Steady-refl e.state;
    table = allocs-Valid e.table a;
    rest = λ _. g.same_refl e.table.ctx;
  }

  pub alloc_answer-Meets : Meets 0 none (alloc_answer g)
  unfolding alloc_answer
  alloc_answer-Meets = record { from = λ e. others_keep e _ e.out_str e.out_stack }

  pub replace_text-Meets : (dest : Dest) (p : Bytes) → Meets 0 none (replace_text g dest p)
  unfolding replace_text
  replace_text-Meets to_str p = record { from = λ e. others_keep e _ _ e.out_stack }
  replace_text-Meets to_stack p = record { from = λ e. others_keep e _ e.out_str _ }
  replace_text-Meets to_fresh p = record { from = λ e. others_keep e _ e.out_str e.out_stack }

  pub new_slot-Meets : GcRefsLaws g → (v : g.Val) → Meets 0 none (new_slot g v)
  unfolding new_slot
  new_slot-Meets laws v = record {
    from = λ e. record {
      roots = λ _. omega arith;
      state = Steady-refl e.state;
      table = slot_new-Valid g laws e.table v;
      rest = λ _. slot_new-Same g laws e.table v;
    };
  }

  pub release_slot-Meets : GcRefsLaws g → (ref : ℕ) → Meets 0 none (release_slot g ref)
  unfolding release_slot
  release_slot-Meets laws ref = record {
    from = λ e. record {
      roots = λ _. omega arith;
      state = Steady-refl e.state;
      table = ref_release-Valid g laws e.table ref;
      rest = ref_release-Same g laws e.table ref;
    };
  }

  pub find_slot-Meets : (ref : ℕ) → Meets 0 none (find_slot g ref)
  unfolding find_slot
  find_slot-Meets ref = record { from = λ e. keep e }

  pub fail_message-Meets : (d : Doubles) (p : Bytes) → Meets 0 none (fail_message g d p)
  unfolding fail_message
  fail_message-Meets d p = bind (replace_text-Meets to_str p) (λ r. done _)

module _ {g : GcRefs} {d : Doubles} (vm : Vm g d) (k : VmKeeps vm) where
  pub copy_js_string-Meets : (v : g.Val) (dest : Dest) → Meets 0 none (copy_js_string vm v dest)
  unfolding copy_js_string
  copy_js_string-Meets v dest =
      bind (k.to_c_string v)
        (λ text. cased text (done _) (λ p. bind (replace_text-Meets dest p) (λ r. done _)))

  stringify_fails-Meets : Meets 1 none (stringify_fails vm)
  unfolding stringify_fails
  stringify_fails-Meets = pop_then (done _)

  call_stringify-Meets :
      (arg : Engine g → g.Val) (func : g.Val) → Meets 1 none (call_stringify vm arg func)
  unfolding call_stringify
  call_stringify-Meets arg func = next (asked arg k.push_arg) (
      next (k.push_arg func)
        (next (asked _ k.push_arg) (bind (k.call 1) (λ res. pop_then (done _)))))

  find_stringify-Meets : (arg : Engine g → g.Val) → Meets 1 none (find_stringify vm arg)
  unfolding find_stringify
  find_stringify-Meets arg = bind (asked _ (λ json. k.get_property_str json _)) (λ func.
      branch _ stringify_fails-Meets (
        bind (k.stack_check 3)
          (λ short. branch short stringify_fails-Meets (call_stringify-Meets arg func))))

  pub json_stringify-Meets : (arg : Engine g → g.Val) → Meets 0 none (json_stringify vm arg)
  unfolding json_stringify
  json_stringify-Meets arg = push_then (
      bind (asked _ (λ global. k.get_property_str global _)) (λ json.
        next (wrote-Meets json) (branch _ stringify_fails-Meets (find_stringify-Meets arg))))

  number_to_out-Meets : (v : g.Val) → Meets 0 none (number_to_out vm v)
  unfolding number_to_out
  number_to_out-Meets v = bind (k.to_number v) (λ num. cased num (done _) (λ x. done _))

  text_to_out-Meets :
      (tag : Tag) (v : g.Val) (dest : Dest) → Meets 0 none (text_to_out vm tag v dest)
  unfolding text_to_out
  text_to_out-Meets tag v dest =
      bind (copy_js_string-Meets v dest) (λ text. cased text (done _) (λ p. done _))

  json_to_out-Meets : (v : g.Val) (dest : Dest) → Meets 0 none (json_to_out vm v dest)
  unfolding json_to_out
  json_to_out-Meets v dest = push_then (
      next (wrote-Meets v) (
        bind (json_stringify-Meets _) (λ json. pop_then (
          branch (vm.is_exception json) (done _)
            (branch (vm.is_undefined json) (done _) (text_to_out-Meets Tag.object json dest))))))

  fixed_text-Meets : Meets 0 none (fixed_text vm)
  unfolding fixed_text
  fixed_text-Meets = next k.get_exception (bind (replace_text-Meets to_str _) (λ r. done _))

  exception_text-Meets : Meets 0 none (exception_text vm)
  unfolding exception_text
  exception_text-Meets = bind (asked _ k.to_string) (λ s.
      branch _ fixed_text-Meets
        (bind (copy_js_string-Meets s to_str) (λ text. cased text fixed_text-Meets (λ p. done _))))

  error_stack-Meets : Meets 0 none (error_stack vm)
  unfolding error_stack
  error_stack-Meets = bind (asked _ (λ exc. k.get_property_str exc _)) (λ s.
      branch _ (next k.get_exception (done _))
        (asked _ (λ string. branch string (copy_js_string-Meets s to_stack) (done _))))

  pub exception_to_out-Meets : Meets 0 none (exception_to_out vm)
  unfolding exception_to_out
  exception_to_out-Meets = push_then (
      bind k.get_exception (λ exc. next (wrote-Meets exc) (
        bind exception_text-Meets (λ text.
          bind (asked _ (λ error. branch error error_stack-Meets (done _)))
            (λ trace. pop_then (done _))))))

  pub parse_terminated-Meets :
      (text filename : Bytes) (flags : ℕ) (run : Bool)
      → Meets 0 none (parse_terminated vm text filename flags run)
  unfolding parse_terminated
  parse_terminated-Meets text filename flags run = bind alloc_answer-Meets (λ ok.
      branch ok (branch run (k.eval _ _ filename flags) (k.parse _ _ filename flags))
        k.throw_out_of_memory)

  pub throw_message-Meets : (text : Bytes) → Meets 0 none (throw_message vm text)
  unfolding throw_message
  throw_message-Meets text =
      bind alloc_answer-Meets (λ ok. branch ok (k.throw_error _) k.throw_out_of_memory)

  number_from_host-Meets : (x : d.Num) → Meets 0 none (number_from_host vm x)
  unfolding number_from_host
  number_from_host-Meets x = branch _ (k.new_int32 _) (k.new_float64 x)

  from_host-Meets : (tag : Tag) (v : Value d.Num) → Meets 0 none (from_host vm tag v)
  unfolding from_host
  from_host-Meets Tag.undefined v = done _
  from_host-Meets Tag.null v = done _
  from_host-Meets Tag.bool v = done _
  from_host-Meets Tag.number v = number_from_host-Meets v.num
  from_host-Meets Tag.string v = k.new_string_len _
  from_host-Meets Tag.object v =
      cased v.str (done _) (λ p. parse_terminated-Meets p _ eval_json false)
  from_host-Meets Tag.ref v =
      bind (find_slot-Meets v.ref) (λ s. cased s (k.throw_type_error _) (λ slot. done _))
  from_host-Meets Tag.exception v = throw_message-Meets _
  from_host-Meets (Tag.other n) v = throw_message-Meets _

  pub value_from_host-Meets : (v : Value d.Num) → Meets 0 none (value_from_host vm v)
  unfolding value_from_host
  value_from_host-Meets v = from_host-Meets v.tag v

module _ {g : GcRefs} (laws : GcRefsLaws g) {d : Doubles} (vm : Vm g d) (k : VmKeeps vm) where
  ref_to_out-Meets : (v : g.Val) → Meets 0 none (ref_to_out vm v)
  unfolding ref_to_out
  ref_to_out-Meets v = asked _ (λ kind.
      bind (new_slot-Meets laws v) (λ ref. branch _ (next k.throw_out_of_memory (done _)) (done _)))

  object_to_out-Meets :
      (v : g.Val) (dest : Dest) (flags : ℕ) → Meets 0 none (object_to_out vm v dest flags)
  unfolding object_to_out
  object_to_out-Meets v dest flags =
      branch _ (ref_to_out-Meets v)
        (asked _ (λ function. branch function (done _) (json_to_out-Meets vm k v dest)))

  pub value_to_out-Meets :
      (v : g.Val) (dest : Dest) (flags : ℕ) → Meets 0 none (value_to_out vm v dest flags)
  unfolding value_to_out
  value_to_out-Meets v dest flags = branch (vm.is_undefined v) (done _) (
      branch (vm.is_null v) (done _) (
        branch (vm.is_bool v) (done _) (
          asked (λ e. vm.is_number e v)
            (λ number. branch number (number_to_out-Meets vm k v) (
              asked (λ e. vm.is_string e v)
                (λ string.
                  branch string (text_to_out-Meets vm k Tag.string v dest)
                    (object_to_out-Meets v dest flags)))))))
