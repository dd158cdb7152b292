-- ===== src/Client/Calls.antt =====
-- The calls of src/client.c: cachercise_say_hello, cachercise_compute_sum and cachercise_io. A
-- request goes through Margo; `Answer` says how far it gets, and `transport` is Margo and whoever
-- answers.
use cachercise.Base.{ℕ, List, Option, none, some, ltb, ◌==◌, if◌then◌else◌}
use cachercise.Base.Int.{ℤ}
use cachercise.Base.Run.{Run, ok, ◌>>=◌}
use cachercise.Common.{
  ReturnCode, success, err_from_mercury, is_success, to_int, to_int32, sign_extend, write, read,
}
use cachercise.Messages.{HelloIn, SumIn, SumOut, IoIn, IoOut}
use cachercise.Client.{Handle}
use cachercise.Client.Bytes.{word, bytes, memcpy}

-- margo_create, margo_provider_forward or margo_get_output fails, or all succeed with an output.
pub data Answer (Out : Type 0) : Type 0 where
  no_handle not_forwarded no_output : Answer Out
  output : Out → Answer Out

-- `hello` has no response to wait for.
unfoldable pub say_hello : (HelloIn → Answer (Unit {0})) → Handle → ReturnCode
say_hello transport handle = elim (transport (record { cache_id = handle.cache_id })) [
  | no_handle ↦ err_from_mercury
  | not_forwarded ↦ err_from_mercury
  | _ ↦ success
]

-- The value comes back where `*result` is written.
unfoldable pub sum_answer : Answer SumOut → ReturnCode × Option ℤ
sum_answer no_handle = (err_from_mercury, none)
sum_answer not_forwarded = (err_from_mercury, none)
sum_answer no_output = (err_from_mercury, none)
sum_answer (output out) = (out.ret, if is_success out.ret then some out.result else none)

unfoldable pub compute_sum : (SumIn → Answer SumOut) → Handle → (x y : ℤ) → ReturnCode × Option ℤ
unfolding sum_answer
compute_sum transport handle x y =
    sum_answer (transport (record { cache_id = handle.cache_id; x = x; y = y }))

-- `in.scratch`, whose bytes on the stack are `stack`: a write copies eight bytes at most into it.
unfoldable pub scratch_in : (stack : ℕ) → (buf : List ℕ) → (count kind : ℕ) → Run ℕ
unfolding memcpy word bytes
scratch_in stack buf count kind =
    if kind == write
    then (do s ← memcpy (bytes 8 stack) buf (if ltb 8 count then 8 else count); ok (word s))
    else ok stack

-- `in.count` was set before `count` was cut.
abbrev pub io_input : Handle → (count offset kind scratch : ℕ) → IoIn
io_input handle count offset kind scratch = record {
  cache_id = handle.cache_id;
  count = count;
  offset = offset;
  scratch = scratch;
  kind = sign_extend kind;
}

-- What is returned, and the buffer. `out.ret` is not read.
unfoldable pub io_answer : (buf : List ℕ) → (kind : ℕ) → Answer IoOut → Run (ℕ × List ℕ)
unfolding memcpy bytes to_int
io_answer buf kind no_handle = ok (to_int err_from_mercury, buf)
io_answer buf kind not_forwarded = ok (to_int err_from_mercury, buf)
io_answer buf kind no_output = ok (to_int err_from_mercury, buf)
io_answer buf kind (output out) =
    if kind == read
    then (do
      let n = if ltb 8 out.bytes then 8 else out.bytes
      buf' ← memcpy buf (bytes 8 out.scratch) n
      ok (to_int32 n, buf'))
    else ok (to_int32 out.bytes, buf)

unfoldable pub io :
    (IoIn → Answer IoOut)
    → (stack : ℕ) → Handle
    → (buf : List ℕ) → (count offset kind : ℕ) → Run (ℕ × List ℕ)
unfolding scratch_in io_answer
io transport stack handle buf count offset kind = do
  scratch ← scratch_in stack buf count kind
  io_answer buf kind (transport (io_input handle count offset kind scratch))
