-- ===== src/Tests/Hoards.antt =====
-- The theorems on hoards and on the dummy backend, on a hoard of two elements.
use cachercise.Base.{
  ℕ, ◌-◌, ◌≡◌, refl, none, some, List, [], ◌∷◌, arith, if◌then◌else◌, length, get_elem?, ltb,
}
use cachercise.Base.Run.{Fault, ok, fault, undefined}
use cachercise.Common.{write, read}
use cachercise.Backend.{Contract}
use cachercise.Hoard.{Hoard, put, get}
use cachercise.Hoard.Loops.{within}
use cachercise.Hoard.Bounds.{Fits, Got, get-Got}
use cachercise.Hoard.Contents.{get-put, put-elems}
use cachercise.Dummy.Ownership.{IsHeap, live}
use cachercise.Dummy.Fulfils.{dummy_backend-Contract}
use cachercise.Dummy.Transfers.{io-overrun, io-past_end}
use cachercise.Dummy
use cachercise.Dummy.{parse_config}
use cachercise.Tests.Fixtures.{env, dummy, context, heap}

abbrev two : Hoard
two = 10 ∷ 20 ∷ []

abbrev items : List ℕ
items = 1 ∷ 2 ∷ 3 ∷ []

two-Fits : Fits 1000 two items 3 4
two-Fits = record { addressable = omega arith; room = omega arith; buffer = omega arith }

get-put_example :
    (h' : Hoard) × (dest' : List ℕ) × (put 1000 two items 3 4 ≡ ok (3, h'))
    × (get h' (0 ∷ 0 ∷ 0 ∷ 9 ∷ []) 3 4 ≡ ok (3, dest'))
    × (length dest' ≡ 4)
    × ((j : ℕ)
        → get_elem? dest' j
          ≡ (if ltb j 3 then get_elem? items j else get_elem? (0 ∷ 0 ∷ 0 ∷ 9 ∷ []) j))
get-put_example = get-put 1000 two items (0 ∷ 0 ∷ 0 ∷ 9 ∷ []) 3 4 two-Fits (omega arith)

put-elems_example :
    (h' : Hoard) × (put 1000 two items 3 4 ≡ ok (3, h'))
    × ((j : ℕ)
        → get_elem? h' j ≡ (
            if within 4 3 j
            then get_elem? items (j - 4)
            else if ltb j 2
            then get_elem? two j
            else if ltb j (length h')
            then some 0
            else none))
put-elems_example = put-elems 1000 two items 3 4 two-Fits

get-Got_example : Got two (0 ∷ []) 1 1 (get two (0 ∷ []) 1 1)
get-Got_example = get-Got two (0 ∷ []) 1 1 (omega arith) (omega arith)

dummy_backend-Contract_example : Contract IsHeap live dummy
dummy_backend-Contract_example = dummy_backend-Contract env

io-overrun_example : (e : Fault) × (Dummy.io env 1 16 0 (77 ∷ []) write heap ≡ fault e)
io-overrun_example =
    io-overrun env 1 context heap refl two 16 0 write 77 refl (omega arith) (omega arith)
      (omega arith)

io-past_end_example : Dummy.io env 1 8 2 (77 ∷ []) read heap ≡ fault undefined
io-past_end_example = io-past_end env 1 context heap refl two 2 77 refl (omega arith) (omega arith)

parsed : parse_config env (some "{}") ≡ some 5
unfolding parse_config
parsed = refl
