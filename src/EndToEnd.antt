-- ===== src/EndToEnd.antt =====
-- A client, the provider and the dummy backend together: src/client.c, the `io` handler of
-- src/provider.c, src/dummy/dummy-backend.c and src/hoard.hpp.
pub mod Listed
pub mod Sums
pub mod Created
pub mod Destroyed
pub mod Opened
use cachercise.Base.{
  ℕ, ◌+◌, ◌*◌, ◌<◌, ◌≤◌, ◌^◌, ◌%◌, ◌≡◌, refl, sym, ap, ◌∙◌, some, List, [], ◌∷◌, arith, length,
}
use cachercise.Base.Run.{Run, ok, ◌>>=◌}
use cachercise.Common.{success, to_int32, write, read}
use cachercise.Hoard.{Hoard}
use cachercise.Dummy.Memory.{Env, Context, Heap}
use cachercise.Dummy.{dummy_backend}
use cachercise.Dummy
use cachercise.Dummy.Transfers.{read-write}
use cachercise.Table.{UtHash}
use cachercise.Messages.{IoIn, IoOut}
use cachercise.Provider.{Cache, Provider, find_cache}
use cachercise.Provider.Handlers
use cachercise.Provider.Handlers.{scratch_of}
use cachercise.Client.{Handle}
use cachercise.Client.Bytes.{word, bytes, AllBytes, bytes-word, length-bytes, memcpy, memcpy-all}
use cachercise.Client.Calls.{output, scratch_in, io_answer, io_input}

-- The dummy backend's `io`, taken from its table.
pub dummy_backend-io : (env : Env) → (dummy_backend env).io ≡ Dummy.io env
unfolding dummy_backend
dummy_backend-io env = refl

memcpy_8 : (dest src : List ℕ) → length dest ≡ 8 → length src ≡ 8 → memcpy dest src 8 ≡ ok src
memcpy_8 dest src d s = ap (λ n. memcpy dest src n) (sym s) ∙ memcpy-all dest src (omega arith)

bytes_8-word : (bs : List ℕ) → AllBytes bs → length bs ≡ 8 → bytes 8 (word bs) ≡ bs
bytes_8-word bs a l = ap (λ n. bytes n (word bs)) (sym l) ∙ bytes-word bs a

-- A whole item in a successful answer to a read goes into the buffer.
read_answer :
    (buf bs : List ℕ) (result : ℕ)
    → length buf ≡ 8
    → length bs ≡ 8
    → AllBytes bs
    → io_answer buf read
        (output (record { bytes = 8; scratch = word bs; result = result; ret = success }))
      ≡ ok (8, bs)
unfolding io_answer
read_answer buf bs result l m a =
    ap (λ t. memcpy buf t 8 >>= λ b. ok (8, b)) (bytes_8-word bs a m)
    ∙ ap (λ t. t >>= λ b. ok (8, b)) (memcpy_8 buf bs l m)

module _ {T : Type 0} (hash : UtHash T (Cache Heap)) (p : Provider Heap T) where
  -- cachercise_io over a transport that delivers: the client fills in the request, the provider's
  -- handler answers it with `out` on its stack, and the client reads the answer.
  unfoldable pub served_io :
      (out : IoOut) (stack : ℕ)
      → Handle
      → (buf : List ℕ) → (count offset kind : ℕ) → Heap
      → Run (ℕ × List ℕ × Heap)
  served_io out stack handle buf count offset kind w = do
    scratch ← scratch_in stack buf count kind
    (answer, w') ← Handlers.io hash p w out (some (io_input handle count offset kind scratch))
    (ret, buf') ← io_answer buf kind (output answer)
    ok (ret, buf', w')

-- The handler's answer to a request for a cache that is in the table.
module _ {T : Type 0} (hash : UtHash T (Cache Heap)) (env : Env) (p : Provider Heap T)
    (r : Cache Heap) where
  handler_io :
      (w w' : Heap) (out : IoOut) (input : IoIn) (result s : ℕ)
      → find_cache hash p input.cache_id ≡ some r
      → r.fn ≡ dummy_backend env
      → Dummy.io env r.ctx input.count input.offset (input.scratch ∷ []) (to_int32 input.kind) w
        ≡ ok (result, s ∷ [], w')
      → Handlers.io hash p w out (some input)
        ≡ ok (
          record { bytes = result * 8 % 2 ^ 64; scratch = s; result = result; ret = success },
          w',
        )
  unfolding Handlers.io Handlers.io_found Handlers.scratch_of
  handler_io w w' out input result s f b run =
      let fn : r.fn.io ≡ Dummy.io env = ap (λ (t : _). t.io) b ∙ dummy_backend-io env in
      rw (f, fn, run)

  module _ (handle : Handle) (found : find_cache hash p handle.cache_id ≡ some r)
      (backend : r.fn ≡ dummy_backend env) where
    pub served_write :
        (out : IoOut) (stack : ℕ) (buf : List ℕ) (offset : ℕ) (w w' : Heap)
        → length buf ≡ 8
        → Dummy.io env r.ctx 8 offset (word buf ∷ []) write w ≡ ok (1, word buf ∷ [], w')
        → served_io hash p out stack handle buf 8 offset write w ≡ ok (8, buf, w')
    unfolding served_io scratch_in io_answer
    served_write out stack buf offset w w' l run =
        let copied = memcpy_8 (bytes 8 stack) buf (length-bytes 8 stack) l in
        rw (
          copied,
          handler_io w w' out (io_input handle 8 offset write (word buf)) 1 (word buf) found backend
              run,
        )

    pub served_read :
        (out : IoOut) (stack : ℕ) (buf bs : List ℕ) (offset : ℕ) (w w' : Heap)
        → length buf ≡ 8
        → length bs ≡ 8
        → AllBytes bs
        → Dummy.io env r.ctx 8 offset (stack ∷ []) read w ≡ ok (1, word bs ∷ [], w')
        → served_io hash p out stack handle buf 8 offset read w ≡ ok (8, bs, w')
    unfolding served_io scratch_in
    served_read out stack buf bs offset w w' l m a run =
        let answered = read_answer buf bs 1 l m a in
        rw (
          handler_io w w' out (io_input handle 8 offset read stack) 1 (word bs) found backend run,
          answered,
        )

    -- What a client writes to an offset of a cache is what a client reads back: on a provider that
    -- finds a record at the handle's id which is the dummy backend's, whose context is in use with
    -- a hoard that has room for the offset, cachercise_io of eight bytes writes them, and
    -- cachercise_io of eight bytes from the same offset of the heap that the write leaves fills any
    -- eight-byte buffer with them, whatever the stacks held. Both return 8.
    pub served_write-read :
        (c : Context) (h : Hoard) (out out' : IoOut) (stack stack' : ℕ) (buf buf' : List ℕ)
        (offset : ℕ) (w : Heap)
        → w.contexts r.ctx ≡ some c
        → w.hoards c.h ≡ some h
        → env.vector_max < 2 ^ 63
        → (length h + offset + 1) * 2 ≤ env.vector_max
        → length buf ≡ 8
        → AllBytes buf
        → length buf' ≡ 8
        → (w' : Heap) × (served_io hash p out stack handle buf 8 offset write w ≡ ok (8, buf, w'))
          × (served_io hash p out' stack' handle buf' 8 offset read w' ≡ ok (8, buf, w'))
    served_write-read c h out out' stack stack' buf buf' offset w is a b f l k l' =
        let (w', written, back) = read-write env r.ctx c w is h offset (word buf) stack' a b f in
        (
          w',
          served_write out stack buf offset w w' l written,
          served_read out' stack' buf' buf offset w' w' l' l k back,
        )
