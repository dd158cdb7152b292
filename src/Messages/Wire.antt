-- ===== src/Messages/Wire.antt =====
-- hg_proc_list_caches_out_t and hg_proc_cachercise_cache_id_t of src/types.h: how the answer to
-- `list_caches` is sent. Mercury's primitives are parameters; each appends its value to the bytes,
-- and takes it off again.
use cachercise.Base.{
  ℕ, zero, suc, ◌^◌, Bool, true, false, if◌then◌else◌, ◌≤◌, ◌<◌, ◌≡◌, refl, sym, ap, ◌∙◌, Option,
  none, some, List, [], ◌∷◌, ◌++◌, arith, length, take,
}
use mathlib.Core.List.{append_assoc, append-nil}
use cachercise.Common.{ReturnCode, CacheId}
use cachercise.Messages.{ListCachesOut}
use cachercise.Client.Calls.{Answer, no_output, output}

infixl 5 ◌>>=◌
abbrev ◌>>=◌ {ℓ κ} : {A : Type ℓ} {B : Type κ} → Option A → (A → Option B) → Option B
none >>= f = none
some a >>= f = f a

-- `Fits` says of a value that the type it is sent as can hold it.
pub record Codec (A : Type 0) (Fits : A → Type 0) : Type 0 where
  pub encode : A → List ℕ
  pub decode : List ℕ → Option (A × List ℕ)
  pub decode-encode : (a : A) (rest : List ℕ) → Fits a → decode (encode a ++ rest) ≡ some (a, rest)

-- hg_proc_hg_int32_t of `ret`, hg_proc_hg_size_t of `count`, and hg_proc_memcpy of an id
pub record Mercury : Type 0 where
  pub ret : Codec ReturnCode (λ r. Unit {0})
  pub count : Codec ℕ (λ n. n < 2 ^ 64)
  pub id : Codec CacheId (λ i. Unit {0})

unfoldable pub arrived : Option (ListCachesOut × List ℕ) → Answer ListCachesOut
arrived none = no_output
arrived (some (out, rest)) = output out

module _ (m : Mercury) where
  -- hg_proc_memcpy of the first `n` elements of the array, which must have as many
  unfoldable pub encode_ids : ℕ → List CacheId → Option (List ℕ)
  encode_ids zero ids = some []
  encode_ids (suc n) [] = none
  encode_ids (suc n) (i ∷ ids) = do rest ← encode_ids n ids; some (m.id.encode i ++ rest)

  unfoldable pub decode_ids : ℕ → List ℕ → Option (List CacheId × List ℕ)
  decode_ids zero bs = some ([], bs)
  decode_ids (suc n) bs = do
    (i, bs₁) ← m.id.decode bs
    (ids, bs₂) ← decode_ids n bs₁
    some (i ∷ ids, bs₂)

  -- HG_ENCODE: an array that is NULL is not sent.
  unfoldable pub encode_out : ListCachesOut → Option (List ℕ)
  unfolding encode_ids
  encode_out out = do
    ids ← elim out.ids [ none ↦ some [] | some ids ↦ encode_ids out.count ids ]
    some (m.ret.encode out.ret ++ (m.count.encode out.count ++ ids))

  -- HG_DECODE: `allocates` says of the `calloc` that it gives an array; without one the ids are not
  -- read, and the code is HG_SUCCESS.
  unfoldable pub decode_out : (allocates : Bool) → List ℕ → Option (ListCachesOut × List ℕ)
  unfolding decode_ids
  decode_out allocates bs = do
    (ret, bs₁) ← m.ret.decode bs
    (count, bs₂) ← m.count.decode bs₁
    let null = some (record { ret = ret; count = count; ids = none }, bs₂)
    let array = do
      (ids, bs₃) ← decode_ids count bs₂
      some (record { ret = ret; count = count; ids = some ids }, bs₃)
    if allocates then array else null

  -- What the admin gets of an output that is sent: no output if it cannot be decoded.
  unfoldable pub received : (allocates : Bool) → ListCachesOut → Answer ListCachesOut
  unfolding arrived
  received allocates out = arrived (encode_out out >>= decode_out allocates)

  decode_ids-encode_ids :
      (n : ℕ) (ids : List CacheId) (rest : List ℕ)
      → n ≤ length ids
      → (bs : List ℕ) × (encode_ids n ids ≡ some bs)
        × (decode_ids n (bs ++ rest) ≡ some (take n ids, rest))
  unfolding encode_ids decode_ids
  decode_ids-encode_ids zero ids rest l = ([], refl, refl)
  decode_ids-encode_ids (suc n) [] rest l = absurd (omega arith)
  decode_ids-encode_ids (suc n) (i ∷ ids) rest l =
      let (bs, e, d) = decode_ids-encode_ids n ids rest (omega arith) in
      (
        m.id.encode i ++ bs,
        rw e,
        rw (append_assoc (m.id.encode i) bs rest, m.id.decode-encode i (bs ++ rest) tt, d),
      )

  encode_out-some :
      (out : ListCachesOut) (ids : List CacheId) (bs : List ℕ)
      → out.ids ≡ some ids
      → encode_ids out.count ids ≡ some bs
      → encode_out out ≡ some (m.ret.encode out.ret ++ (m.count.encode out.count ++ bs))
  unfolding encode_out
  encode_out-some out ids bs e f = rw (e, encode_out, f)

  decode_out-header :
      (ret : ReturnCode) (count : ℕ) (bs : List ℕ)
      → count < 2 ^ 64
      → decode_out true (m.ret.encode ret ++ (m.count.encode count ++ bs)) ≡ (
          decode_ids count bs >>= λ (ids, rest).
          some (record { ret = ret; count = count; ids = some ids }, rest))
  unfolding decode_out
  decode_out-header ret count bs l =
      rw (m.ret.decode-encode ret (m.count.encode count ++ bs) tt, m.count.decode-encode count bs l)

  -- An output of `list_caches` whose array has `count` ids or more arrives, with its code, its count and
  -- the first `count` ids, where the `calloc` of the admin's side gives an array.
  pub received-ids :
      (out : ListCachesOut) (ids : List CacheId)
      → out.ids ≡ some ids
      → out.count ≤ length ids
      → out.count < 2 ^ 64
      → received true out
        ≡ output (record { ret = out.ret; count = out.count; ids = some (take out.count ids) })
  unfolding received
  received-ids out ids e l b =
      let (bs, f, d) = decode_ids-encode_ids out.count ids [] l in
      let d' : decode_ids out.count bs ≡ some (take out.count ids, []) =
        ap (decode_ids out.count) (sym (append-nil bs)) ∙ d in
      rw (encode_out-some out ids bs e f, decode_out-header out.ret out.count bs b, d')

  -- Without an array on the admin's side its code and its count arrive, and no ids.
  pub received-null :
      (out : ListCachesOut) (ids : List CacheId)
      → out.ids ≡ some ids
      → out.count ≤ length ids
      → out.count < 2 ^ 64
      → received false out ≡ output (record { ret = out.ret; count = out.count; ids = none })
  unfolding received decode_out
  received-null out ids e l b =
      let (bs, f, d) = decode_ids-encode_ids out.count ids [] l in
      rw
        (
          encode_out-some out ids bs e f,
          m.ret.decode-encode out.ret (m.count.encode out.count ++ bs) tt,
          m.count.decode-encode out.count bs b,
        )
        refl
