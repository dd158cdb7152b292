-- ===== src/Client/Bytes.antt =====
-- The bytes of an `int64_t`, least significant first, and `memcpy` between them and a buffer.
use cachercise.Base.{
  ℕ, zero, suc, ◌+◌, ◌*◌, ◌/◌, ◌%◌, ◌^◌, ◌<◌, ◌≤◌, ◌≡◌, refl, List, [], ◌∷◌, arith, length, ap,
}
use native.Mathlib.Nat.{pow-suc}
use cachercise.Base.Run.{Run, ok, fault, undefined, ◌>>=◌}

unfoldable pub word : List ℕ → ℕ
word [] = 0
word (b ∷ bs) = b + 256 * word bs

unfoldable pub bytes : ℕ → ℕ → List ℕ
bytes zero w = []
bytes (suc n) w = (w % 256) ∷ bytes n (w / 256)

-- memcpy(dest, src, n)
unfoldable pub memcpy : List ℕ → List ℕ → ℕ → Run (List ℕ)
memcpy dest src zero = ok dest
memcpy dest [] (suc n) = fault undefined
memcpy [] (s ∷ src) (suc n) = fault undefined
memcpy (d ∷ dest) (s ∷ src) (suc n) = do rest ← memcpy dest src n; ok (s ∷ rest)

abbrev pub AllBytes : List ℕ → Type 0
AllBytes [] = Unit {0}
AllBytes (b ∷ bs) = (b < 256) × AllBytes bs

pub bytes-word : (bs : List ℕ) → AllBytes bs → bytes (length bs) (word bs) ≡ bs
unfolding bytes word
bytes-word [] a = refl
bytes-word (b ∷ bs) (l, a) =
    let low : (b + 256 * word bs) % 256 ≡ b = omega arith in
    let high : (b + 256 * word bs) / 256 ≡ word bs = omega arith in
    rw (low, high) (ap (◌∷◌ b) (bytes-word bs a))

pub length-bytes : (n w : ℕ) → length (bytes n w) ≡ n
unfolding bytes
length-bytes zero w = refl
length-bytes (suc n) w = ap suc (length-bytes n (w / 256))

-- Copying over the whole of a buffer of the same length replaces it.
pub memcpy-all :
    (dest src : List ℕ) → length dest ≡ length src → memcpy dest src (length src) ≡ ok src
unfolding memcpy
memcpy-all [] [] e = refl
memcpy-all [] (s ∷ src) e = absurd (omega arith)
memcpy-all (d ∷ dest) [] e = absurd (omega arith)
memcpy-all (d ∷ dest) (s ∷ src) e = rw (memcpy-all dest src (omega arith))

-- A number of at most `n` bytes is what its bytes spell.
pub word-bytes : (n w : ℕ) → w < 256 ^ n → word (bytes n w) ≡ w
unfolding bytes word
word-bytes zero w h = omega arith
word-bytes (suc n) w h =
    let high = word-bytes n (w / 256) (omega (arith, pow-suc 256 n)) in rw high (omega arith)

pub bytes-AllBytes : (n w : ℕ) → AllBytes (bytes n w)
unfolding bytes
bytes-AllBytes zero w = tt
bytes-AllBytes (suc n) w = (omega arith, bytes-AllBytes n (w / 256))

-- Copying no more bytes than either side has leaves a buffer of the same length.
pub memcpy-length :
    (n : ℕ) (dest src : List ℕ)
    → n ≤ length dest
    → n ≤ length src
    → (dest' : List ℕ) × (memcpy dest src n ≡ ok dest') × (length dest' ≡ length dest)
unfolding memcpy
memcpy-length zero dest src a b = (dest, refl, refl)
memcpy-length (suc n) [] src a b = absurd (omega arith)
memcpy-length (suc n) (d ∷ dest) [] a b = absurd (omega arith)
memcpy-length (suc n) (d ∷ dest) (s ∷ src) a b =
    let (dest', run, l) = memcpy-length n dest src (omega arith) (omega arith) in
    (s ∷ dest', rw run refl, ap suc l)
