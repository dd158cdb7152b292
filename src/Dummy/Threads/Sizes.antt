-- ===== src/Dummy/Threads/Sizes.antt =====
-- The size of the hoard while threads work on it.
use cachercise.Base.{
  ℕ, Bool, ltb, suc, ◌+◌, ◌*◌, ◌^◌, ◌<◌, ◌≤◌, ◌≡◌, ◌≢◌, refl, sym, ap, ◌∙◌, true, false, List,
  arith, ◌==◌, length, length-set,
}
use mathlib.Core.Path.{subst}
use mathlib.Core.Option.{some-injective}
use native.Mathlib.Decide.{ℕ_discrete}
use cachercise.Base.Run.{ok_injective, ok}
use cachercise.Common.{write, u64}
use cachercise.Hoard.{Hoard, store}
use cachercise.Hoard.Bounds.{Fits, grown, length-grown, grow-ok}
use cachercise.Dummy.Threads.{
  Call, Shared, Pc, growing, copying, leaving, reading, returned, critical, enlarging, loaded,
  faulted, small, enlarge, test, enough, load, freed, Move, lock, resized, copy, copied, unlock,
  begin_read, fetch, fetched, System, update, pick, Reach, start, later,
}
use cachercise.Dummy.Threads.Exclusive.{Control, Reach-Control}

-- What a call keeps to, where the places below `top` may be written to and `first` is the size of the
-- hoard at the start: a write stays below `top`, a read within the hoard, and both within the buffer.
pub record Suits (top first : ℕ) (a : Call) : Type 0 where
  pub buffer : a.count ≤ length a.scratch
  pub writes : a.kind ≡ write → a.offset + a.count ≤ top
  pub reads : a.kind ≢ write → a.offset + a.count ≤ first

-- Room in the vector for the places below `top`.
pub record Roomy (max_size top first : ℕ) : Type 0 where
  pub addressable : max_size < 2 ^ 63
  pub room : 10 * top ≤ max_size
  pub short : first ≤ 4 * top

-- What the local variables of a thread say about the hoard, of size `size`.
abbrev pub Local : (size : ℕ) → Call → Pc → Type 0
Local size a enlarging = size < a.offset + a.count
Local size a (copying i) = a.offset + a.count ≤ size
Local size a (reading i dest) = length dest ≡ length a.scratch
Local size a (loaded i dest g) = (i < a.count) × (length dest ≡ length a.scratch)
Local size a _ = Unit {0}

pub record Sized (top first : ℕ) (calls : ℕ → Call) (m : Shared) (pc : ℕ → Pc) : Type 0 where
  pub short : length m.hoard ≤ 4 * top
  pub kept : first ≤ length m.hoard
  pub local : (t : ℕ) → Local (length m.hoard) (calls t) (pc t)

store-length : (xs ys : List ℕ) (i v : ℕ) → store xs i v ≡ ok ys → length ys ≡ length xs
unfolding store
store-length xs ys i v e = ground (arith, length-set xs i v)

Local-mono :
    (n n' : ℕ) (a : Call) (p : Pc)
    → n ≤ n'
    → (critical p ≡ true → n' ≤ n)
    → Local n a p
    → Local n' a p
Local-mono n n' a enlarging l k h = omega (arith, k refl)
Local-mono n n' a (copying i) l k h = omega arith
Local-mono n n' a (reading i dest) l k h = h
Local-mono n n' a (loaded i dest g) l k h = h
Local-mono n n' a _ l k h = tt

module _ (max_size top first : ℕ) (roomy : Roomy max_size top first) where
  -- What the size test of a write that keeps to `top` says.
  pub small-size :
      (a : Call) (h : Hoard) (b : Bool)
      → Suits top first a
      → a.kind ≡ write
      → small a h ≡ b
      → b ≡ ltb (length h) (a.offset + a.count)
  small-size a h b s k e =
      let w = s.writes k in
      let at : u64 (a.offset + a.count) ≡ a.offset + a.count =
        omega (arith, roomy.room, roomy.addressable) in
      rw at at (sym e)

  -- The resize of a write that keeps to `top`.
  pub enlarge-size :
      (a : Call) (h : Hoard)
      → Suits top first a
      → a.kind ≡ write
      → length h < a.offset + a.count
      → (h' : Hoard) × (enlarge max_size a h ≡ ok h')
        × (length h' ≤ 4 * top)
        × (length h ≤ length h')
        × (a.offset + a.count ≤ length h')
  unfolding enlarge
  enlarge-size a h s k l =
      let w = s.writes k in
      let f : Fits max_size h a.scratch a.count a.offset = record {
        addressable = roomy.addressable;
        room = omega (arith, roomy.room);
        buffer = s.buffer;
      } in
      let n = length-grown h a.count a.offset in
      let at : u64 (a.offset + a.count) ≡ a.offset + a.count =
        omega (arith, roomy.room, roomy.addressable) in
      let short : ltb (length h) (u64 (a.offset + a.count)) ≡ true = rw at (ground arith) in
      (
        grown h a.count a.offset,
        rw short at (grow-ok max_size h a.scratch a.count a.offset f),
        ground (arith, n),
        ground (arith, n),
        ground (arith, n),
      )

  module _ (calls : ℕ → Call) (suits : (t : ℕ) → Suits top first (calls t)) where
    -- A move that makes the hoard no smaller.
    longer :
        {m : Shared} {pc : ℕ → Pc} (t : ℕ) (p' : Pc) (m' : Shared)
        → Sized top first calls m pc
        → length m.hoard ≤ length m'.hoard
        → ((u : ℕ) → u ≢ t → critical (pc u) ≡ true → length m'.hoard ≤ length m.hoard)
        → length m'.hoard ≤ 4 * top
        → Local (length m'.hoard) (calls t) p'
        → Sized top first calls m' (update pc t p')
    longer {m} {pc} t p' m' s l k b own = record {
      short = b;
      kept = omega (arith, s.kept);
      local = λ u. elim (ℕ_discrete u t) [
        | yes e ↦
            let self : (u == t) ≡ true = ground arith in
            rw self (subst (λ v. Local (length m'.hoard) (calls v) p') (sym e) own)
        | no o ↦
            let other : (u == t) ≡ false = ground arith in
            rw other
              (Local-mono (length m.hoard) (length m'.hoard) (calls u) (pc u) l (k u o) (s.local u))
      ];
    }

    -- A move that keeps its size.
    same_hoard :
        {m : Shared} {pc : ℕ → Pc} (t : ℕ) (p' : Pc) (m' : Shared)
        → Sized top first calls m pc
        → length m'.hoard ≡ length m.hoard
        → Local (length m.hoard) (calls t) p'
        → Sized top first calls m' (update pc t p')
    same_hoard {m} t p' m' s n own =
        longer t p' m' s (omega (arith, n)) (λ u o k. omega (arith, n)) (omega (arith, n, s.short))
          (subst (λ k. Local k (calls t) p') (sym n) own)

    Move-Sized :
        {m m' : Shared} {pc : ℕ → Pc} (t : ℕ) {p p' : Pc}
        → Control calls m pc
        → Sized top first calls m pc
        → pc t ≡ p
        → Move max_size t (calls t) m p m' p'
        → Sized top first calls m' (update pc t p')
    Move-Sized t c s e (lock k f) = same_hoard t growing _ s refl tt
    Move-Sized {m} t c s e (test b) =
        let size = small-size (calls t) m.hoard true (suits t) (c.writer t (ap critical e)) b in
        same_hoard t enlarging _ s refl (ground (arith, size))
    Move-Sized {m} t c s e (enough b) =
        let size = small-size (calls t) m.hoard false (suits t) (c.writer t (ap critical e)) b in
        same_hoard t (copying 0) _ s refl (ground (arith, size))
    Move-Sized {m} {pc = pc} t c s e (resized {h'} moved g) =
        let short : length m.hoard < (calls t).offset + (calls t).count =
          subst (Local (length m.hoard) (calls t)) e (s.local t) in
        let (h'', run, b, l, own) =
          enlarge-size (calls t) m.hoard (suits t) (c.writer t (ap critical e)) short in
        let same : h'' ≡ h' = ok_injective (sym run ∙ g) in
        let n : length h'' ≡ length h' = ap length same in
        longer t (copying 0) _ s (omega (arith, n))
          (λ u o k. absurd (o (some-injective u t (sym (c.owner u k) ∙ c.owner t (ap critical e)))))
          (omega (arith, n)) (omega (arith, n))
    Move-Sized {m} t c s e (copy {i} {v} {h'} l a g) =
        let n = store-length m.hoard h' (u64 ((calls t).offset + i)) v g in
        let own : (calls t).offset + (calls t).count ≤ length m.hoard =
          subst (Local (length m.hoard) (calls t)) e (s.local t) in
        same_hoard t (copying (suc i)) _ s n (omega (arith, n))
    Move-Sized t c s e (copied l) = same_hoard t leaving _ s refl tt
    Move-Sized t c s e unlock = same_hoard t (returned _) _ s refl tt
    Move-Sized t c s e (begin_read k) = same_hoard t (reading 0 _) _ s refl refl
    Move-Sized {m} t c s e (load {i} {dest} l) =
        same_hoard t (loaded i dest _) _ s refl
          (l, subst (Local (length m.hoard) (calls t)) e (s.local t))
    Move-Sized {m} t c s e (fetch {i} {v} {g} {dest} {dest'} f a b) =
        let own : (i < (calls t).count) × (length dest ≡ length (calls t).scratch) =
          subst (Local (length m.hoard) (calls t)) e (s.local t) in
        same_hoard t (reading (suc i) dest') _ s refl (store-length dest dest' i v b ∙ own.1)
    Move-Sized t c s e (freed f) = same_hoard t faulted _ s refl tt
    Move-Sized t c s e (fetched l) = same_hoard t (returned _) _ s refl tt

    pub Reach-Sized :
        (n : ℕ) (h : Hoard) {s : System}
        → length h ≡ first
        → Reach max_size n calls h s
        → Sized top first calls s.mem s.pc
    Reach-Sized n h e start = record {
      short = omega (arith, roomy.short);
      kept = omega arith;
      local = λ t. tt;
    }
    Reach-Sized n h e (later r (pick t l mv)) =
        Move-Sized t (Reach-Control max_size n calls h r) (Reach-Sized n h e r) refl mv
