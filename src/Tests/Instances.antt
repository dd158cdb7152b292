-- ===== src/Tests/Instances.antt =====
-- A Margo instance that is a list of RPCs and a list of callbacks, and encodings by lists of numbers.
use cachercise.Base.{
  ℕ, suc, ◌+◌, ◌≤◌, ◌≡◌, refl, true, false, none, some, List, [], ◌∷◌, arith, ◌==◌, if◌then◌else◌,
  get_elem?,
}
use cachercise.Common.{
  ReturnCode, success, err_allocation, err_invalid_args, err_invalid_provider, err_invalid_cache,
  err_invalid_backend, err_invalid_config, err_invalid_token, err_from_mercury, err_from_argobots,
  err_op_unsupported, err_op_forbidden, err_other, to_int, Ptr,
}
use cachercise.Margo.{Rpc, Margo, without, has_id}
use cachercise.Messages.Wire.{Codec, Mercury}

pub record Instance : Type 0 where
  pub rpcs : List Rpc
  pub callbacks : List Ptr

-- An id that no RPC has.
abbrev pub unused_id : List Rpc → ℕ
unused_id [] = 1
unused_id (r ∷ rs) = suc (r.id + unused_id rs)

pub has_id-beyond : (i : ℕ) (rs : List Rpc) → unused_id rs ≤ i → has_id i rs ≡ false
has_id-beyond i [] l = refl
has_id-beyond i (r ∷ rs) l = ground (arith, has_id-beyond i rs)

abbrev pop_first : Ptr → List Ptr → List Ptr
pop_first p [] = []
pop_first p (q ∷ qs) = if q == p then qs else q ∷ pop_first p qs

pub pop_first-push : (p : Ptr) (l cs : List Ptr) → l ≡ p ∷ cs → pop_first p l ≡ cs
pop_first-push p l cs e = rw e (ground arith)

abbrev pub list_margo : Margo Instance
list_margo = record {
  is_listening = λ m. true;
  rpcs = λ m. m.rpcs;
  callbacks = λ m. m.callbacks;
  register = λ name pid pool m. (
    unused_id m.rpcs,
    record m { rpcs = record { id = unused_id m.rpcs; name = name; provider_id = pid } ∷ m.rpcs },
  );
  deregister = λ i m. record m { rpcs = without i m.rpcs };
  push_finalize = λ p m. record m { callbacks = p ∷ m.callbacks };
  pop_finalize = λ p m. record m { callbacks = pop_first p m.callbacks };
  register-fresh = λ name pid pool m. has_id-beyond (unused_id m.rpcs) m.rpcs (omega arith);
  register-rpcs = λ name pid pool m. refl;
  register-callbacks = λ name pid pool m. refl;
  register-is_listening = λ name pid pool m. refl;
  deregister-rpcs = λ i m. refl;
  deregister-callbacks = λ i m. refl;
  push-rpcs = λ p m. refl;
  push-callbacks = λ p m. refl;
  push-is_listening = λ p m. refl;
  pop-rpcs = λ p m. refl;
  pop-push = λ p m cs e. pop_first-push p m.callbacks cs e;
}

abbrev pub empty_instance : Instance
empty_instance = record { rpcs = []; callbacks = [] }

abbrev codes : List ReturnCode
codes =
    success ∷ err_allocation ∷ err_invalid_args ∷ err_invalid_provider ∷ err_invalid_cache
    ∷ err_invalid_backend ∷ err_invalid_config ∷ err_invalid_token ∷ err_from_mercury
    ∷ err_from_argobots ∷ err_op_unsupported ∷ err_op_forbidden ∷ err_other ∷ []

abbrev of_int : ℕ → ReturnCode
of_int n = elim (get_elem? codes n) [ none ↦ err_other | some r ↦ r ]

pub of_int-to_int : (r : ReturnCode) → of_int (to_int r) ≡ r
unfolding to_int
of_int-to_int success = refl
of_int-to_int err_allocation = refl
of_int-to_int err_invalid_args = refl
of_int-to_int err_invalid_provider = refl
of_int-to_int err_invalid_cache = refl
of_int-to_int err_invalid_backend = refl
of_int-to_int err_invalid_config = refl
of_int-to_int err_invalid_token = refl
of_int-to_int err_from_mercury = refl
of_int-to_int err_from_argobots = refl
of_int-to_int err_op_unsupported = refl
of_int-to_int err_op_forbidden = refl
of_int-to_int err_other = refl

abbrev pub number : {Fits : ℕ → Type 0} → Codec ℕ Fits
number = record {
  encode = λ n. n ∷ [];
  decode = λ bs. elim bs [ [] ↦ none | (n ∷ rest) ↦ some (n, rest) ];
  decode-encode = λ n rest f. refl;
}

abbrev pub code : Codec ReturnCode (λ r. Unit {0})
code = record {
  encode = λ r. to_int r ∷ [];
  decode = λ bs. elim bs [ [] ↦ none | (n ∷ rest) ↦ some (of_int n, rest) ];
  decode-encode = λ r rest f. rw (of_int-to_int r) refl;
}

abbrev pub number_wire : Mercury
number_wire = record { ret = code; count = number; id = number }
